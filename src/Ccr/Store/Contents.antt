-- ===== src/Ccr/Store/Contents.antt =====
-- `Get` after `Put`, and what `Get` may return.
use cachy.Base.{ℕ, ◌≡◌, ◌≢◌, refl, ◌∙◌, Option, none, some, List, [], arith, Result, ok}
use cachy.Text.{Bytes}
use cachy.Tokens.{Error}
use cachy.Ccr.Marker.{Address, address_for_content}
use cachy.Ccr.Marker.Digest.{IsDigest, address_for_content-valid}
use cachy.Ccr.Store.Files.{Disk, read, write, remove}
use cachy.Ccr.Store.Objects.{same_address_iff, read-write_self, read-remove_ne}
use cachy.Ccr.Store.{
  Store, StoreError, RenameError, PutCalls, GetCalls, object_path, finish_rename, on_close,
  on_chmod, on_write, on_create, on_mkdir, on_stat, put, check_content, get,
}

-- No call reports an error.
pub record IsQuiet (calls : PutCalls) : Type 0 where
  pub stat : calls.stat_error ≡ none
  pub mkdir : calls.mkdir_error ≡ none
  pub create : calls.create_error ≡ none
  pub write : calls.write_error ≡ none
  pub chmod : calls.chmod_error ≡ none
  pub close : calls.close_error ≡ none
  pub rename : calls.rename_failure ≡ none

module _ (sha256 : Bytes → Bytes) (join_path : List Bytes → Bytes) where
  module _ (calls : PutCalls) (path content : Bytes) (a : Address)
      (renamed : calls.rename_failure ≡ none) (apart : path ≢ calls.temp_name) where
    -- If the call succeeds, the file at the path has the content.
    abbrev IsStored : Disk × Result StoreError Address → Type 0
    IsStored r = (b : Address) → r.1 ≡ ok b → read path r.0 ≡ some content

    finish_rename-IsStored :
        (f : Option RenameError) (d : Disk)
        → f ≡ none
        → IsStored (finish_rename sha256 join_path f calls.temp_name path content a d)
    unfolding finish_rename
    finish_rename-IsStored (some f) d no_failure b h = cc
    finish_rename-IsStored none d no_failure b h =
        read-remove_ne calls.temp_name path (write path content (remove calls.temp_name d)) apart
        ∙ read-write_self path content (remove calls.temp_name d)

    on_close-IsStored :
        (o : Option Error) (d : Disk)
        → IsStored (on_close sha256 join_path o calls path content a d)
    unfolding on_close
    on_close-IsStored (some e) d = λ b h. cc
    on_close-IsStored none d = finish_rename-IsStored calls.rename_failure d renamed

    on_chmod-IsStored :
        (o : Option Error) (d : Disk)
        → IsStored (on_chmod sha256 join_path o calls path content a d)
    unfolding on_chmod
    on_chmod-IsStored (some e) d = λ b h. cc
    on_chmod-IsStored none d = on_close-IsStored calls.close_error d

    on_write-IsStored :
        (o : Option (ℕ × Error)) (d : Disk)
        → IsStored (on_write sha256 join_path o calls path content a d)
    unfolding on_write
    on_write-IsStored (some (n, e)) d = λ b h. cc
    on_write-IsStored none d = on_chmod-IsStored calls.chmod_error (write calls.temp_name content d)

    on_create-IsStored :
        (o : Option Error) (d : Disk)
        → IsStored (on_create sha256 join_path o calls path content a d)
    unfolding on_create
    on_create-IsStored (some e) d = λ b h. cc
    on_create-IsStored none d = on_write-IsStored calls.write_error (write calls.temp_name [] d)

    on_mkdir-IsStored :
        (o : Option Error) (d : Disk)
        → IsStored (on_mkdir sha256 join_path o calls path content a d)
    unfolding on_mkdir
    on_mkdir-IsStored (some e) d = λ b h. cc
    on_mkdir-IsStored none d = on_create-IsStored calls.create_error d

    on_stat-IsStored :
        (o : Option Error) (found : Option Bytes) (d : Disk)
        → found ≡ none
        → IsStored (on_stat sha256 join_path o found calls path content a d)
    unfolding on_stat
    on_stat-IsStored (some e) found d new = λ b h. cc
    on_stat-IsStored none (some c) d new = λ b h. cc
    on_stat-IsStored none none d new = on_mkdir-IsStored calls.mkdir_error d

  on_stat-ok :
      (calls : PutCalls) (o : Option Error) (found : Option Bytes) (path content : Bytes)
      (a : Address) (d : Disk)
      → IsQuiet calls
      → o ≡ none
      → (on_stat sha256 join_path o found calls path content a d).1 ≡ ok a
  unfolding on_stat on_mkdir on_create on_write on_chmod on_close finish_rename
  on_stat-ok calls (some e) found path content a d quiet h = cc h
  on_stat-ok calls none (some c) path content a d quiet h = refl
  on_stat-ok calls none none path content a d quiet h =
      rw (quiet.mkdir, quiet.create, quiet.write, quiet.chmod, quiet.close, quiet.rename) refl

  -- If no call of the operating system reports an error, `Put` succeeds, whether or not the object
  -- is there already, and returns the address of the content.
  pub put_succeeds :
      (calls : PutCalls) (s : Store) (content : Bytes) (d : Disk)
      → IsQuiet calls
      → (put sha256 join_path calls s content d).1 ≡ ok (address_for_content sha256 content)
  unfolding put
  put_succeeds calls s content d quiet =
      let a = address_for_content sha256 content in
      let path = object_path sha256 join_path s a in
      on_stat-ok calls calls.stat_error (read path d) path content a d quiet quiet.stat

  check_content_sound :
      (a : Address) (found : Option Bytes) (content : Bytes)
      → check_content sha256 join_path a found ≡ ok content
      → (address_for_content sha256 content ≡ a) × (found ≡ some content)
  unfolding check_content
  check_content_sound a none content h = cc
  check_content_sound a (some c) content h =
      ground (arith, same_address_iff (address_for_content sha256 c) a)

  -- What `Get` returns has the address that it was asked for, and is what the file at the object's path
  -- holds.
  pub get_sound :
      (calls : GetCalls) (s : Store) (a : Address) (d : Disk) (content : Bytes)
      → get sha256 join_path calls s a d ≡ ok content
      → (address_for_content sha256 content ≡ a)
        × (read (object_path sha256 join_path s a) d ≡ some content)
  unfolding get
  get_sound calls s a d content h =
      ground (arith, check_content_sound a (read (object_path sha256 join_path s a) d) content)

  get-stored :
      (calls : GetCalls) (s : Store) (d : Disk) (content : Bytes)
      → IsDigest sha256
      → calls.read_error ≡ none
      → read (object_path sha256 join_path s (address_for_content sha256 content)) d ≡ some content
      → get sha256 join_path calls s (address_for_content sha256 content) d ≡ ok content
  unfolding get check_content
  get-stored calls s d content digest quiet there =
      let a = address_for_content sha256 content in
      ground (arith, address_for_content-valid sha256 content digest, (same_address_iff a a).1 refl)

  -- Where digests have 32 bytes: if `Put` of a content succeeds, its object was not yet there and is not
  -- the temporary file, and no other writer made it in between, then a `Get` that can read the file
  -- returns the content.
  pub get-put :
      (calls : PutCalls) (reads : GetCalls) (s : Store) (content : Bytes) (d : Disk) (a : Address)
      → IsDigest sha256
      → reads.read_error ≡ none
      → calls.rename_failure ≡ none
      → object_path sha256 join_path s (address_for_content sha256 content) ≢ calls.temp_name
      → read (object_path sha256 join_path s (address_for_content sha256 content)) d ≡ none
      → (put sha256 join_path calls s content d).1 ≡ ok a
      → get sha256 join_path reads s
          (address_for_content sha256 content)
          (put sha256 join_path calls s content d).0
        ≡ ok content
  get-put calls reads s content d a digest quiet renamed apart new done =
      get-stored reads s _ content digest quiet (
        unfold put in
        let there = address_for_content sha256 content in
        let path = object_path sha256 join_path s there in
        on_stat-IsStored calls path content there renamed apart calls.stat_error (read path d) d new
          a done)
