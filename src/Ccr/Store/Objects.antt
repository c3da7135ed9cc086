-- ===== src/Ccr/Store/Objects.antt =====
-- What `Put` writes, and what `Get` reads back.
use cachy.Base.{
  ℕ, ◌≡◌, ◌≢◌, ◌↔◌, refl, ◌∙◌, true, Option, none, some, List, [], arith, take, Result, ok, err,
}
use cachy.Base.Int.{ℤ}
use cachy.Text.{Bytes, equal_iff, equal_refl}
use cachy.Tokens.{Error}
use cachy.Ccr.Marker.{Address, address_for_content}
use cachy.Ccr.Store.Files.{Disk, read, write, remove, read-write, read-remove}
use cachy.Ccr.Store.{
  Store, same_int, StoreError, system, RenameError, target_exists, rename_error, PutCalls,
  same_address, object_path, finish_rename, on_close, on_chmod, on_write, on_create, on_mkdir,
  on_stat, put,
}

same_int-eq : (a b : ℤ) → same_int a b ≡ true → a ≡ b
same_int-eq a b h = ground arith

pub same_address_iff : (a b : Address) → (same_address a b ≡ true) ↔ (a ≡ b)
unfolding same_address
same_address_iff a b = (
  (λ h. λ i. record {
    algorithm = (equal_iff a.algorithm b.algorithm).0 (ground arith) i;
    hex = (equal_iff a.hex b.hex).0 (ground arith) i;
    bytes = same_int-eq a.bytes b.bytes (ground arith) i;
  }),
  (λ e. rw e (ground (arith, equal_refl b.algorithm, equal_refl b.hex))),
)

read-write_ne : (p q c : Bytes) (d : Disk) → q ≢ p → read q (write p c d) ≡ read q d
read-write_ne p q c d ne = ground (arith, read-write p q c d, equal_iff p q)

pub read-remove_ne : (p q : Bytes) (d : Disk) → q ≢ p → read q (remove p d) ≡ read q d
read-remove_ne p q d ne = ground (arith, read-remove p q d, equal_iff p q)

pub read-write_self : (p c : Bytes) (d : Disk) → read p (write p c d) ≡ some c
read-write_self p c d = ground (arith, read-write p p c d, equal_refl p)

module _ (sha256 : Bytes → Bytes) (join_path : List Bytes → Bytes) where
  module _ (calls : PutCalls) (path content : Bytes) (a : Address) where
    -- The disk and the result of a call from the disk `d`.
    pub record IsCareful (d : Disk) (r : Disk × Result StoreError Address) : Type 0 where
      pub others_kept : (q : Bytes) → q ≢ calls.temp_name → q ≢ path → read q r.0 ≡ read q d
      pub all_kept_on_error :
          (e : StoreError) → r.1 ≡ err e → (q : Bytes) → q ≢ calls.temp_name → read q r.0 ≡ read q d
      pub address_on_success : (b : Address) → r.1 ≡ ok b → b ≡ a

    -- What comes after a write to the temporary file.
    IsCareful-temp :
        (c : Bytes) (d : Disk) (r : Disk × Result StoreError Address)
        → IsCareful (write calls.temp_name c d) r
        → IsCareful d r
    IsCareful-temp c d r h = record {
      others_kept = λ q t p. h.others_kept q t p ∙ read-write_ne calls.temp_name q c d t;
      all_kept_on_error =
          λ e x q t. h.all_kept_on_error e x q t ∙ read-write_ne calls.temp_name q c d t;
      address_on_success = h.address_on_success;
    }

    -- An error after which the temporary file is removed.
    IsCareful-cleared : (e : StoreError) (d : Disk) → IsCareful d (remove calls.temp_name d, err e)
    IsCareful-cleared e d = record {
      others_kept = λ q t p. read-remove_ne calls.temp_name q d t;
      all_kept_on_error = λ e' x q t. read-remove_ne calls.temp_name q d t;
      address_on_success = λ b h. cc;
    }

    -- An error before anything is written.
    IsCareful-untouched : (e : StoreError) (d : Disk) → IsCareful d (d, err e)
    IsCareful-untouched e d = record {
      others_kept = λ q t p. refl;
      all_kept_on_error = λ e' x q t. refl;
      address_on_success = λ b h. cc;
    }

    finish_rename-IsCareful :
        (f : Option RenameError) (d : Disk)
        → IsCareful d (finish_rename sha256 join_path f calls.temp_name path content a d)
    unfolding finish_rename
    finish_rename-IsCareful none d = record {
      others_kept = λ q t p.
          read-remove_ne calls.temp_name q (write path content (remove calls.temp_name d)) t
          ∙ read-write_ne path q content (remove calls.temp_name d) p
          ∙ read-remove_ne calls.temp_name q d t;
      all_kept_on_error = λ e h. cc;
      address_on_success = λ b h. ground arith;
    }
    finish_rename-IsCareful (some (target_exists other)) d = record {
      others_kept = λ q t p.
          read-remove_ne calls.temp_name q (write path other d) t ∙ read-write_ne path q other d p;
      all_kept_on_error = λ e h. cc;
      address_on_success = λ b h. ground arith;
    }
    finish_rename-IsCareful (some (rename_error e)) d = IsCareful-cleared (system e) d

    on_close-IsCareful :
        (o : Option Error) (d : Disk)
        → IsCareful d (on_close sha256 join_path o calls path content a d)
    unfolding on_close
    on_close-IsCareful (some e) d = IsCareful-cleared (system e) d
    on_close-IsCareful none d = finish_rename-IsCareful calls.rename_failure d

    on_chmod-IsCareful :
        (o : Option Error) (d : Disk)
        → IsCareful d (on_chmod sha256 join_path o calls path content a d)
    unfolding on_chmod
    on_chmod-IsCareful (some e) d = IsCareful-cleared (system e) d
    on_chmod-IsCareful none d = on_close-IsCareful calls.close_error d

    on_write-IsCareful :
        (o : Option (ℕ × Error)) (d : Disk)
        → IsCareful d (on_write sha256 join_path o calls path content a d)
    unfolding on_write
    on_write-IsCareful (some (n, e)) d =
        IsCareful-temp (take n content) d _
          (IsCareful-cleared (system e) (write calls.temp_name (take n content) d))
    on_write-IsCareful none d =
        IsCareful-temp content d _
          (on_chmod-IsCareful calls.chmod_error (write calls.temp_name content d))

    on_create-IsCareful :
        (o : Option Error) (d : Disk)
        → IsCareful d (on_create sha256 join_path o calls path content a d)
    unfolding on_create
    on_create-IsCareful (some e) d = IsCareful-untouched (system e) d
    on_create-IsCareful none d =
        IsCareful-temp [] d _ (on_write-IsCareful calls.write_error (write calls.temp_name [] d))

    on_mkdir-IsCareful :
        (o : Option Error) (d : Disk)
        → IsCareful d (on_mkdir sha256 join_path o calls path content a d)
    unfolding on_mkdir
    on_mkdir-IsCareful (some e) d = IsCareful-untouched (system e) d
    on_mkdir-IsCareful none d = on_create-IsCareful calls.create_error d

    on_stat-IsCareful :
        (o : Option Error) (found : Option Bytes) (d : Disk)
        → IsCareful d (on_stat sha256 join_path o found calls path content a d)
    unfolding on_stat
    on_stat-IsCareful (some e) found d = IsCareful-untouched (system e) d
    on_stat-IsCareful none (some c) d = record {
      others_kept = λ q t p. refl;
      all_kept_on_error = λ e h. cc;
      address_on_success = λ b h. ground arith;
    }
    on_stat-IsCareful none none d = on_mkdir-IsCareful calls.mkdir_error d

  -- Whatever the calls of the operating system return, `Put` changes no file but the object's and
  -- the temporary one; if it returns an error it does not change the object either; and if it
  -- succeeds it returns the address of the content.
  pub put-IsCareful :
      (calls : PutCalls) (s : Store) (content : Bytes) (d : Disk)
      → IsCareful calls
          (object_path sha256 join_path s (address_for_content sha256 content))
          content
          (address_for_content sha256 content)
          d
          (put sha256 join_path calls s content d)
  unfolding put
  put-IsCareful calls s content d =
      let a = address_for_content sha256 content in
      let path = object_path sha256 join_path s a in
      on_stat-IsCareful calls path content a calls.stat_error (read path d) d
