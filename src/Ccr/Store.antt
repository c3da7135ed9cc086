-- ===== src/Ccr/Store.antt =====
-- internal/ccr/store.go. A disk maps the paths of its files to their contents. What the operating
-- system decides (the errors of its calls, the name of the temporary file) is in `PutCalls` and
-- `GetCalls`; path/filepath.Join and SHA-256 are parameters.
pub mod Files
pub mod Objects
pub mod Contents
mod Tests
use cachy.Base.{
  ℕ, Bool, not, ◌&&◌, Option, none, some, List, [], ◌∷◌, ◌++◌, if◌then◌else◌, is_nil, take, Result,
  ok, err,
}
use cachy.Base.Int.{ℤ, pos, ltb_ℤ, leb_ℤ, negsuc}
use cachy.Text.{Bytes, codes, equal}
use cachy.Tokens.{Error}
use cachy.Ccr.Marker.{Address, is_valid_address, address_for_content}
use cachy.Ccr.Store.Files.{Disk, read, write, remove}

pub data StoreError : Type 0 where
  not_found corrupt bad_address root_required : StoreError
  system : Error → StoreError

pub record Store : Type 0 where
  pub root : Bytes

new_store : Bytes → Result StoreError Store
new_store root = if is_nil root then err root_required else ok (record { root = root })

-- Why os.Rename failed: the target is there already, with the content of another writer, or else.
pub data RenameError : Type 0 where
  target_exists : Bytes → RenameError
  rename_error : Error → RenameError

-- The outcome of each call that `Put` may make; `none` is no error. A failing write has written
-- some bytes.
pub record PutCalls : Type 0 where
  pub stat_error : Option Error
  pub mkdir_error : Option Error
  pub create_error : Option Error
  pub temp_name : Bytes
  pub write_error : Option (ℕ × Error)
  pub chmod_error : Option Error
  pub close_error : Option Error
  pub rename_failure : Option RenameError

pub record GetCalls : Type 0 where
  pub read_error : Option Error

abbrev pub same_int : ℤ → ℤ → Bool
same_int a b = leb_ℤ a b && leb_ℤ b a

-- a == b on addresses
pub same_address : Address → Address → Bool
same_address a b = equal a.algorithm b.algorithm && (equal a.hex b.hex && same_int a.bytes b.bytes)

module _ (sha256 : Bytes → Bytes) (join_path : List Bytes → Bytes) where
  pub object_path : Store → Address → Bytes
  object_path s a =
      if not (is_valid_address a)
      then []
      else join_path (s.root ∷ codes "objects" ∷ a.algorithm ∷ take 2 a.hex ∷ a.hex ∷ [])

  -- After the rename, with the deferred removal of the temporary file.
  finish_rename :
      Option RenameError → Bytes → Bytes → Bytes → Address → Disk → Disk × Result StoreError Address
  finish_rename none temp path content a d =
      (remove temp (write path content (remove temp d)), ok a)
  finish_rename (some (target_exists other)) temp path content a d =
      (remove temp (write path other d), ok a)
  finish_rename (some (rename_error e)) temp path content a d = (remove temp d, err (system e))

  -- From each call on, by its outcome.
  on_close :
      Option Error → PutCalls → Bytes → Bytes → Address → Disk → Disk × Result StoreError Address
  on_close (some e) calls path content a d = (remove calls.temp_name d, err (system e))
  on_close none calls path content a d =
      finish_rename calls.rename_failure calls.temp_name path content a d

  on_chmod :
      Option Error → PutCalls → Bytes → Bytes → Address → Disk → Disk × Result StoreError Address
  on_chmod (some e) calls path content a d = (remove calls.temp_name d, err (system e))
  on_chmod none calls path content a d = on_close calls.close_error calls path content a d

  on_write :
      Option (ℕ × Error)
      → PutCalls
      → Bytes
      → Bytes
      → Address
      → Disk
      → Disk × Result StoreError Address
  on_write (some (n, e)) calls path content a d =
      (remove calls.temp_name (write calls.temp_name (take n content) d), err (system e))
  on_write none calls path content a d =
      on_chmod calls.chmod_error calls path content a (write calls.temp_name content d)

  on_create :
      Option Error → PutCalls → Bytes → Bytes → Address → Disk → Disk × Result StoreError Address
  on_create (some e) calls path content a d = (d, err (system e))
  on_create none calls path content a d =
      on_write calls.write_error calls path content a (write calls.temp_name [] d)

  on_mkdir :
      Option Error → PutCalls → Bytes → Bytes → Address → Disk → Disk × Result StoreError Address
  on_mkdir (some e) calls path content a d = (d, err (system e))
  on_mkdir none calls path content a d = on_create calls.create_error calls path content a d

  -- The file at the path, as os.Stat finds it.
  on_stat :
      Option Error
      → Option Bytes
      → PutCalls
      → Bytes
      → Bytes
      → Address
      → Disk
      → Disk × Result StoreError Address
  on_stat (some e) found calls path content a d = (d, err (system e))
  on_stat none (some _) calls path content a d = (d, ok a)
  on_stat none none calls path content a d = on_mkdir calls.mkdir_error calls path content a d

  pub put : PutCalls → Store → Bytes → Disk → Disk × Result StoreError Address
  put calls s content d =
      let a = address_for_content sha256 content in
      let path = object_path s a in on_stat calls.stat_error (read path d) calls path content a d

  check_content : Address → Option Bytes → Result StoreError Bytes
  check_content a none = err not_found
  check_content a (some content) =
      if not (same_address (address_for_content sha256 content) a) then err corrupt else ok content

  pub get : GetCalls → Store → Address → Disk → Result StoreError Bytes
  get calls s a d = if not (is_valid_address a) then err bad_address else elim calls.read_error [
    | some e ↦ err (system e)
    | none ↦ check_content a (read (object_path s a) d)
  ]
