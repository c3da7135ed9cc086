-- ===== src/Ccr/Store/Tests.antt =====
-- Runs of the store.
use cachy.Base.{◌≡◌, ◌≢◌, refl, none, some, List, [], ◌∷◌, ◌++◌, ok}
use cachy.Text.{Bytes, codes}
use cachy.Ccr.Marker.{address_for_content}
use cachy.Ccr.Marker.Digest.{address_for_content-valid}
use cachy.Ccr.Store.{new_store, Store, PutCalls, object_path, put, get}
use cachy.Ccr.FlatHash.{flat_hash, flat_hash-IsDigest}
use cachy.Ccr.Store.Files.{read}
use cachy.Ccr.Store.Objects.{IsCareful, put-IsCareful}
use cachy.Ccr.Store.Contents.{IsQuiet, put_succeeds, get-put, get_sound}

abbrev slashed : List Bytes → Bytes
slashed [] = []
slashed (p ∷ ps) = p ++ codes "/" ++ slashed ps

abbrev quiet_calls : PutCalls
quiet_calls = record {
  stat_error = none;
  mkdir_error = none;
  create_error = none;
  temp_name = codes "tmp";
  write_error = none;
  chmod_error = none;
  close_error = none;
  rename_failure = none;
}

abbrev full_disk : PutCalls
full_disk = record quiet_calls { write_error = some (3, codes "no space left on device") }

abbrev store : Store
store = record { root = codes "/var/ccr" }

abbrev log_text : Bytes
log_text = codes "a long log"

quiet_calls-IsQuiet : IsQuiet quiet_calls
quiet_calls-IsQuiet = record {
  stat = refl;
  mkdir = refl;
  create = refl;
  write = refl;
  chmod = refl;
  close = refl;
  rename = refl;
}

object_path-apart :
    object_path flat_hash slashed store (address_for_content flat_hash log_text) ≢ codes "tmp"
unfolding object_path
object_path-apart e = cc (e, address_for_content-valid flat_hash log_text flat_hash-IsDigest)

no_objects :
    read (object_path flat_hash slashed store (address_for_content flat_hash log_text)) [] ≡ none
unfolding read
no_objects = refl

put_run :
    (put flat_hash slashed quiet_calls store log_text []).1
    ≡ ok (address_for_content flat_hash log_text)
put_run = put_succeeds flat_hash slashed quiet_calls store log_text [] quiet_calls-IsQuiet

put_succeeds_example :
    (put flat_hash slashed quiet_calls store log_text []).1
    ≡ ok (address_for_content flat_hash log_text)
put_succeeds_example =
    put_succeeds flat_hash slashed quiet_calls store log_text [] quiet_calls-IsQuiet

get-put_example :
    get flat_hash slashed
      (record { read_error = none })
      store
      (address_for_content flat_hash log_text)
      (put flat_hash slashed quiet_calls store log_text []).0
    ≡ ok log_text
get-put_example =
    get-put flat_hash slashed quiet_calls (record { read_error = none }) store log_text []
      (address_for_content flat_hash log_text) flat_hash-IsDigest refl refl object_path-apart
      no_objects put_run

get_run :
    get flat_hash slashed
      (record { read_error = none })
      store
      (address_for_content flat_hash log_text)
      (put flat_hash slashed quiet_calls store log_text []).0
    ≡ ok log_text
get_run =
    get-put flat_hash slashed quiet_calls (record { read_error = none }) store log_text []
      (address_for_content flat_hash log_text) flat_hash-IsDigest refl refl object_path-apart
      no_objects put_run

get_sound_example :
    (address_for_content flat_hash log_text ≡ address_for_content flat_hash log_text)
    × (read
          (object_path flat_hash slashed store (address_for_content flat_hash log_text))
          (put flat_hash slashed quiet_calls store log_text []).0
        ≡ some log_text)
get_sound_example =
    get_sound flat_hash slashed (record { read_error = none }) store
      (address_for_content flat_hash log_text)
      (put flat_hash slashed quiet_calls store log_text []).0 log_text get_run

put-IsCareful_example :
    IsCareful flat_hash slashed full_disk
      (object_path flat_hash slashed store (address_for_content flat_hash log_text))
      log_text
      (address_for_content flat_hash log_text)
      []
      (put flat_hash slashed full_disk store log_text [])
put-IsCareful_example = put-IsCareful flat_hash slashed full_disk store log_text []

new_store_run : new_store (codes "/var/ccr") ≡ ok store
unfolding new_store
new_store_run = refl
