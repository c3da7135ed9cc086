-- ===== src/Install/Json/Fields.antt =====
-- The laws of the fields of a map.
use cachy.Base.{false, none, some, ◌≡◌, refl, ap, if◌then◌else◌, arith}
use cachy.Text.{Bytes, equal, equal_iff, equal_refl}
use cachy.Install.Json.{
  Json, JsonFields, empty, field, null, boolean, number, string, array, object, get, set, delete,
  clone_json_map, clone_item,
}

mutual
  unfolding clone_json_map clone_item

  clone_json_map_lem : (m : JsonFields) → clone_json_map m ≡ m
  clone_json_map_lem empty = refl
  clone_json_map_lem (field k v m) = rw (clone_item_lem v, clone_json_map_lem m) refl

  clone_item_lem : (v : Json) → clone_item v ≡ v
  clone_item_lem (object m) = ap object (clone_json_map_lem m)
  clone_item_lem null = refl
  clone_item_lem (boolean b) = refl
  clone_item_lem (number n) = refl
  clone_item_lem (string s) = refl
  clone_item_lem (array xs) = refl

-- A copy of a map is the map.
pub clone_lem : (m : JsonFields) → clone_json_map m ≡ m
clone_lem m = clone_json_map_lem m

pub get-set :
    (key j : Bytes) (v : Json) (m : JsonFields)
    → get j (set key v m) ≡ (if equal key j then some v else get j m)
unfolding get set
get-set key j v empty = refl
get-set key j v (field k w m) =
    ground (arith, equal_iff key j, equal_iff k key, equal_iff k j, get-set key j v m)

pub get-delete :
    (key j : Bytes) (m : JsonFields)
    → get j (delete key m) ≡ (if equal key j then none else get j m)
unfolding get delete
get-delete key j empty = ground arith
get-delete key j (field k w m) =
    ground (arith, equal_iff key j, equal_iff k key, equal_iff k j, get-delete key j m)

-- A key that was set for the first time is deleted without a trace.
pub delete-set :
    (key : Bytes) (v : Json) (m : JsonFields) → get key m ≡ none → delete key (set key v m) ≡ m
unfolding get set delete
delete-set key v empty h = ground (arith, equal_refl key)
delete-set key v (field k w m) h = ground (arith, delete-set key v m)

-- Setting a key to what it has changes nothing, and of two settings the last one counts.
pub set-get : (key : Bytes) (v : Json) (m : JsonFields) → get key m ≡ some v → set key v m ≡ m
unfolding get set
set-get key v empty h = cc
set-get key v (field k w m) h = ground (arith, set-get key v m)

pub set-set : (key : Bytes) (v w : Json) (m : JsonFields) → set key w (set key v m) ≡ set key w m
unfolding set
set-set key v w empty = ground (arith, equal_refl key)
set-set key v w (field k u m) = ground (arith, set-set key v w m)

-- Two keys, the second of which is there already, are set in either order.
pub set-set_comm :
    (a b : Bytes) (v w : Json) (m : JsonFields) (u : Json)
    → equal a b ≡ false
    → get b m ≡ some u
    → set a v (set b w m) ≡ set b w (set a v m)
unfolding get set
set-set_comm a b v w empty u ne h = cc
set-set_comm a b v w (field k x m) u ne h =
    ground (arith, equal_iff a b, equal_iff k a, equal_iff k b, set-set_comm a b v w m u)

pub delete-set_other :
    (a b : Bytes) (v : Json) (m : JsonFields)
    → equal a b ≡ false
    → delete a (set b v m) ≡ set b v (delete a m)
unfolding set delete
delete-set_other a b v empty ne = ground (arith, equal_iff a b, equal_iff b a)
delete-set_other a b v (field k w m) ne =
    ground (arith, equal_iff a b, equal_iff k a, equal_iff k b, delete-set_other a b v m)
