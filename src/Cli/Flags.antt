-- ===== src/Cli/Flags.antt =====
-- Package `flag`: a set of flags with string and bool values, and what Parse makes of arguments. The
-- arguments behind the flags are never read; the texts that the package prints itself are left out.
use cachy.Base.{
  ℕ, Bool, true, false, ◌||◌, ◌==◌, Option, none, some, List, [], ◌∷◌, if◌then◌else◌, is_nil, any,
  Result, ok, err,
}
use cachy.Text.{Bytes, codes, equal, cut}

-- A flag's name, and whether it is a bool.
pub record Flag : Type 0 where
  pub name : Bytes
  pub is_bool : Bool

pub data FlagError : Type 0 where
  bad_syntax help : FlagError
  undefined_flag needs_argument invalid_value : Bytes → FlagError

-- What an argument is: the end of the flags, a flag, or a flag with its value.
pub data Arg : Type 0 where
  stop malformed : Arg
  named : Bytes → Arg
  valued : Bytes → Bytes → Arg

first_is : ℕ → Bytes → Bool
first_is b [] = false
first_is b (c ∷ cs) = c == b

-- A flag's text without its dashes.
flag_text : Bytes → Arg
flag_text name =
    if is_nil name || first_is b'-' name || first_is b'=' name
    then malformed
    else elim (cut name (codes "=")) [ none ↦ named name | some (n, v) ↦ valued n v ]

unfoldable pub arg_kind : Bytes → Arg
unfolding flag_text first_is cut
arg_kind [] = stop
arg_kind (c ∷ []) = stop
arg_kind (c ∷ d ∷ cs) =
    if c == b'-'
    then (if d == b'-' then (if is_nil cs then stop else flag_text cs) else flag_text (d ∷ cs))
    else stop

unfoldable pub find_flag : Bytes → List Flag → Option Bool
unfolding equal
find_flag name [] = none
find_flag name (f ∷ fs) =
    let later = find_flag name fs in if equal f.name name then some f.is_bool else later

-- strconv.ParseBool
unfoldable pub parse_bool : Bytes → Option Bool
unfolding equal
parse_bool s =
    if any (equal s)
      (codes "1" ∷ codes "t" ∷ codes "T" ∷ codes "TRUE" ∷ codes "true" ∷ codes "True" ∷ [])
    then some true
    else if any (equal s)
        (codes "0" ∷ codes "f" ∷ codes "F" ∷ codes "FALSE" ∷ codes "false" ∷ codes "False" ∷ [])
    then some false
    else none

abbrev pub Values : Type 0
Values = List (Bytes × Bytes)

unfoldable pub add : Bytes → Bytes → Result FlagError Values → Result FlagError Values
add name value (ok values) = ok ((name, value) ∷ values)
add name value (err e) = err e

undefined : Bytes → FlagError
undefined name =
    if equal name (codes "help") || equal name (codes "h") then help else undefined_flag name

-- FlagSet.Parse; `pending` is a flag that waits for its value. The values stand in their order.
unfoldable pub parse_from : List Flag → Option Bytes → List Bytes → Result FlagError Values
unfolding add undefined arg_kind find_flag parse_bool
parse_from flags (some name) [] = err (needs_argument name)
parse_from flags (some name) (v ∷ args) = add name v (parse_from flags none args)
parse_from flags none [] = ok []
parse_from flags none (arg ∷ args) = elim (arg_kind arg) [
  | stop ↦ ok []
  | malformed ↦ err bad_syntax
  | named name ↦ elim (find_flag name flags) [
    | none ↦ err (undefined name)
    | some is_bool ↦ elim is_bool [
      | true ↦ add name (codes "true") (parse_from flags none args)
      | false ↦ parse_from flags (some name) args
    ]
  ]
  | valued name value ↦ elim (find_flag name flags) [
    | none ↦ err (undefined name)
    | some is_bool ↦ elim is_bool [
      | true ↦ elim (parse_bool value) [
        | none ↦ err (invalid_value name)
        | some b ↦ add name value (parse_from flags none args)
      ]
      | false ↦ add name value (parse_from flags none args)
    ]
  ]
]

unfoldable pub parse : List Flag → List Bytes → Result FlagError Values
unfolding parse_from
parse flags args = parse_from flags none args

-- The value of a flag: the last one that was set, or the default.
unfoldable pub value_of : Bytes → Bytes → Values → Bytes
unfolding equal
value_of name default [] = default
value_of name default ((n, v) ∷ values) = value_of name (if equal n name then v else default) values

unfoldable pub is_set : Bytes → Values → Bool
unfolding value_of parse_bool
is_set name values = elim (parse_bool (value_of name (codes "false") values)) [
  | none ↦ false
  | some b ↦ b
]
