-- ===== src/Proxy/Paths.antt =====
-- internal/proxy/paths.go.
use cachy.Base.{◌≢◌, ℕ, ◌≡◌, refl, Bool, [], ◌∷◌, ◌++◌, arith, ◌==◌, if◌then◌else◌, is_nil, ◌||◌}
use cachy.Text.{equal_iff, Bytes, codes, equal, trim_left, trim_right}

abbrev is_slash : ℕ → Bool
is_slash c = c == b'/'

unfoldable pub join_path : Bytes → Bytes → Bytes
join_path base request =
    let base' = trim_right is_slash base in
    if is_nil base'
    then request
    else if is_nil request || equal request (codes "/")
    then base'
    else base' ++ b'/' ∷ trim_left is_slash request

trim_left-slash : (s : Bytes) → trim_left is_slash (b'/' ∷ s) ≡ trim_left is_slash s
unfolding trim_left
trim_left-slash s = refl

-- The path that is sent upstream, for a request path that starts with a slash and names something:
-- the target's path, one slash, and the request's path without its leading slashes.
join_path_lem :
    (base request : Bytes)
    → trim_right is_slash base ≢ []
    → request ≢ []
    → join_path base (b'/' ∷ request)
      ≡ trim_right is_slash base ++ b'/' ∷ trim_left is_slash request
unfolding join_path
join_path_lem base request named rest =
    ground (arith, equal_iff (b'/' ∷ request) (codes "/"), trim_left-slash request)
