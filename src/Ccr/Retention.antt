-- ===== src/Ccr/Retention.antt =====
-- internal/ccr/retention.go. The objects are those that `objects` walks over; times are nanoseconds
-- since the zero Time, and sizes are added without the wrap-around of `int64`, which sums of sizes
-- of files on a disk do not reach. sort.Slice is a parameter, since it leaves open the order of
-- objects with one time.
pub mod Sums
pub mod Spared
pub mod Bounds
mod Tests
use cachy.Base.{
  ℕ, ◌+◌, ◌-◌, ◌≡◌, Bool, true, false, not, ◌&&◌, ◌||◌, List, [], ◌∷◌, ◌++◌, ltb, leb,
  if◌then◌else◌, keep, map, any, length, Result, ok, err, ◌>>=◌,
}
use cachy.Base.Int.{ℤ, pos, pos_part, ltb_ℤ, leb_ℤ, ◌-ℤ◌}
use cachy.Text.{Bytes, equal}
use cachy.Tokens.{Error}

pub record RetentionPolicy : Type 0 where
  pub max_age : ℤ
  pub max_bytes : ℤ

pub record CleanupOptions : Type 0 where
  pub now : ℤ
  pub policy : RetentionPolicy
  pub confirm : Bool

pub record CleanupResult : Type 0 where
  pub dry_run : Bool
  pub would_remove : ℕ
  pub removed : ℕ
  pub failed : ℕ
  pub kept : ℕ
  pub bytes_would_remove : ℕ
  pub bytes_removed : ℕ
  pub bytes_kept : ℕ

pub record Diagnostics : Type 0 where
  pub root : Bytes
  pub objects : ℕ
  pub bytes : ℕ

pub record ObjectInfo : Type 0 where
  pub path : Bytes
  pub size : ℕ
  pub mod_time : ℤ

pub total_size : List ObjectInfo → ℕ
total_size [] = 0
total_size (o ∷ os) = o.size + total_size os

pub diagnostics : Bytes → Result Error (List ObjectInfo) → Result Error Diagnostics
diagnostics root listing = do
  objects ← listing
  ok (record { root = root; objects = length objects; bytes = total_size objects })

-- Whether a path is in the set of paths to remove.
pub marked : List Bytes → Bytes → Bool
marked paths p = any (λ q. equal q p) paths

pub is_aged : RetentionPolicy → ℤ → ObjectInfo → Bool
is_aged policy now o = ltb_ℤ (pos 0) policy.max_age && ltb_ℤ o.mod_time (now -ℤ policy.max_age)

-- The second loop: the oldest objects, until the total is small enough.
pub mark_oldest : ℕ → ℕ → List ObjectInfo → List Bytes
mark_oldest most total [] = []
mark_oldest most total (o ∷ os) =
    let rest = mark_oldest most (total - o.size) os in if leb total most then [] else o.path ∷ rest

abbrev pub zero_result : Bool → CleanupResult
zero_result dry_run = record {
  dry_run = dry_run;
  would_remove = 0;
  removed = 0;
  failed = 0;
  kept = 0;
  bytes_would_remove = 0;
  bytes_removed = 0;
  bytes_kept = 0;
}

-- The path is to be removed.
pub count_candidate : ObjectInfo → CleanupResult → CleanupResult
count_candidate o r = record r {
  would_remove = r.would_remove + 1;
  bytes_would_remove = r.bytes_would_remove + o.size;
}

pub count_kept : ObjectInfo → CleanupResult → CleanupResult
count_kept o r = record r { kept = r.kept + 1; bytes_kept = r.bytes_kept + o.size }

pub count_failed : CleanupResult → CleanupResult
count_failed r = record r { failed = r.failed + 1 }

pub count_removed : ObjectInfo → CleanupResult → CleanupResult
count_removed o r = record r { removed = r.removed + 1; bytes_removed = r.bytes_removed + o.size }

-- `sort` sorts by time, and `removes` says whether the removal of a path succeeds.
module _ (sort : List ObjectInfo → List ObjectInfo) (removes : Bytes → Bool) where
  pub cleanup_candidates : List ObjectInfo → RetentionPolicy → ℤ → List Bytes
  cleanup_candidates objects policy now =
      let aged = map (λ (o : ObjectInfo). o.path) (keep (is_aged policy now) objects) in
      let young = keep (λ o. not (is_aged policy now o)) objects in
      if ltb_ℤ (pos 0) policy.max_bytes
      then aged ++ mark_oldest (pos_part policy.max_bytes) (total_size young) (sort young)
      else aged

  -- One round of the loop of `Cleanup`: the counts, and whether the object is gone.
  pub visit : List Bytes → Bool → ObjectInfo → CleanupResult → CleanupResult × Bool
  visit paths confirm o r =
      if marked paths o.path
      then (if confirm
          then (if removes o.path
              then (count_removed o (count_candidate o r), true)
              else (count_kept o (count_failed (count_candidate o r)), false))
          else (count_candidate o r, false))
      else (count_kept o r, false)

  -- The objects that are left on the disk, and the counts.
  pub cleanup_from :
      List Bytes → Bool → List ObjectInfo → CleanupResult → List ObjectInfo × CleanupResult
  cleanup_from paths confirm [] r = ([], r)
  cleanup_from paths confirm (o ∷ os) r =
      let (r', gone) = visit paths confirm o r in
      let (left, result) = cleanup_from paths confirm os r' in
      (if gone then left else o ∷ left, result)

  -- `current` is what time.Now returns.
  pub cleanup :
      ℤ
      → CleanupOptions
      → Result Error (List ObjectInfo)
      → Result Error (List ObjectInfo × CleanupResult)
  cleanup current options listing = do
    objects ← listing
    let now =
        if leb_ℤ options.now (pos 0) && leb_ℤ (pos 0) options.now then current else options.now
    let paths = cleanup_candidates objects options.policy now
    ok (cleanup_from paths options.confirm objects (zero_result (not options.confirm)))
