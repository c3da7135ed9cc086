-- ===== src/Ccr/Retention/Tests.antt =====
-- Runs of the cleanup of the store.
use mathlib.Core.List.Perm
use cachy.Base.{◌≡◌, ◌≤◌, refl, Bool, true, false, List, [], ◌∷◌, ok}
use cachy.Base.Int.{◌-ℤ◌, pos}
use cachy.Text.{equal, Bytes, codes}
use cachy.Ccr.Retention.{
  count_candidate, count_removed, count_kept, mark_oldest, cleanup_candidates, marked, visit,
  cleanup_from, RetentionPolicy, CleanupOptions, CleanupResult, ObjectInfo, total_size, diagnostics,
  is_aged, cleanup,
}
use cachy.Ccr.Retention.Bounds.{cleanup_bounded}

-- The objects of the runs are listed from the oldest on, so that they need no sorting.
abbrev as_listed : List ObjectInfo → List ObjectInfo
as_listed objects = objects

abbrev always : Bytes → Bool
always path = true

abbrev old : ObjectInfo
old = record { path = codes "a"; size = 70; mod_time = pos 10 }

abbrev recent : ObjectInfo
recent = record { path = codes "b"; size = 60; mod_time = pos 900 }

abbrev latest : ObjectInfo
latest = record { path = codes "c"; size = 50; mod_time = pos 950 }

abbrev objects : List ObjectInfo
objects = old ∷ recent ∷ latest ∷ []

abbrev policy : RetentionPolicy
policy = record { max_age = pos 500; max_bytes = pos 100 }

abbrev options : Bool → CleanupOptions
options confirm = record { now = pos 1000; policy = policy; confirm = confirm }

abbrev removed_two : CleanupResult
removed_two = record {
  dry_run = false;
  would_remove = 2;
  removed = 2;
  failed = 0;
  kept = 1;
  bytes_would_remove = 130;
  bytes_removed = 130;
  bytes_kept = 50;
}

abbrev would_remove_two : CleanupResult
would_remove_two = record {
  dry_run = true;
  would_remove = 2;
  removed = 0;
  failed = 0;
  kept = 1;
  bytes_would_remove = 130;
  bytes_removed = 0;
  bytes_kept = 50;
}

cleanup_run :
    cleanup as_listed always (pos 2000) (options true) (ok objects) ≡ ok (latest ∷ [], removed_two)
unfolding cleanup cleanup_from visit marked cleanup_candidates is_aged ◌-ℤ◌ equal mark_oldest
    total_size count_kept count_removed count_candidate
cleanup_run = refl

cleanup_dry_run_run :
    cleanup as_listed always (pos 2000) (options false) (ok objects)
    ≡ ok (objects, would_remove_two)
unfolding cleanup cleanup_from visit marked cleanup_candidates is_aged ◌-ℤ◌ equal mark_oldest
    total_size count_kept count_candidate
cleanup_dry_run_run = refl

cleanup_bounded_example : total_size (latest ∷ []) ≤ 100
cleanup_bounded_example =
    cleanup_bounded as_listed always (pos 2000) (pos 1000) policy objects (latest ∷ []) removed_two
      (λ xs. Perm.refl xs) (λ p. refl) refl cleanup_run

diagnostics_run :
    diagnostics (codes "/var/ccr") (ok objects)
    ≡ ok (record { root = codes "/var/ccr"; objects = 3; bytes = 180 })
unfolding diagnostics total_size
diagnostics_run = refl
