-- ===== src/Admin/Metrics/Counted.antt =====
-- What the counters of the metrics count.
use cachy.Base.{
  ◌&&◌, ℕ, suc, ◌+◌, ◌≡◌, refl, sym, ap, ◌∙◌, Bool, true, Bool-cases, inl, inr, List, [], ◌∷◌,
  if◌then◌else◌, arith, length,
}
use cachy.Text.{Bytes, equal, equal_iff}
use cachy.Text.Decimal.{print_nat}
use cachy.Observability.Telemetry.{RequestTelemetry}
use cachy.Admin.Metrics.{
  Counts, MetricsResponse, Totals, increment, count_of, kind_text, is_failure, count_failure,
  count_record, count_records, no_totals, metrics_from_telemetry,
}

-- How many records pass a test.
pub how_many : (RequestTelemetry → Bool) → List RequestTelemetry → ℕ
how_many p [] = 0
how_many p (r ∷ rs) = let rest = how_many p rs in if p r then suc rest else rest

abbrev pub has_status : Bytes → RequestTelemetry → Bool
has_status key r = equal (print_nat r.status) key

abbrev pub has_failed : RequestTelemetry → Bool
has_failed r = is_failure r.error_kind

abbrev pub has_category : Bytes → RequestTelemetry → Bool
has_category key r = has_failed r && equal (kind_text r.error_kind) key

equal_text : (a b : Bytes) → equal a b ≡ true → a ≡ b
equal_text a b h = (equal_iff a b).0 h

same_texts : (a b c : Bytes) → equal a c ≡ true → equal b c ≡ true → equal a b ≡ true
same_texts a b c h k = (equal_iff a b).1 (equal_text a c h ∙ sym (equal_text b c k))

count-increment :
    (key other : Bytes) (m : Counts)
    → count_of key (increment other m)
      ≡ (if equal other key then suc (count_of key m) else count_of key m)
unfolding increment count_of
count-increment key other [] = ground arith
count-increment key other ((k, n) ∷ m) = elim (Bool-cases (equal k other)) [
  | inl same ↦ rw same (ground (arith, ap (λ (x : Bytes). equal x key) (equal_text k other same)))
  | inr apart ↦
      rw apart (ground (arith, count-increment key other m, apart, same_texts k other key))
]

-- The status counts, the errors and the categories of the totals, over those they start from.
record Adds (rs : List RequestTelemetry) (key : Bytes) (start final : MetricsResponse)
    : Type 0 where
  requests : final.requests_total ≡ start.requests_total + length rs
  errors : final.errors_total ≡ start.errors_total + how_many has_failed rs
  statuses :
      count_of key final.status_counts
      ≡ count_of key start.status_counts + how_many (has_status key) rs
  categories :
      count_of key final.failure_categories
      ≡ count_of key start.failure_categories + how_many (has_category key) rs

count_record-Adds :
    (r : RequestTelemetry) (key : Bytes) (t : Totals)
    → Adds (r ∷ []) key t.response (count_record t r).response
unfolding count_record count_failure how_many
count_record-Adds r key t = record {
  requests = ground arith;
  errors = ground arith;
  statuses = ground (arith, count-increment key (print_nat r.status) t.response.status_counts);
  categories =
      ground (arith, count-increment key (kind_text r.error_kind) t.response.failure_categories);
}

count_records-Adds :
    (rs : List RequestTelemetry) (key : Bytes) (t : Totals)
    → Adds rs key t.response (count_records t rs).response
unfolding count_records how_many
count_records-Adds [] key t = record {
  requests = omega arith;
  errors = omega arith;
  statuses = omega arith;
  categories = omega arith;
}
count_records-Adds (r ∷ rs) key t =
    let now = count_record-Adds r key t in
    let later = count_records-Adds rs key (count_record t r) in
    record {
      requests = omega (arith, now.requests, later.requests);
      errors = ground (arith, now.errors, later.errors);
      statuses = ground (arith, now.statuses, later.statuses);
      categories = ground (arith, now.categories, later.categories);
    }

-- The metrics of any records: as many requests as records, as many errors as records that failed, and
-- under each text as many requests as records with this status, and as many failures as records of
-- this category.
pub metrics_from_telemetry-counts :
    (rs : List RequestTelemetry) (key : Bytes)
    → ((metrics_from_telemetry rs).requests_total ≡ length rs)
      × ((metrics_from_telemetry rs).errors_total ≡ how_many has_failed rs)
      × (count_of key (metrics_from_telemetry rs).status_counts ≡ how_many (has_status key) rs)
      × (count_of key (metrics_from_telemetry rs).failure_categories
          ≡ how_many (has_category key) rs)
unfolding metrics_from_telemetry
metrics_from_telemetry-counts rs key =
    let sums = count_records-Adds rs key no_totals in
    let nothing : count_of key [] ≡ 0 = unfold count_of in refl in
    (
      ground (arith, sums.requests),
      ground (arith, sums.errors),
      ground (arith, sums.statuses, nothing),
      ground (arith, sums.categories, nothing),
    )
