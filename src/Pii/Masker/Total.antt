-- ===== src/Pii/Masker/Total.antt =====
-- pii-masker.ts: when `normalizeMaskRanges` returns ranges, and when it throws.
use proxy_ai.Base.{
  ℕ, ◌≡◌, refl, inl, inr, List, [], ◌∷◌, map, ok, Result-cases, Bool-cases, leb, All, arith,
}
use proxy_ai.Base.Sorting.{sort, All-sort, sort-All}
use proxy_ai.Pii.Spans.{PiiSpan}
use proxy_ai.Pii.Dedupe.{
  ByKey, remove_exact_duplicates, remove_exact_duplicates-All, All-remove_exact_duplicates,
}
use proxy_ai.Pii.Masker.{
  MaskRange, MaskRangeDraft, span_before, assert_valid_span, finalize_range, new_draft, grow_draft,
  merge_spans, merge_all, normalize_mask_ranges,
}
use proxy_ai.Pii.Masker.Ranges.{Fits, valid-Fits}

merge_spans-total :
    (len : ℕ) (d : MaskRangeDraft) (spans : List PiiSpan)
    → All (Fits len) spans
    → (ds : List MaskRangeDraft) × (merge_spans len d spans ≡ ok ds)
unfolding merge_spans assert_valid_span
merge_spans-total len d [] h = (d ∷ [], refl)
merge_spans-total len d (s ∷ spans) h =
    let (apart, e) = merge_spans-total len (new_draft s) spans h.1 in
    let (near, f) = merge_spans-total len (grow_draft d s) spans h.1 in
    elim (Bool-cases (leb d.source_end s.start)) [
      | inl y ↦ (d ∷ apart, ground arith)
      | inr n ↦ (near, ground arith)
    ]

merge_all-total :
    (len : ℕ) (spans : List PiiSpan)
    → All (Fits len) spans
    → (ds : List MaskRangeDraft) × (merge_all len spans ≡ ok ds)
unfolding merge_all assert_valid_span
merge_all-total len [] h = ([], refl)
merge_all-total len (s ∷ spans) h =
    let (ds, e) = merge_spans-total len (new_draft s) spans h.1 in (ds, ground arith)

-- Ranges are returned whenever every span is not empty and lies within the text.
pub normalize_total :
    (len : ℕ) (spans : List PiiSpan)
    → All (Fits len) spans
    → (rs : List MaskRange) × (normalize_mask_ranges len spans ≡ ok rs)
unfolding normalize_mask_ranges
normalize_total len spans h =
    let sorted = sort span_before (remove_exact_duplicates spans) in
    let fits =
      All-sort span_before (Fits len) (remove_exact_duplicates spans)
        (All-remove_exact_duplicates (Fits len) spans h) in
    let (ds, e) = merge_all-total len sorted fits in (map finalize_range ds, ground arith)

merge_spans-Fits :
    (len : ℕ) (d : MaskRangeDraft) (spans : List PiiSpan) (ds : List MaskRangeDraft)
    → merge_spans len d spans ≡ ok ds
    → All (Fits len) spans
unfolding merge_spans
merge_spans-Fits len d [] ds h = tt
merge_spans-Fits len d (s ∷ spans) ds h = elim (Bool-cases (assert_valid_span s len)) [
  | inr bad ↦ absurd (ground arith)
  | inl good ↦ elim (Bool-cases (leb d.source_end s.start)) [
    | inr near ↦
        (valid-Fits len s good, merge_spans-Fits len (grow_draft d s) spans ds (ground arith))
    | inl apart ↦ elim (Result-cases (merge_spans len (new_draft s) spans)) [
      | inl (ds', e) ↦ (valid-Fits len s good, merge_spans-Fits len (new_draft s) spans ds' e)
      | inr (e, bad) ↦ absurd (ground arith)
    ]
  ]
]

merge_all-Fits :
    (len : ℕ) (spans : List PiiSpan) (ds : List MaskRangeDraft)
    → merge_all len spans ≡ ok ds
    → All (Fits len) spans
unfolding merge_all
merge_all-Fits len [] ds h = tt
merge_all-Fits len (s ∷ spans) ds h = elim (Bool-cases (assert_valid_span s len)) [
  | inr bad ↦ absurd (ground arith)
  | inl good ↦ (valid-Fits len s good, merge_spans-Fits len (new_draft s) spans ds (ground arith))
]

Fits-by_key : (len : ℕ) → ByKey (Fits len)
Fits-by_key len a b same h = ground arith

-- And only then: one empty span, or one that leaves the text, makes the whole call throw.
pub normalize-Fits :
    (len : ℕ) (spans : List PiiSpan) (rs : List MaskRange)
    → normalize_mask_ranges len spans ≡ ok rs
    → All (Fits len) spans
unfolding normalize_mask_ranges
normalize-Fits len spans rs h =
    let sorted = sort span_before (remove_exact_duplicates spans) in
    elim (Result-cases (merge_all len sorted)) [
      | inr (e, bad) ↦ absurd (ground arith)
      | inl (ds, good) ↦ remove_exact_duplicates-All (Fits len) (Fits-by_key len) spans (
          sort-All span_before (Fits len) (remove_exact_duplicates spans)
            (merge_all-Fits len sorted ds good))
    ]
