-- ===== src/Pii/Masker/Ranges.antt =====
-- pii-masker.ts: what `normalizeMaskRanges` returns.
use proxy_ai.Base.{
  ℕ, ◌≤◌, ◌<◌, ◌≡◌, refl, ◌⊎◌, inl, inr, max, true, List, [], ◌∷◌, map, Result, ok, err,
  Result-cases, Bool-cases, leb, All, arith, subst,
}
use proxy_ai.Base.Sorting.{sort, Ordered, Ordered-sort, sort-All}
use proxy_ai.Pii.Spans.{PiiSpan}
use proxy_ai.Pii.Dedupe.{ByKey, remove_exact_duplicates, remove_exact_duplicates-All}
use proxy_ai.Pii.Masker.{
  MaskRange, MaskRangeDraft, MaskError, span_before, compare_spans, assert_valid_span,
  finalize_range, new_draft, grow_draft, push_draft, merge_spans, merge_all, normalize_mask_ranges,
}

-- Ranges one behind the other from place `p` on, none of them empty, within a text of this length.
abbrev pub Ranged : ℕ → ℕ → List MaskRange → Type 0
Ranged len p [] = Unit {0}
Ranged len p (r ∷ rs) =
    (p ≤ r.source_start)
    × (r.source_start < r.source_end)
    × (r.source_end ≤ len)
    × Ranged len r.source_end rs

-- One of the ranges holds all places from `a` up to `b`.
abbrev pub Covers : List MaskRange → ℕ → ℕ → Type 0
Covers [] a b = ⊥
Covers (r ∷ rs) a b = ((r.source_start ≤ a) × (b ≤ r.source_end)) ⊎ Covers rs a b

-- The span is not empty and lies within the text.
abbrev pub Fits : ℕ → PiiSpan → Type 0
Fits len s = (s.start < s.stop) × (s.stop ≤ len)

StartsLe : PiiSpan → PiiSpan → Type 0
StartsLe a b = a.start ≤ b.start

sorted_by_start : (spans : List PiiSpan) → Ordered StartsLe (sort span_before spans)
unfolding StartsLe span_before compare_spans
sorted_by_start spans =
    Ordered-sort span_before StartsLe (λ x y z h k. omega arith) (λ x y h. ground arith)
      (λ x y h. ground arith) spans

Covers-shrink :
    (rs : List MaskRange) (a b a' b' : ℕ) → Covers rs a b → a ≤ a' → b' ≤ b → Covers rs a' b'
Covers-shrink [] a b a' b' h le ge = h
Covers-shrink (r ∷ rs) a b a' b' (inl h) le ge = inl (omega arith, omega arith)
Covers-shrink (r ∷ rs) a b a' b' (inr h) le ge = inr (Covers-shrink rs a b a' b' h le ge)

CoversAll : List MaskRange → List PiiSpan → Type 0
CoversAll rs spans = All (λ s. Covers rs s.start s.stop) spans

CoversAll-cons :
    (r : MaskRange) (rs : List MaskRange) (spans : List PiiSpan)
    → CoversAll rs spans
    → CoversAll (r ∷ rs) spans
unfolding CoversAll
CoversAll-cons r rs [] h = tt
CoversAll-cons r rs (s ∷ spans) h = (inr h.0, CoversAll-cons r rs spans h.1)

-- The drafts, if there are any: their ranges begin at `p` or later, and one holds `a` up to `b`.
Merged : ℕ → ℕ → ℕ → ℕ → List PiiSpan → Result MaskError (List MaskRangeDraft) → Type 0
Merged len p a b spans (err e) = Unit {0}
Merged len p a b spans (ok ds) =
    let rs = map finalize_range ds in Ranged len p rs × Covers rs a b × CoversAll rs spans

module _ (len p : ℕ) (d : MaskRangeDraft) (low : p ≤ d.source_start)
    (full : d.source_start < d.source_end) (top : d.source_end ≤ len) where
  Merged-nil : Merged len p d.source_start d.source_end [] (ok (d ∷ []))
  unfolding Merged finalize_range CoversAll
  Merged-nil = ((low, full, top, tt), inl (omega arith, omega arith), tt)

  Merged-push :
      (s : PiiSpan) (spans : List PiiSpan) (r : Result MaskError (List MaskRangeDraft))
      → Merged len d.source_end s.start s.stop spans r
      → Merged len p d.source_start d.source_end (s ∷ spans) (push_draft d r)
  unfolding Merged finalize_range
  Merged-push s spans (err e) h = tt
  Merged-push s spans (ok ds) h = (
    (low, full, top, h.0),
    inl (omega arith, omega arith),
    unfold CoversAll in
        (inr h.1, CoversAll-cons (finalize_range d) (map finalize_range ds) spans h.2),
  )

Merged-grow :
    (len p a b : ℕ) (s : PiiSpan) (spans : List PiiSpan)
    (r : Result MaskError (List MaskRangeDraft))
    → a ≤ s.start
    → Merged len p a (max b s.stop) spans r
    → Merged len p a b (s ∷ spans) r
unfolding Merged CoversAll
Merged-grow len p a b s spans (err e) le h = tt
Merged-grow len p a b s spans (ok ds) le h =
    let rs = map finalize_range ds in
    (
      h.0,
      Covers-shrink rs a (max b s.stop) a b h.1 (omega arith) (omega arith),
      (Covers-shrink rs a (max b s.stop) s.start s.stop h.1 le (omega arith), h.2),
    )

pub valid-Fits : (len : ℕ) (s : PiiSpan) → assert_valid_span s len ≡ true → Fits len s
unfolding assert_valid_span
valid-Fits len s h = ground arith

merge_spans-Merged :
    (len p : ℕ) (d : MaskRangeDraft) (spans : List PiiSpan)
    → p ≤ d.source_start
    → d.source_start < d.source_end
    → d.source_end ≤ len
    → All (StartsLe d.first_span) spans
    → d.first_span.start ≡ d.source_start
    → Ordered StartsLe spans
    → Merged len p d.source_start d.source_end spans (merge_spans len d spans)
unfolding merge_spans
merge_spans-Merged len p d [] low full top later first sorted = Merged-nil len p d low full top
merge_spans-Merged len p d (s ∷ spans) low full top later first sorted =
    elim (Bool-cases (assert_valid_span s len)) [
      | inr bad ↦ rw (bad, merge_spans) (unfold Merged in tt)
      | inl good ↦
          let fits = valid-Fits len s good in
          elim (Bool-cases (leb d.source_end s.start)) [
            | inl apart ↦
                rw (good, merge_spans)
                  (rw apart (
                    Merged-push len p d low full top s spans (merge_spans len (new_draft s) spans) (
                      merge_spans-Merged len d.source_end (new_draft s) spans (ground arith) fits.0
                        fits.1 sorted.0 refl sorted.1)))
            | inr near ↦
                let after : d.source_start ≤ s.start = unfold StartsLe in omega arith in
                rw (good, merge_spans)
                  (rw near (
                    Merged-grow len p d.source_start d.source_end s spans
                      (merge_spans len (grow_draft d s) spans) after
                      (merge_spans-Merged len p (grow_draft d s) spans low (omega arith)
                        (omega arith) later.1 first sorted.1)))
          ]
    ]

merge_all-ok :
    (len : ℕ) (spans : List PiiSpan) (ds : List MaskRangeDraft)
    → Ordered StartsLe spans
    → merge_all len spans ≡ ok ds
    → Ranged len 0 (map finalize_range ds) × CoversAll (map finalize_range ds) spans
unfolding merge_all CoversAll
merge_all-ok len [] [] sorted h = (tt, tt)
merge_all-ok len [] (d ∷ ds) sorted h = absurd (ground arith)
merge_all-ok len (s ∷ spans) ds sorted h = elim (Bool-cases (assert_valid_span s len)) [
  | inr bad ↦ absurd (ground arith)
  | inl good ↦
      let fits = valid-Fits len s good in
      let merged =
        merge_spans-Merged len 0 (new_draft s) spans (omega arith) fits.0 fits.1 sorted.0 refl
          sorted.1 in
      let e : merge_spans len (new_draft s) spans ≡ ok ds = ground arith in
      let h' : Ranged len 0 (map finalize_range ds)
          × Covers (map finalize_range ds) s.start s.stop
          × CoversAll (map finalize_range ds) spans =
        unfold Merged in subst (Merged len 0 s.start s.stop spans) e merged in
      (h'.0, (h'.1, h'.2))
]

Covers-by_key : (rs : List MaskRange) → ByKey (λ s. Covers rs s.start s.stop)
Covers-by_key rs a b same h =
    Covers-shrink rs b.start b.stop a.start a.stop h (ground arith) (ground arith)

-- The ranges lie in the text one behind the other without overlap, none is empty, and each span
-- that was given lies within one of them.
pub normalize-Covers :
    (len : ℕ) (spans : List PiiSpan) (rs : List MaskRange)
    → normalize_mask_ranges len spans ≡ ok rs
    → Ranged len 0 rs × All (λ s. Covers rs s.start s.stop) spans
unfolding normalize_mask_ranges
normalize-Covers len spans rs h =
    let sorted = sort span_before (remove_exact_duplicates spans) in
    elim (Result-cases (merge_all len sorted)) [
      | inr (e, bad) ↦ absurd (ground arith)
      | inl (ds, good) ↦
          let e : map finalize_range ds ≡ rs = ground arith in
          let (ranged, covers) =
            merge_all-ok len sorted ds (sorted_by_start (remove_exact_duplicates spans)) good in
          let P = λ (s : PiiSpan). Covers rs s.start s.stop in
          (
            subst (Ranged len 0) e ranged,
            remove_exact_duplicates-All P (Covers-by_key rs) spans (
                sort-All span_before P (remove_exact_duplicates spans)
                  (unfold CoversAll in subst (λ rs. CoversAll rs sorted) e covers)),
          )
    ]
