-- ===== src/Pii/Detector/Overlaps.antt =====
-- pii-detector.ts: which of the candidates are kept.
use mathlib.Core.List.{Memᴰ}
use proxy_ai.Base.{
  ◌≤◌, ◌≡◌, refl, sym, ◌⊎◌, inl, inr, true, false, List, [], ◌∷◌, ◌++◌, any, All, All-snoc,
  All-Memᴰ, Memᴰ-append_left, Memᴰ-snoc, Bool-cases, arith, subst,
}
use proxy_ai.Base.Sorting.{sort, Ordered, Ordered-sort, sort-All}
use proxy_ai.Pii.Spans.{PiiSpan}
use proxy_ai.Pii.Detector.{
  CandidateSpan, precedes, compare_by_precedence, spans_overlap, select_spans, remove_overlaps,
}

-- No place of the text belongs to both spans.
abbrev pub Apart : PiiSpan → PiiSpan → Type 0
Apart a b = (a.stop ≤ b.start) ⊎ (b.stop ≤ a.start)

abbrev pub CandidatesApart : CandidateSpan → CandidateSpan → Type 0
CandidatesApart a b = Apart a.span b.span

Ordered-snoc {ℓ κ} :
    {A : Type ℓ} (R : A → A → Type κ) (xs : List A) (y : A)
    → Ordered R xs
    → All (λ x. R x y) xs
    → Ordered R (xs ++ y ∷ [])
Ordered-snoc R [] y o a = (tt, tt)
Ordered-snoc R (x ∷ xs) y o a = (All-snoc (R x) xs y o.0 a.0, Ordered-snoc R xs y o.1 a.1)

none_overlaps :
    (c : CandidateSpan) (xs : List CandidateSpan)
    → any (λ s. spans_overlap c.span s.span) xs ≡ false
    → All (λ x. CandidatesApart x c) xs
unfolding spans_overlap
none_overlaps c [] h = tt
none_overlaps c (x ∷ xs) h = (ground arith, none_overlaps c xs (ground arith))

select_spans-Apart :
    (selected cs : List CandidateSpan)
    → Ordered CandidatesApart selected
    → Ordered CandidatesApart (select_spans selected cs)
unfolding select_spans
select_spans-Apart selected [] o = o
select_spans-Apart selected (c ∷ cs) o =
    elim (Bool-cases (any (λ s. spans_overlap c.span s.span) selected)) [
      | inl e ↦ rw e (select_spans-Apart selected cs o)
      | inr e ↦ rw e (
          select_spans-Apart (selected ++ c ∷ []) cs
            (Ordered-snoc CandidatesApart selected c o (none_overlaps c selected e)))
    ]

Lower : CandidateSpan → CandidateSpan → Type 0
Lower a b = b.priority ≤ a.priority

sorted_by_priority : (cs : List CandidateSpan) → Ordered Lower (sort precedes cs)
unfolding Lower precedes compare_by_precedence
sorted_by_priority cs =
    Ordered-sort precedes Lower (λ x y z h k. omega arith) (λ x y h. ground arith)
      (λ x y h. ground arith) cs

-- The candidate is among the selected spans, or one of them overlaps it; that one has no lower
-- priority.
abbrev pub Settled : List CandidateSpan → CandidateSpan → Type 0
Settled selected c =
    (s : CandidateSpan) × Memᴰ s selected
    × (c.priority ≤ s.priority)
    × ((s ≡ c) ⊎ (spans_overlap c.span s.span ≡ true))

Memᴰ-select_spans :
    (s : CandidateSpan) (selected cs : List CandidateSpan)
    → Memᴰ s selected
    → Memᴰ s (select_spans selected cs)
unfolding select_spans
Memᴰ-select_spans s selected [] m = m
Memᴰ-select_spans s selected (c ∷ cs) m =
    elim (Bool-cases (any (λ s. spans_overlap c.span s.span) selected)) [
      | inl e ↦ rw e (Memᴰ-select_spans s selected cs m)
      | inr e ↦
          rw e
            (Memᴰ-select_spans s (selected ++ c ∷ []) cs (Memᴰ-append_left s selected (c ∷ []) m))
    ]

some_overlaps :
    (c : CandidateSpan) (xs : List CandidateSpan)
    → any (λ s. spans_overlap c.span s.span) xs ≡ true
    → (s : CandidateSpan) × Memᴰ s xs × (spans_overlap c.span s.span ≡ true)
some_overlaps c [] h = absurd (ground arith)
some_overlaps c (x ∷ xs) h = elim (Bool-cases (spans_overlap c.span x.span)) [
  | inl e ↦ (x, Memᴰ.head refl, e)
  | inr e ↦ let (s, m, o) = some_overlaps c xs (rw e at h) in (s, Memᴰ.tail m, o)
]

BelowAll : List CandidateSpan → CandidateSpan → Type 0
BelowAll selected c = All (λ s. Lower s c) selected

BelowAll-snoc :
    (selected : List CandidateSpan) (d : CandidateSpan) (cs : List CandidateSpan)
    → All (BelowAll selected) cs
    → All (Lower d) cs
    → All (BelowAll (selected ++ d ∷ [])) cs
unfolding BelowAll
BelowAll-snoc selected d [] h k = tt
BelowAll-snoc selected d (c ∷ cs) h k =
    (All-snoc (λ s. Lower s c) selected d h.0 k.0, BelowAll-snoc selected d cs h.1 k.1)

select_spans-hit :
    (c : CandidateSpan) (selected cs : List CandidateSpan)
    → any (λ s. spans_overlap c.span s.span) selected ≡ true
    → select_spans selected (c ∷ cs) ≡ select_spans selected cs
unfolding select_spans
select_spans-hit c selected cs e = rw e refl

select_spans-miss :
    (c : CandidateSpan) (selected cs : List CandidateSpan)
    → any (λ s. spans_overlap c.span s.span) selected ≡ false
    → select_spans selected (c ∷ cs) ≡ select_spans (selected ++ c ∷ []) cs
unfolding select_spans
select_spans-miss c selected cs e = rw e refl

select_spans-Settled :
    (selected cs : List CandidateSpan)
    → All (BelowAll selected) cs
    → Ordered Lower cs
    → All (Settled (select_spans selected cs)) cs
unfolding BelowAll Lower
select_spans-Settled selected [] below o = tt
select_spans-Settled selected (c ∷ cs) below o =
    elim (Bool-cases (any (λ s. spans_overlap c.span s.span) selected)) [
      | inl e ↦
          let (s, m, hit) = some_overlaps c selected e in
          subst (λ r. All (Settled r) (c ∷ cs)) (sym (select_spans-hit c selected cs e))
            (
              (
                s,
                Memᴰ-select_spans s selected cs m,
                All-Memᴰ (λ s. c.priority ≤ s.priority) s selected below.0 m,
                inr hit,
              ),
              select_spans-Settled selected cs below.1 o.1,
            )
      | inr e ↦
          let more = selected ++ c ∷ [] in
          subst (λ r. All (Settled r) (c ∷ cs)) (sym (select_spans-miss c selected cs e))
            (
              (c, Memᴰ-select_spans c more cs (Memᴰ-snoc selected c), omega arith, inl refl),
              select_spans-Settled more cs (BelowAll-snoc selected c cs below.1 o.0) o.1,
            )
    ]

below_none : (cs : List CandidateSpan) → All (BelowAll []) cs
unfolding BelowAll
below_none [] = tt
below_none (c ∷ cs) = (tt, below_none cs)

-- Of the candidates, those that are kept do not overlap, and no detection is lost for a weaker one:
-- a candidate that is dropped overlaps one that is kept and has at least its priority.
pub remove_overlaps_settles :
    (cs : List CandidateSpan)
    → Ordered (λ a b. Apart a.span b.span) (remove_overlaps cs)
      × All (Settled (remove_overlaps cs)) cs
unfolding remove_overlaps
remove_overlaps_settles cs = (
  select_spans-Apart [] (sort precedes cs) tt,
  sort-All precedes (Settled (select_spans [] (sort precedes cs))) cs (
      select_spans-Settled [] (sort precedes cs) (below_none (sort precedes cs))
        (sorted_by_priority cs)),
)
