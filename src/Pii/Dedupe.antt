-- ===== src/Pii/Dedupe.antt =====
-- `removeExactDuplicates` of pii-masker.ts and of pii-risk-scorer.ts, which are the same.
use mathlib.Core.List.{Memᴰ}
use proxy_ai.Base.{
  ◌≡◌, refl, sym, inl, inr, Bool, true, false, ◌&&◌, List, [], ◌∷◌, any, All, ◌==◌, if◌then◌else◌,
  arith, Bool-cases, subst,
}
use proxy_ai.Pii.Spans.{PiiSpan, category_rank, detector_rank}

-- The four parts of the key are joined by colons, which none of them holds.
abbrev pub same_key : PiiSpan → PiiSpan → Bool
same_key a b =
    a.start == b.start
    && a.stop == b.stop
    && category_rank a.category == category_rank b.category
    && detector_rank a.detector == detector_rank b.detector

-- `seen` is the set of the keys of the spans kept so far.
unfoldable pub remove_seen : List PiiSpan → List PiiSpan → List PiiSpan
remove_seen seen [] = []
remove_seen seen (s ∷ spans) =
    let dup = any (same_key s) seen in
    let rest = remove_seen (if dup then seen else s ∷ seen) spans in if dup then rest else s ∷ rest

unfoldable pub remove_exact_duplicates : List PiiSpan → List PiiSpan
unfolding remove_seen
remove_exact_duplicates spans = remove_seen [] spans

-- A property of spans that depends on the key alone.
abbrev pub ByKey {κ} : (PiiSpan → Type κ) → Type κ
ByKey P = (a b : PiiSpan) → same_key a b ≡ true → P b → P a

module _ {κ} (P : PiiSpan → Type κ) (by_key : ByKey P) where
  any-All : (s : PiiSpan) (seen : List PiiSpan) → any (same_key s) seen ≡ true → All P seen → P s
  any-All s [] h all = absurd (ground arith)
  any-All s (x ∷ seen) h all = elim (Bool-cases (same_key s x)) [
    | inl e ↦ by_key s x e all.0
    | inr e ↦ any-All s seen (rw e at h) all.1
  ]

  remove_seen-All :
      (seen spans : List PiiSpan) → All P seen → All P (remove_seen seen spans) → All P spans
  unfolding remove_seen
  remove_seen-All seen [] old h = tt
  remove_seen-All seen (s ∷ spans) old h = elim (Bool-cases (any (same_key s) seen)) [
    | inl dup ↦
        let h' : All P (remove_seen seen spans) = rw dup at h in
        (any-All s seen dup old, remove_seen-All seen spans old h')
    | inr new ↦
        let h' : P s × All P (remove_seen (s ∷ seen) spans) = rw new at h in
        (h'.0, remove_seen-All (s ∷ seen) spans (h'.0, old) h'.1)
  ]

  -- What holds of the spans that are kept holds of those that are dropped, too.
  pub remove_exact_duplicates-All :
      (spans : List PiiSpan) → All P (remove_exact_duplicates spans) → All P spans
  unfolding remove_exact_duplicates
  remove_exact_duplicates-All spans h = remove_seen-All [] spans tt h

module _ {κ} (P : PiiSpan → Type κ) where
  All-remove_seen : (seen spans : List PiiSpan) → All P spans → All P (remove_seen seen spans)
  unfolding remove_seen
  All-remove_seen seen [] h = tt
  All-remove_seen seen (s ∷ spans) h = elim (Bool-cases (any (same_key s) seen)) [
    | inl dup ↦ rw dup (All-remove_seen seen spans h.1)
    | inr new ↦ rw new (h.0, All-remove_seen (s ∷ seen) spans h.1)
  ]

  pub All-remove_exact_duplicates :
      (spans : List PiiSpan) → All P spans → All P (remove_exact_duplicates spans)
  unfolding remove_exact_duplicates
  All-remove_exact_duplicates spans h = All-remove_seen [] spans h

-- No two of the spans have the same key.
abbrev pub Distinct : List PiiSpan → Type 0
Distinct [] = Unit {0}
Distinct (s ∷ spans) = All (λ t. same_key t s ≡ false) spans × Distinct spans

any-false :
    (s k : PiiSpan) (seen : List PiiSpan)
    → any (same_key s) seen ≡ false
    → Memᴰ k seen
    → same_key s k ≡ false
any-false s k [] h m = elim m [ ]
any-false s k (x ∷ seen) h (Memᴰ.head e) = subst (λ x. same_key s x ≡ false) (sym e) (ground arith)
any-false s k (x ∷ seen) h (Memᴰ.tail m) = any-false s k seen (ground arith) m

remove_seen-fresh :
    (k : PiiSpan) (seen spans : List PiiSpan)
    → Memᴰ k seen
    → All (λ t. same_key t k ≡ false) (remove_seen seen spans)
unfolding remove_seen
remove_seen-fresh k seen [] m = tt
remove_seen-fresh k seen (s ∷ spans) m = elim (Bool-cases (any (same_key s) seen)) [
  | inl dup ↦ rw dup (remove_seen-fresh k seen spans m)
  | inr new ↦ rw new (any-false s k seen new m, remove_seen-fresh k (s ∷ seen) spans (Memᴰ.tail m))
]

remove_seen-Distinct : (seen spans : List PiiSpan) → Distinct (remove_seen seen spans)
unfolding remove_seen
remove_seen-Distinct seen [] = tt
remove_seen-Distinct seen (s ∷ spans) = elim (Bool-cases (any (same_key s) seen)) [
  | inl dup ↦ rw dup (remove_seen-Distinct seen spans)
  | inr new ↦
      rw new (
        remove_seen-fresh s (s ∷ seen) spans (Memᴰ.head refl),
        remove_seen-Distinct (s ∷ seen) spans,
      )
]

pub remove_exact_duplicates-Distinct :
    (spans : List PiiSpan) → Distinct (remove_exact_duplicates spans)
unfolding remove_exact_duplicates
remove_exact_duplicates-Distinct spans = remove_seen-Distinct [] spans
