-- ===== src/Pii/Detector/Reported.antt =====
-- pii-detector.ts: the spans that `detectPii` reports.

use proxy_ai.Base.{
  ℕ, ◌+◌, ◌≤◌, ◌<◌, ◌≡◌, refl, inl, inr, List, [], ◌∷◌, ◌++◌, map, any, All, not, ◌==◌, All-snoc,
  All-append, length, Bool-cases, arith,
}
use proxy_ai.Base.Sorting.{sort, Ordered, Ordered-sort, Ordered-sort_symmetric, All-sort}
use proxy_ai.Pii.Spans.{PiiDetectorId, PiiSpan}
use proxy_ai.Pii.Detector.{
  Match, DetectorRule, CandidateSpan, candidate_of, collect_rule, collect_rules, collect_candidates,
  is_accepted, precedes, stands_before, compare_by_position, spans_overlap, select_spans,
  remove_overlaps, remove_priority, detect_pii, unique_categories, detector_rules,
}
use proxy_ai.Pii.Detector.Overlaps.{Apart, CandidatesApart, remove_overlaps_settles}
use proxy_ai.Pii.Masker.Ranges.{Fits}

-- What holds of all candidates of the rules holds of the spans that are reported.
All-select_spans :
    (P : CandidateSpan → Type 0) (selected cs : List CandidateSpan)
    → All P selected
    → All P cs
    → All P (select_spans selected cs)
unfolding select_spans
All-select_spans P selected [] h k = h
All-select_spans P selected (c ∷ cs) h k =
    elim (Bool-cases (any (λ s. spans_overlap c.span s.span) selected)) [
      | inl e ↦ rw e (All-select_spans P selected cs h k.1)
      | inr e ↦ rw e (All-select_spans P (selected ++ c ∷ []) cs (All-snoc P selected c h k.0) k.1)
    ]

All-remove_overlaps :
    (P : CandidateSpan → Type 0) (cs : List CandidateSpan) → All P cs → All P (remove_overlaps cs)
unfolding remove_overlaps
All-remove_overlaps P cs h = All-select_spans P [] (sort precedes cs) tt (All-sort precedes P cs h)

All-spans {κ} :
    (P : PiiSpan → Type κ) (cs : List CandidateSpan)
    → All (λ c. P c.span) cs
    → All P (map remove_priority cs)
All-spans P [] h = tt
All-spans P (c ∷ cs) h = (h.0, All-spans P cs h.1)

Ordered-spans :
    (cs : List CandidateSpan) → Ordered CandidatesApart cs → Ordered Apart (map remove_priority cs)
Ordered-spans [] o = tt
Ordered-spans (c ∷ cs) o = (All-spans (Apart c.span) cs o.0, Ordered-spans cs o.1)

-- A property of spans that every rule's candidates have is one of all detected spans.
pub detect_pii-All :
    (P : PiiSpan → Type 0) (matches : PiiDetectorId → List Match)
    → All (λ c. P c.span) (collect_candidates matches)
    → All P (detect_pii matches).spans
unfolding detect_pii
detect_pii-All P matches h =
    All-sort stands_before P (map remove_priority (remove_overlaps (collect_candidates matches))) (
      All-spans P (remove_overlaps (collect_candidates matches))
        (All-remove_overlaps (λ c. P c.span) (collect_candidates matches) h))

module _ (P : CandidateSpan → Type 0) (Q : Match → Type 0) (G : DetectorRule → Type 0)
    (give : (rule : DetectorRule) (m : Match)
      → G rule
      → 0 < length m.value
      → Q m
      → P (candidate_of rule m)) where
  collect_rule-All :
      (rule : DetectorRule) → G rule → (ms : List Match) → All Q ms → All P (collect_rule rule ms)
  unfolding collect_rule
  collect_rule-All rule g [] q = tt
  collect_rule-All rule g (m ∷ ms) q = elim (Bool-cases (length m.value == 0)) [
    | inl e ↦ rw e (collect_rule-All rule g ms q.1)
    | inr e ↦ elim (Bool-cases (not (is_accepted rule.detector m.value))) [
      | inl f ↦ rw (e, f) (collect_rule-All rule g ms q.1)
      | inr f ↦ rw (e, f) (give rule m g (ground arith) q.0, collect_rule-All rule g ms q.1)
    ]
  ]

  collect_rules-All :
      (matches : PiiDetectorId → List Match) (rules : List DetectorRule)
      → All G rules
      → ((d : PiiDetectorId) → All Q (matches d))
      → All P (collect_rules matches rules)
  unfolding collect_rules
  collect_rules-All matches [] g q = tt
  collect_rules-All matches (rule ∷ rules) g q =
      All-append P (collect_rule rule (matches rule.detector)) (collect_rules matches rules)
        (collect_rule-All rule g.0 (matches rule.detector) (q rule.detector))
        (collect_rules-All matches rules g.1 q)

  -- What every accepted match gives its candidate holds of all candidates.
  pub collect_candidates-All :
      (matches : PiiDetectorId → List Match)
      → All G detector_rules
      → ((d : PiiDetectorId) → All Q (matches d))
      → All P (collect_candidates matches)
  unfolding collect_candidates
  collect_candidates-All matches g q = collect_rules-All matches detector_rules g q

pub always {ℓ} : {A : Type ℓ} (xs : List A) → All (λ x. Unit {0}) xs
always [] = tt
always (x ∷ xs) = (tt, always xs)

module _ (matches : PiiDetectorId → List Match) where
  -- What every match of a rule gives its candidate holds of all detected spans.
  pub detected :
      (P : PiiSpan → Type 0) (Q : Match → Type 0) (G : DetectorRule → Type 0)
      → ((rule : DetectorRule) (m : Match)
          → G rule
          → 0 < length m.value
          → Q m
          → P (candidate_of rule m).span)
      → All G detector_rules
      → ((d : PiiDetectorId) → All Q (matches d))
      → All P (detect_pii matches).spans
  detected P Q G give g q =
      detect_pii-All P matches (collect_candidates-All (λ c. P c.span) Q G give matches g q)

  pub detect_pii-nonempty : All (λ s. s.start < s.stop) (detect_pii matches).spans
  unfolding candidate_of
  detect_pii-nonempty =
      detected (λ s. s.start < s.stop) (λ m. Unit {0}) (λ r. Unit {0})
        (λ rule m g pos q. omega arith) (always detector_rules) (λ d. always (matches d))

  -- The spans that are detected lie in the text where the matches do.
  pub detect_pii-Fits :
      (len : ℕ)
      → ((d : PiiDetectorId) → All (λ m. m.index + length m.value ≤ len) (matches d))
      → All (Fits len) (detect_pii matches).spans
  unfolding candidate_of
  detect_pii-Fits len inside =
      detected (Fits len) (λ m. m.index + length m.value ≤ len) (λ r. Unit {0})
        (λ rule m g pos q. (omega arith, omega arith)) (always detector_rules) inside

pub categories-detect_pii :
    (matches : PiiDetectorId → List Match)
    → (detect_pii matches).categories
      ≡ unique_categories [] (map (λ s. s.category) (detect_pii matches).spans)
unfolding detect_pii
categories-detect_pii matches = refl

StartsLe : PiiSpan → PiiSpan → Type 0
StartsLe a b = a.start ≤ b.start

in_sequence :
    (spans : List PiiSpan)
    → Ordered Apart spans
    → Ordered StartsLe spans
    → All (λ s. s.start < s.stop) spans
    → Ordered (λ a b. a.stop ≤ b.start) spans
in_sequence [] a l n = tt
in_sequence (s ∷ spans) a l n = (one s spans a.0 l.0 n.0 n.1, in_sequence spans a.1 l.1 n.1)
  where
    one :
        (s : PiiSpan) (spans : List PiiSpan)
        → All (Apart s) spans
        → All (StartsLe s) spans
        → s.start < s.stop
        → All (λ s. s.start < s.stop) spans
        → All (λ b. s.stop ≤ b.start) spans
    one s [] a l p n = tt
    one s (t ∷ spans) a l p n = (unfold StartsLe in ground arith, one s spans a.1 l.1 p n.1)

position_sorted : (spans : List PiiSpan) → Ordered StartsLe (sort stands_before spans)
unfolding StartsLe stands_before compare_by_position
position_sorted spans =
    Ordered-sort stands_before StartsLe (λ x y z h k. omega arith) (λ x y h. ground arith)
      (λ x y h. ground arith) spans

-- Whatever the regular expressions match, the detected spans are not empty, and each ends before
-- the next begins.
pub detect_pii_in_sequence :
    (matches : PiiDetectorId → List Match)
    → All (λ s. s.start < s.stop) (detect_pii matches).spans
      × Ordered (λ a b. a.stop ≤ b.start) (detect_pii matches).spans
unfolding detect_pii
detect_pii_in_sequence matches =
    let kept = remove_overlaps (collect_candidates matches) in
    let spans = map remove_priority kept in
    let apart = Ordered-spans kept (remove_overlaps_settles (collect_candidates matches)).0 in
    (
      detect_pii-nonempty matches,
      in_sequence (sort stands_before spans)
          (Ordered-sort_symmetric stands_before Apart (λ x y h. ground arith) spans apart)
          (position_sorted spans) (detect_pii-nonempty matches),
    )
