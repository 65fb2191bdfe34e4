-- ===== src/Pii/Detector.antt =====
-- pii-detector.ts: the candidates of all rules, of which the overlapping ones give way.
-- The matches of the rules' regular expressions are an argument, as `matchAll` lists them: the
-- place and the text of each. Texts are lists of UTF-16 code units.
pub mod Overlaps
pub mod Luhn
pub mod Reported
use Prim.Native.Nat.{compare, Ordering}
use proxy_ai.Base.{
  ℕ, zero, suc, ◌+◌, ◌-◌, ◌*◌, ◌%◌, Bool, true, false, ◌&&◌, ◌||◌, not, Option, none, some, List,
  [], ◌∷◌, ◌++◌, map, reverse, leb, ltb, ◌==◌, if◌then◌else◌, any, length,
}
use proxy_ai.Base.Sorting.{sort}
use proxy_ai.Pii.Spans.{
  PiiCategory, contact_info, financial, government_id, credential, internal_secret, PiiDetectorId,
  email, phone, payment_card_luhn, government_id_number, api_key, connection_string, category_eq,
  PiiSpan, PiiSafeMetadata, then_by, is_before, detector_rank,
}

pub record Match : Type 0 where
  pub index : ℕ
  pub value : List ℕ

pub record DetectorRule : Type 0 where
  pub detector : PiiDetectorId
  pub category : PiiCategory
  pub confidence : ℕ
  pub priority : ℕ

-- `DETECTOR_RULES`, with the confidence in hundredths.
abbrev pub detector_rules : List DetectorRule
detector_rules =
    record {
      detector = connection_string;
      category = internal_secret;
      confidence = 95;
      priority = 100;
    }
    ∷ record { detector = api_key; category = credential; confidence = 90; priority = 90 }
    ∷ record { detector = payment_card_luhn; category = financial; confidence = 85; priority = 80 }
    ∷ record {
      detector = government_id_number;
      category = government_id;
      confidence = 80;
      priority = 70;
    }
    ∷ record { detector = email; category = contact_info; confidence = 85; priority = 60 }
    ∷ record { detector = phone; category = contact_info; confidence = 65; priority = 50 }
    ∷ []

pub record CandidateSpan : Type 0 where
  pub span : PiiSpan
  pub open span use *
  pub priority : ℕ

abbrev pub is_digit : ℕ → Bool
is_digit c = leb b'0' c && leb c b'9'

-- The digits of a text, as code units.
pub digits_only : List ℕ → List ℕ
digits_only [] = []
digits_only (c ∷ cs) = let rest = digits_only cs in if is_digit c then c ∷ rest else rest

abbrev pub luhn_digit : Bool → ℕ → ℕ
luhn_digit true digit = if ltb 9 (digit * 2) then digit * 2 - 9 else digit * 2
luhn_digit false digit = digit

-- The loop of `luhnCheck`, over the digits from the last to the first.
pub luhn_sum : ℕ → Bool → List ℕ → ℕ
luhn_sum sum should_double [] = sum
luhn_sum sum should_double (d ∷ ds) =
    luhn_sum (sum + luhn_digit should_double d) (not should_double) ds

-- `Number(digits[index])` of each digit.
unfoldable pub luhn_check : List ℕ → Bool
unfolding luhn_sum
luhn_check digits =
    let sum = luhn_sum 0 false (reverse (map (λ c. c - b'0') digits)) in ltb 0 sum && sum % 10 == 0

pub is_valid_payment_card_candidate : List ℕ → Bool
unfolding digits_only luhn_check
is_valid_payment_card_candidate value =
    let digits = digits_only value in
    leb 13 (length digits) && leb (length digits) 19 && luhn_check digits

pub is_valid_phone_candidate : List ℕ → Bool
unfolding digits_only
is_valid_phone_candidate value =
    let digits = digits_only value in leb 10 (length digits) && leb (length digits) 15

-- `rule.validate`, where the rule has one.
abbrev pub is_accepted : PiiDetectorId → List ℕ → Bool
is_accepted payment_card_luhn value = is_valid_payment_card_candidate value
is_accepted phone value = is_valid_phone_candidate value
is_accepted _ value = true

abbrev pub normalized_length_of : PiiDetectorId → List ℕ → Option ℕ
normalized_length_of payment_card_luhn value = some (length (digits_only value))
normalized_length_of phone value = some (length (digits_only value))
normalized_length_of _ value = none

unfoldable pub candidate_of : DetectorRule → Match → CandidateSpan
candidate_of rule m = record {
  span = record {
    start = m.index;
    stop = m.index + length m.value;
    category = rule.category;
    detector = rule.detector;
    confidence = rule.confidence;
    metadata = record {
      kind = rule.detector;
      value_length = m.index + length m.value - m.index;
      normalized_length = normalized_length_of rule.detector m.value;
    };
  };
  priority = rule.priority;
}

pub collect_rule : DetectorRule → List Match → List CandidateSpan
unfolding candidate_of
collect_rule rule [] = []
collect_rule rule (m ∷ ms) =
    let rest = collect_rule rule ms in
    if length m.value == 0
    then rest
    else if not (is_accepted rule.detector m.value)
    then rest
    else candidate_of rule m ∷ rest

pub collect_rules : (PiiDetectorId → List Match) → List DetectorRule → List CandidateSpan
unfolding collect_rule
collect_rules matches [] = []
collect_rules matches (rule ∷ rules) =
    collect_rule rule (matches rule.detector) ++ collect_rules matches rules

pub collect_candidates : (PiiDetectorId → List Match) → List CandidateSpan
unfolding collect_rules
collect_candidates matches = collect_rules matches detector_rules

-- By falling priority, then by start, then the longer span first.
pub compare_by_precedence : CandidateSpan → CandidateSpan → Ordering
compare_by_precedence a b =
    then_by (compare b.priority a.priority)
      (then_by (compare a.start b.start) (compare (b.stop - b.start) (a.stop - a.start)))

pub compare_by_position : PiiSpan → PiiSpan → Ordering
compare_by_position a b = then_by (compare a.start b.start) (
    then_by (compare a.stop b.stop) (compare (detector_rank a.detector) (detector_rank b.detector)))

pub precedes : CandidateSpan → CandidateSpan → Bool
unfolding compare_by_precedence
precedes a b = is_before (compare_by_precedence a b)

pub stands_before : PiiSpan → PiiSpan → Bool
unfolding compare_by_position
stands_before a b = is_before (compare_by_position a b)

pub spans_overlap : PiiSpan → PiiSpan → Bool
spans_overlap a b = ltb a.start b.stop && ltb b.start a.stop

-- The loop of `removeOverlaps`: `selected` is what was pushed so far.
pub select_spans : List CandidateSpan → List CandidateSpan → List CandidateSpan
unfolding spans_overlap
select_spans selected [] = selected
select_spans selected (c ∷ cs) =
    select_spans
      (if any (λ s. spans_overlap c.span s.span) selected then selected else selected ++ c ∷ []) cs

pub remove_overlaps : List CandidateSpan → List CandidateSpan
unfolding select_spans precedes
remove_overlaps candidates = select_spans [] (sort precedes candidates)

-- `removePriority` keeps the span.
abbrev pub remove_priority : CandidateSpan → PiiSpan
remove_priority c = c.span

-- `[...new Set(...)]`: the first of each, in order.
pub unique_categories : List PiiCategory → List PiiCategory → List PiiCategory
unique_categories seen [] = []
unique_categories seen (c ∷ cs) =
    let known = any (category_eq c) seen in
    let rest = unique_categories (if known then seen else c ∷ seen) cs in
    if known then rest else c ∷ rest

pub record PiiDetectionResult : Type 0 where
  pub spans : List PiiSpan
  pub categories : List PiiCategory

pub detect_pii : (PiiDetectorId → List Match) → PiiDetectionResult
unfolding collect_candidates remove_overlaps stands_before unique_categories
detect_pii matches =
    let spans =
      sort stands_before (map remove_priority (remove_overlaps (collect_candidates matches))) in
    record { spans = spans; categories = unique_categories [] (map (λ s. s.category) spans) }
