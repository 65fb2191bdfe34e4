-- ===== src/Pii/Spans.antt =====
-- pii-detector.ts and pii-classifier.ts: categories, detectors and the spans that they find.
use Prim.Native.Nat.{Ordering}
use proxy_ai.Base.{ℕ, Bool, true, false, Option, List, [], ◌∷◌, ◌==◌}

pub data PiiCategory : Type 0 where
  contact_info financial government_id credential internal_secret business_confidential :
      PiiCategory

pub data PiiDetectorId : Type 0 where
  email phone payment_card_luhn government_id_number api_key connection_string : PiiDetectorId

-- `PII_CATEGORIES`, in its order.
abbrev pub pii_categories : List PiiCategory
pii_categories =
    contact_info ∷ financial ∷ government_id ∷ credential ∷ internal_secret ∷ business_confidential
    ∷ []

-- The places of the names in the alphabet, by which `localeCompare` orders them.
abbrev pub category_rank : PiiCategory → ℕ
category_rank business_confidential = 0
category_rank contact_info = 1
category_rank credential = 2
category_rank financial = 3
category_rank government_id = 4
category_rank internal_secret = 5

abbrev pub detector_rank : PiiDetectorId → ℕ
detector_rank api_key = 0
detector_rank connection_string = 1
detector_rank email = 2
detector_rank government_id_number = 3
detector_rank payment_card_luhn = 4
detector_rank phone = 5

abbrev pub category_eq : PiiCategory → PiiCategory → Bool
category_eq a b = category_rank a == category_rank b

pub record PiiSafeMetadata : Type 0 where
  pub kind : PiiDetectorId
  pub value_length : ℕ
  pub normalized_length : Option ℕ

-- A detected or classified span; the confidence is in hundredths.
pub record PiiSpan : Type 0 where
  pub start : ℕ
  pub stop : ℕ
  pub category : PiiCategory
  pub detector : PiiDetectorId
  pub confidence : ℕ
  pub metadata : PiiSafeMetadata

-- The value of a comparison chain `a || b`.
abbrev pub then_by : Ordering → Ordering → Ordering
then_by Ordering.eq o = o
then_by o _ = o

-- A comparator's negative result.
abbrev pub is_before : Ordering → Bool
is_before Ordering.lt = true
is_before _ = false
