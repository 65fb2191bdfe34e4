-- ===== src/Pii/Masker.antt =====
-- pii-masker.ts: spans are merged into ranges, and each range of the text is replaced by its
-- placeholder. A text is the list of its UTF-16 code units.
pub mod Ranges
pub mod Total
pub mod Text
use Prim.Native.Nat.{compare, Ordering}
use Prim.Native.Char.{code}
use Prim.Native.String.{String}
use proxy_ai.Base.{
  ℕ, zero, suc, ◌+◌, ◌-◌, max, Bool, true, false, ◌&&◌, ◌||◌, not, Option, none, some, List, [],
  ◌∷◌, ◌++◌, map, Result, ok, err, leb, ltb, ◌==◌, if◌then◌else◌, any, length, take, drop,
}
use proxy_ai.Base.Sorting.{sort}
use proxy_ai.Pii.Spans.{
  PiiCategory, PiiDetectorId, email, phone, api_key, payment_card_luhn, government_id_number,
  connection_string, pii_categories, category_eq, category_rank, detector_rank, PiiSpan, then_by,
  is_before,
}
use proxy_ai.Pii.Dedupe.{remove_exact_duplicates}

abbrev pub codes : String → List ℕ
codes String.[] = []
codes (String.◌∷◌ c s) = code c ∷ codes s

abbrev pub generic_placeholder : List ℕ
generic_placeholder = codes "[PII_REDACTED]"

-- The table of approved placeholders, with the generic one where it has no entry.
pub placeholder_for : PiiDetectorId → List ℕ
placeholder_for email = codes "[EMAIL_REDACTED]"
placeholder_for phone = codes "[PHONE_REDACTED]"
placeholder_for api_key = codes "[CREDENTIAL_REDACTED]"
placeholder_for _ = generic_placeholder

pub record MaskRange : Type 0 where
  pub source_start : ℕ
  pub source_end : ℕ
  pub placeholder : List ℕ
  pub categories : List PiiCategory

-- A draft is made with one span and never loses it, so the source's throw for an empty one has no
-- place here.
pub record MaskRangeDraft : Type 0 where
  pub source_start : ℕ
  pub source_end : ℕ
  pub first_span : PiiSpan
  pub more_spans : List PiiSpan

pub record PiiMaskMetadata : Type 0 where
  pub source_start : ℕ
  pub source_end : ℕ
  pub masked_start : ℕ
  pub masked_end : ℕ
  pub placeholder : List ℕ
  pub categories : List PiiCategory

pub record PiiMaskResult : Type 0 where
  pub masked_text : List ℕ
  pub masks : List PiiMaskMetadata

pub data MaskError : Type 0 where
  invalid_pii_mask_span : MaskError

-- By start, the longer span first, then by the names.
pub compare_spans : PiiSpan → PiiSpan → Ordering
compare_spans a b = then_by (compare a.start b.start) (
    then_by (compare b.stop a.stop) (
      then_by (compare (category_rank a.category) (category_rank b.category))
        (compare (detector_rank a.detector) (detector_rank b.detector))))

pub span_before : PiiSpan → PiiSpan → Bool
unfolding compare_spans
span_before a b = is_before (compare_spans a b)

pub assert_valid_span : PiiSpan → ℕ → Bool
assert_valid_span s text_length = not (leb s.stop s.start || ltb text_length s.stop)

abbrev filter_categories : List PiiSpan → List PiiCategory → List PiiCategory
filter_categories spans [] = []
filter_categories spans (c ∷ cs) =
    let rest = filter_categories spans cs in
    if any (λ s. category_eq s.category c) spans then c ∷ rest else rest

pub finalize_range : MaskRangeDraft → MaskRange
unfolding placeholder_for
finalize_range d = record {
  source_start = d.source_start;
  source_end = d.source_end;
  placeholder =
      if length d.more_spans == 0
      then placeholder_for d.first_span.detector
      else generic_placeholder;
  categories = filter_categories (d.first_span ∷ d.more_spans) pii_categories;
}

abbrev pub new_draft : PiiSpan → MaskRangeDraft
new_draft s = record {
  source_start = s.start;
  source_end = s.stop;
  first_span = s;
  more_spans = [];
}

abbrev pub grow_draft : MaskRangeDraft → PiiSpan → MaskRangeDraft
grow_draft d s = record d {
  source_end = max d.source_end s.stop;
  more_spans = d.more_spans ++ s ∷ [];
}

abbrev push_draft :
    MaskRangeDraft → Result MaskError (List MaskRangeDraft) → Result MaskError (List MaskRangeDraft)
push_draft d (ok ds) = ok (d ∷ ds)
push_draft d (err e) = err e

-- The loop behind its first round: `current` is the last draft, the only one that can still change.
pub merge_spans : ℕ → MaskRangeDraft → List PiiSpan → Result MaskError (List MaskRangeDraft)
unfolding assert_valid_span
merge_spans text_length current [] = ok (current ∷ [])
merge_spans text_length current (s ∷ spans) =
    let separate = push_draft current (merge_spans text_length (new_draft s) spans) in
    let joined = merge_spans text_length (grow_draft current s) spans in
    if not (assert_valid_span s text_length)
    then err invalid_pii_mask_span
    else if leb current.source_end s.start
    then separate
    else joined

pub merge_all : ℕ → List PiiSpan → Result MaskError (List MaskRangeDraft)
unfolding merge_spans
merge_all text_length [] = ok []
merge_all text_length (s ∷ spans) =
    if assert_valid_span s text_length
    then merge_spans text_length (new_draft s) spans
    else err invalid_pii_mask_span

abbrev map_result : Result MaskError (List MaskRangeDraft) → Result MaskError (List MaskRange)
map_result (ok ds) = ok (map finalize_range ds)
map_result (err e) = err e

pub normalize_mask_ranges : ℕ → List PiiSpan → Result MaskError (List MaskRange)
unfolding merge_all
normalize_mask_ranges text_length spans =
    map_result (merge_all text_length (sort span_before (remove_exact_duplicates spans)))

abbrev pub replace_range : MaskRange → List ℕ → List ℕ
replace_range r text = take r.source_start text ++ (r.placeholder ++ drop r.source_end text)

-- The loop over the reversed ranges: the last range is replaced first.
pub mask_text : List ℕ → List MaskRange → List ℕ
mask_text text [] = text
mask_text text (r ∷ ranges) = replace_range r (mask_text text ranges)

-- `offsetDelta` is `added - removed`.
pub mask_metadata : ℕ → ℕ → List MaskRange → List PiiMaskMetadata
mask_metadata added removed [] = []
mask_metadata added removed (r ∷ ranges) =
    let masked_start = r.source_start + added - removed in
    record {
      source_start = r.source_start;
      source_end = r.source_end;
      masked_start = masked_start;
      masked_end = masked_start + length r.placeholder;
      placeholder = r.placeholder;
      categories = r.categories;
    }
    ∷ mask_metadata (added + length r.placeholder) (removed + (r.source_end - r.source_start))
        ranges

pub mask_classified_pii : List ℕ → List PiiSpan → Result MaskError PiiMaskResult
mask_classified_pii text spans = elim (normalize_mask_ranges (length text) spans) [
  | err e ↦ err e
  | ok ranges ↦
      ok (record { masked_text = mask_text text ranges; masks = mask_metadata 0 0 ranges })
]
