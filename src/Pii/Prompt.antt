-- ===== src/Pii/Prompt.antt =====
-- pii-classifier.ts and pii-prompt-processor.ts: detection, classification and masking of a prompt.
-- The counters of the detected categories are left out.
use proxy_ai.Base.{ℕ, ◌+◌, ◌≤◌, ◌≡◌, refl, List, [], ◌∷◌, map, All, length, Result, ok, err, arith}
use proxy_ai.Pii.Spans.{
  PiiCategory, contact_info, financial, government_id, credential, internal_secret, PiiDetectorId,
  email, phone, payment_card_luhn, government_id_number, api_key, connection_string, PiiSpan,
}
use proxy_ai.Pii.Detector.{Match, candidate_of, PiiDetectionResult, unique_categories, detect_pii}
use proxy_ai.Pii.Detector.Reported.{detected, detect_pii-Fits, always, categories-detect_pii}
use proxy_ai.Pii.Masker.{MaskError, PiiMaskResult, mask_classified_pii}
use proxy_ai.Pii.Masker.Ranges.{Ranged, Covers}
use proxy_ai.Pii.Masker.Text.{render, mask_source, mask_classified_pii_correct}

-- `CATEGORY_BY_DETECTOR` has an entry for every detector, so the source's throw is not reached.
pub category_by_detector : PiiDetectorId → PiiCategory
category_by_detector email = contact_info
category_by_detector phone = contact_info
category_by_detector payment_card_luhn = financial
category_by_detector government_id_number = government_id
category_by_detector api_key = credential
category_by_detector connection_string = internal_secret

pub classify_span : PiiSpan → PiiSpan
unfolding category_by_detector
classify_span s = record s { category = category_by_detector s.detector }

pub classify_detected_pii : PiiDetectionResult → PiiDetectionResult
unfolding classify_span
classify_detected_pii detection =
    let spans = map classify_span detection.spans in
    record { spans = spans; categories = unique_categories [] (map (λ s. s.category) spans) }

pub record PiiPromptProcessingResult : Type 0 where
  pub sanitized_prompt : List ℕ
  pub detection : PiiDetectionResult
  pub classification : PiiDetectionResult
  pub masking : PiiMaskResult

pub process_pii_prompt :
    List ℕ → (PiiDetectorId → List Match) → Result MaskError PiiPromptProcessingResult
process_pii_prompt prompt matches =
    let detection = detect_pii matches in
    let classification = classify_detected_pii detection in
    elim (mask_classified_pii prompt classification.spans) [
      | err e ↦ err e
      | ok masking ↦ ok (record {
        sanitized_prompt = masking.masked_text;
        detection = detection;
        classification = classification;
        masking = masking;
      })
    ]

IsClassified : PiiSpan → Type 0
IsClassified s = category_by_detector s.detector ≡ s.category

detect_pii-IsClassified :
    (matches : PiiDetectorId → List Match) → All IsClassified (detect_pii matches).spans
unfolding candidate_of IsClassified category_by_detector
detect_pii-IsClassified matches =
    detected matches IsClassified (λ m. Unit {0})
      (λ rule. category_by_detector rule.detector ≡ rule.category) (λ rule m g pos q. g)
      (refl, (refl, (refl, (refl, (refl, (refl, tt)))))) (λ d. always (matches d))

classify_span-id : (s : PiiSpan) → IsClassified s → classify_span s ≡ s
unfolding classify_span IsClassified
classify_span-id s h = ground arith

map-classify_span :
    (spans : List PiiSpan) → All IsClassified spans → map classify_span spans ≡ spans
map-classify_span [] h = refl
map-classify_span (s ∷ spans) h = cc (classify_span-id s h.0, map-classify_span spans h.1)

-- The table of the classifier agrees with the rules of the detector: classification leaves what
-- was detected as it is, categories included.
pub classify_detect_pii :
    (matches : PiiDetectorId → List Match)
    → classify_detected_pii (detect_pii matches) ≡ detect_pii matches
unfolding classify_detected_pii
classify_detect_pii matches = cc (
  map-classify_span (detect_pii matches).spans (detect_pii-IsClassified matches),
  categories-detect_pii matches,
)

-- The processing of a prompt never throws, and the prompt that goes out has a placeholder for each
-- detected span: it is the prompt with ranges replaced that do not overlap and hold every detected
-- span. The condition is that the regular expressions match within the prompt.
pub process_pii_prompt_masks :
    (prompt : List ℕ) (matches : PiiDetectorId → List Match)
    → ((d : PiiDetectorId) → All (λ m. m.index + length m.value ≤ length prompt) (matches d))
    → (r : PiiPromptProcessingResult) × (process_pii_prompt prompt matches ≡ ok r)
      × (r.detection ≡ detect_pii matches)
      × (r.classification ≡ r.detection)
      × Ranged (length prompt) 0 (map mask_source r.masking.masks)
      × All (λ s. Covers (map mask_source r.masking.masks) s.start s.stop) r.detection.spans
      × (r.sanitized_prompt ≡ render prompt 0 (map mask_source r.masking.masks))
unfolding process_pii_prompt
process_pii_prompt_masks prompt matches inside =
    let same = classify_detect_pii matches in
    let detection = detect_pii matches in
    let (m, e, ranged, covers, text, placed) =
      mask_classified_pii_correct prompt detection.spans
        (detect_pii-Fits matches (length prompt) inside) in
    (
      record {
        sanitized_prompt = m.masked_text;
        detection = detection;
        classification = classify_detected_pii detection;
        masking = m;
      },
      ground (arith, same),
      refl,
      same,
      ranged,
      covers,
      text,
    )
