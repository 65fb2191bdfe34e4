-- ===== src/Pii/Tests.antt =====
-- The theorems on personal data in prompts, at inputs on which their conditions hold.

use proxy_ai.Base.{
  ℕ, ◌+◌, ◌≤◌, ◌<◌, ◌≡◌, ◌↔◌, refl, true, false, none, List, [], ◌∷◌, ◌++◌, map, min, length, All,
  ok, arith,
}
use proxy_ai.Base.Sorting.{Ordered}
use proxy_ai.Pii.Spans.{
  PiiDetectorId, email, phone, payment_card_luhn, government_id_number, api_key, connection_string,
  contact_info, PiiSpan,
}
use proxy_ai.Pii.Dedupe.{remove_exact_duplicates}
use proxy_ai.Pii.Masker.{codes, PiiMaskResult, mask_classified_pii}
use proxy_ai.Pii.Masker.Ranges.{Ranged, Covers, Fits}
use proxy_ai.Pii.Masker.Text.{render, mask_source, IsPlaced, mask_classified_pii_correct}
use proxy_ai.Pii.Detector.{Match, CandidateSpan, luhn_check, remove_overlaps, detect_pii}
use proxy_ai.Pii.Detector.Luhn.{luhn_detects_one_digit}
use proxy_ai.Pii.Detector.Overlaps.{Apart, Settled, remove_overlaps_settles}
use proxy_ai.Pii.Detector.Reported.{detect_pii_in_sequence}
use proxy_ai.Pii.Prompt.{PiiPromptProcessingResult, process_pii_prompt, process_pii_prompt_masks}
use proxy_ai.Pii.Risk.{calculate_pii_risk, total_weight, calculate_pii_risk_sums}

abbrev span_at : ℕ → ℕ → PiiSpan
span_at start stop = record {
  start = start;
  stop = stop;
  category = contact_info;
  detector = email;
  confidence = 85;
  metadata = record { kind = email; value_length = 5; normalized_length = none };
}

abbrev prompt : List ℕ
prompt = codes "hi a@b.c and d@e.f"

abbrev two_spans : List PiiSpan
two_spans = span_at 3 8 ∷ span_at 13 18 ∷ span_at 3 8 ∷ []

two_spans-Fits : All (Fits (length prompt)) two_spans
two_spans-Fits = ground arith

mask_classified_pii_correct_example :
    (res : PiiMaskResult) × (mask_classified_pii prompt two_spans ≡ ok res)
    × Ranged (length prompt) 0 (map mask_source res.masks)
    × All (λ s. Covers (map mask_source res.masks) s.start s.stop) two_spans
    × (res.masked_text ≡ render prompt 0 (map mask_source res.masks))
    × All (IsPlaced res.masked_text) res.masks
mask_classified_pii_correct_example = mask_classified_pii_correct prompt two_spans two_spans-Fits

outside-Fits : ¬ All (Fits (length prompt)) (span_at 17 19 ∷ [])
outside-Fits h = absurd (ground arith)

card_passes : luhn_check (codes "4111111" ++ b'1' ∷ codes "11111111") ≡ true
unfolding luhn_check
card_passes = refl

luhn_detects_one_digit_example : luhn_check (codes "4111111" ++ b'7' ∷ codes "11111111") ≡ false
luhn_detects_one_digit_example =
    luhn_detects_one_digit (codes "4111111") (codes "11111111") b'1' b'7' refl refl (omega arith)
      card_passes

abbrev found : PiiDetectorId → List Match
found email =
    record { index = 3; value = codes "a@b.c" } ∷ record { index = 13; value = codes "d@e.f" } ∷ []
found phone = []
found payment_card_luhn = []
found government_id_number = []
found api_key = []
found connection_string = []

found_within : (d : PiiDetectorId) → All (λ m. m.index + length m.value ≤ length prompt) (found d)
found_within email = ground arith
found_within phone = tt
found_within payment_card_luhn = tt
found_within government_id_number = tt
found_within api_key = tt
found_within connection_string = tt

abbrev candidates : List CandidateSpan
candidates =
    record { span = span_at 3 8; priority = 60 }
    ∷ record { span = span_at 5 9; priority = 50 }
    ∷ record { span = span_at 13 18; priority = 60 }
    ∷ []

remove_overlaps_settles_example :
    Ordered (λ a b. Apart a.span b.span) (remove_overlaps candidates)
    × All (Settled (remove_overlaps candidates)) candidates
remove_overlaps_settles_example = remove_overlaps_settles candidates

detect_pii_in_sequence_example :
    All (λ s. s.start < s.stop) (detect_pii found).spans
    × Ordered (λ a b. a.stop ≤ b.start) (detect_pii found).spans
detect_pii_in_sequence_example = detect_pii_in_sequence found

process_pii_prompt_masks_example :
    (r : PiiPromptProcessingResult) × (process_pii_prompt prompt found ≡ ok r)
    × (r.detection ≡ detect_pii found)
    × (r.classification ≡ r.detection)
    × Ranged (length prompt) 0 (map mask_source r.masking.masks)
    × All (λ s. Covers (map mask_source r.masking.masks) s.start s.stop) r.detection.spans
    × (r.sanitized_prompt ≡ render prompt 0 (map mask_source r.masking.masks))
process_pii_prompt_masks_example = process_pii_prompt_masks prompt found found_within

calculate_pii_risk_sums_example :
    ((calculate_pii_risk two_spans).uncapped_score
      ≡ total_weight (remove_exact_duplicates two_spans))
    × ((calculate_pii_risk two_spans).score ≡ min (calculate_pii_risk two_spans).uncapped_score 100)
    × (((calculate_pii_risk two_spans).capped ≡ true)
        ↔ (100 < (calculate_pii_risk two_spans).uncapped_score))
calculate_pii_risk_sums_example = calculate_pii_risk_sums two_spans
