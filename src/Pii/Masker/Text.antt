-- ===== src/Pii/Masker/Text.antt =====
-- pii-masker.ts: the masked text, and where the placeholders stand in it.
use mathlib.Core.List.{append_assoc}
use proxy_ai.Base.{
  ℕ, zero, suc, ◌+◌, ◌-◌, ◌≤◌, ◌<◌, ◌≡◌, refl, sym, ap, ◌∙◌, List, [], ◌∷◌, ◌++◌, length, take,
  drop, length-take, length-append, drop-append_length, take-append_length, All, arith, ok, err,
  map, Result-cases, inl, inr,
}
use proxy_ai.Pii.Spans.{PiiSpan}
use proxy_ai.Pii.Masker.{
  MaskRange, invalid_pii_mask_span, PiiMaskMetadata, PiiMaskResult, replace_range, mask_text,
  mask_metadata, normalize_mask_ranges, mask_classified_pii,
}
use proxy_ai.Pii.Masker.Ranges.{Ranged, Covers, normalize-Covers, Fits}
use proxy_ai.Pii.Masker.Total.{normalize_total, normalize-Fits}

-- The part of a text from place `a` up to `b`.
abbrev pub slice {ℓ} : {A : Type ℓ} → ℕ → ℕ → List A → List A
slice a b xs = drop a (take b xs)

-- The text from place `p` on, read from left to right: what stands between the ranges is kept, and
-- each range gives its placeholder.
abbrev pub render : List ℕ → ℕ → List MaskRange → List ℕ
render text p [] = drop p text
render text p (r ∷ rs) =
    slice p r.source_start text ++ (r.placeholder ++ render text r.source_end rs)

take-split {ℓ} :
    {A : Type ℓ} (a b : ℕ) (xs : List A) → a ≤ b → take a xs ++ slice a b xs ≡ take b xs
take-split zero b xs h = refl
take-split (suc a) zero xs h = absurd (omega arith)
take-split (suc a) (suc b) [] h = refl
take-split (suc a) (suc b) (x ∷ xs) h = ap (◌∷◌ x) (take-split a b xs (omega arith))

take-append-drop {ℓ} : {A : Type ℓ} (n : ℕ) (xs : List A) → take n xs ++ drop n xs ≡ xs
take-append-drop zero xs = refl
take-append-drop (suc n) [] = refl
take-append-drop (suc n) (x ∷ xs) = ap (◌∷◌ x) (take-append-drop n xs)

take-append_le {ℓ} :
    {A : Type ℓ} (n : ℕ) (xs ys : List A) → n ≤ length xs → take n (xs ++ ys) ≡ take n xs
take-append_le zero xs ys h = refl
take-append_le (suc n) [] ys h = absurd (omega arith)
take-append_le (suc n) (x ∷ xs) ys h = ap (◌∷◌ x) (take-append_le n xs ys (omega arith))

take-take {ℓ} : {A : Type ℓ} (a b : ℕ) (xs : List A) → a ≤ b → take a (take b xs) ≡ take a xs
take-take zero b xs h = refl
take-take (suc a) zero xs h = absurd (omega arith)
take-take (suc a) (suc b) [] h = refl
take-take (suc a) (suc b) (x ∷ xs) h = ap (◌∷◌ x) (take-take a b xs (omega arith))

drop-take-append {ℓ} :
    {A : Type ℓ} (n : ℕ) (xs ys : List A) → n ≤ length xs → drop n (take n xs ++ ys) ≡ ys
drop-take-append zero xs ys h = refl
drop-take-append (suc n) [] ys h = absurd (omega arith)
drop-take-append (suc n) (x ∷ xs) ys h = drop-take-append n xs ys (omega arith)

-- One replacement behind the text that is still untouched.
replace_range-render :
    (text rest : List ℕ) (p : ℕ) (r : MaskRange)
    → p ≤ r.source_start
    → r.source_start < r.source_end
    → r.source_end ≤ length text
    → replace_range r (take r.source_end text ++ rest)
      ≡ take p text ++ (slice p r.source_start text ++ (r.placeholder ++ rest))
replace_range-render text rest p r a b c =
    let n : r.source_start ≤ length (take r.source_end text) =
      omega (arith, length-take r.source_end text c) in
    rw
      (
        take-append_le r.source_start (take r.source_end text) rest n,
        take-take r.source_start r.source_end text (omega arith),
        drop-take-append r.source_end text rest c,
      )
      (ap (λ t. t ++ (r.placeholder ++ rest)) (sym (take-split p r.source_start text a))
        ∙ append_assoc (take p text) (slice p r.source_start text) (r.placeholder ++ rest))

mask_text-from :
    (text : List ℕ) (p : ℕ) (rs : List MaskRange)
    → Ranged (length text) p rs
    → mask_text text rs ≡ take p text ++ render text p rs
unfolding mask_text
mask_text-from text p [] h = sym (take-append-drop p text)
mask_text-from text p (r ∷ rs) (a, b, c, rest) =
    ap (replace_range r) (mask_text-from text r.source_end rs rest)
    ∙ replace_range-render text (render text r.source_end rs) p r a b c

pub mask_text-render :
    (text : List ℕ) (rs : List MaskRange)
    → Ranged (length text) 0 rs
    → mask_text text rs ≡ render text 0 rs
mask_text-render text rs h = mask_text-from text 0 rs h

-- The placeholder stands in the text at the places that the metadata names.
abbrev pub IsPlaced : List ℕ → PiiMaskMetadata → Type 0
IsPlaced out m =
    (slice m.masked_start m.masked_end out ≡ m.placeholder) × (m.masked_end ≤ length out)

slice-middle {ℓ} :
    {A : Type ℓ} (xs ys zs : List A)
    → slice (length xs) (length xs + length ys) (xs ++ (ys ++ zs)) ≡ ys
slice-middle xs ys zs =
    rw (← length-append xs ys, ← append_assoc xs ys zs, take-append_length (xs ++ ys) zs)
      (drop-append_length xs ys)

length-slice : (a b : ℕ) (text : List ℕ) → a ≤ b → b ≤ length text → length (slice a b text) + a ≡ b
length-slice a b text le top = omega (
  arith,
  ap length (take-split a b text le),
  length-append (take a text) (slice a b text),
  length-take a text (omega arith),
  length-take b text top,
)

-- `before` is what stands in front of the rest of the masked text.
mask_metadata-IsPlaced :
    (text out before : List ℕ) (p added removed : ℕ) (rs : List MaskRange)
    → Ranged (length text) p rs
    → out ≡ before ++ render text p rs
    → length before + removed ≡ p + added
    → All (IsPlaced out) (mask_metadata added removed rs)
unfolding mask_metadata
mask_metadata-IsPlaced text out before p added removed [] h e n = tt
mask_metadata-IsPlaced text out before p added removed (r ∷ rs) (a, b, c, rest) e n =
    let gap = slice p r.source_start text in
    let tail = render text r.source_end rs in
    let here = before ++ gap in
    let e₁ : out ≡ here ++ (r.placeholder ++ tail) =
      e ∙ sym (append_assoc before gap (r.placeholder ++ tail)) in
    let e₂ : out ≡ (here ++ r.placeholder) ++ tail =
      e₁ ∙ sym (append_assoc here r.placeholder tail) in
    let long : length here + removed ≡ r.source_start + added =
      omega (arith, length-append before gap, length-slice p r.source_start text a (omega arith)) in
    let at : r.source_start + added - removed ≡ length here = omega arith in
    (
      (
        rw (at, e₁) (slice-middle here r.placeholder tail),
        omega (
          arith,
          ap length e₁,
          length-append here (r.placeholder ++ tail),
          length-append r.placeholder tail,
        ),
      ),
      mask_metadata-IsPlaced text out (here ++ r.placeholder) r.source_end
          (added + length r.placeholder) (removed + (r.source_end - r.source_start)) rs rest e₂
          (omega (arith, length-append here r.placeholder)),
    )

-- The range of the source that a mask stands for.
abbrev pub mask_source : PiiMaskMetadata → MaskRange
mask_source m = record {
  source_start = m.source_start;
  source_end = m.source_end;
  placeholder = m.placeholder;
  categories = m.categories;
}

mask_source-mask_metadata :
    (added removed : ℕ) (rs : List MaskRange)
    → map mask_source (mask_metadata added removed rs) ≡ rs
unfolding mask_metadata
mask_source-mask_metadata added removed [] = refl
mask_source-mask_metadata added removed (r ∷ rs) = ap (◌∷◌ r) (
    mask_source-mask_metadata (added + length r.placeholder)
      (removed + (r.source_end - r.source_start)) rs)

-- Spans that are not empty and lie in the text are masked. The ranges of the masks do not overlap,
-- and each span lies within one of them; the masked text is the source with each range replaced by
-- its placeholder, and every mask tells where in the masked text its placeholder stands.
pub mask_classified_pii_correct :
    (text : List ℕ) (spans : List PiiSpan)
    → All (Fits (length text)) spans
    → (res : PiiMaskResult) × (mask_classified_pii text spans ≡ ok res)
      × Ranged (length text) 0 (map mask_source res.masks)
      × All (λ s. Covers (map mask_source res.masks) s.start s.stop) spans
      × (res.masked_text ≡ render text 0 (map mask_source res.masks))
      × All (IsPlaced res.masked_text) res.masks
unfolding mask_classified_pii
mask_classified_pii_correct text spans fits =
    let (rs, e) = normalize_total (length text) spans fits in
    let (ranged, covers) = normalize-Covers (length text) spans rs e in
    let text_eq = mask_text-render text rs ranged in
    let back = mask_source-mask_metadata 0 0 rs in
    (
      record { masked_text = mask_text text rs; masks = mask_metadata 0 0 rs },
      rw (e, mask_classified_pii) refl,
      rw back ranged,
      rw back covers,
      rw back text_eq,
      mask_metadata-IsPlaced text (mask_text text rs) [] 0 0 0 rs ranged text_eq (omega arith),
    )

-- If one span is empty or leaves the text, masking throws.
pub mask_classified_pii_throws :
    (text : List ℕ) (spans : List PiiSpan)
    → ¬ All (Fits (length text)) spans
    → mask_classified_pii text spans ≡ err invalid_pii_mask_span
unfolding mask_classified_pii
mask_classified_pii_throws text spans unfit =
    elim (Result-cases (normalize_mask_ranges (length text) spans)) [
      | inl (rs, e) ↦ absurd (unfit (normalize-Fits (length text) spans rs e))
      | inr (invalid_pii_mask_span, e) ↦ rw (e, mask_classified_pii) refl
    ]
