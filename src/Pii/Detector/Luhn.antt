-- ===== src/Pii/Detector/Luhn.antt =====
-- pii-detector.ts: the check digit of a card number.
use mathlib.Core.List.{reverse-append, map-append, reverse-cons, append_assoc}
use proxy_ai.Base.{
  ℕ, ◌+◌, ◌-◌, ◌%◌, ◌≤◌, ◌≡◌, ◌≢◌, ap, ◌∙◌, Bool, true, false, not, List, [], ◌∷◌, ◌++◌, map,
  reverse, arith,
}
use proxy_ai.Pii.Detector.{luhn_digit, luhn_sum, luhn_check, is_digit}

luhn_digit-injective :
    (b : Bool) (d e : ℕ) → d ≤ 9 → e ≤ 9 → d ≢ e → luhn_digit b d % 10 ≢ luhn_digit b e % 10
luhn_digit-injective true d e hd he ne = λ h. ground arith
luhn_digit-injective false d e hd he ne = λ h. ground arith

luhn_sum-acc : (acc : ℕ) (b : Bool) (ds : List ℕ) → luhn_sum acc b ds ≡ acc + luhn_sum 0 b ds
unfolding luhn_sum
luhn_sum-acc acc b [] = omega arith
luhn_sum-acc acc b (d ∷ ds) = omega (
  arith,
  luhn_sum-acc (acc + luhn_digit b d) (not b) ds,
  luhn_sum-acc (0 + luhn_digit b d) (not b) ds,
)

luhn_sum-change :
    (b : Bool) (xs ys : List ℕ) (d e : ℕ)
    → d ≤ 9
    → e ≤ 9
    → d ≢ e
    → luhn_sum 0 b (xs ++ d ∷ ys) % 10 ≢ luhn_sum 0 b (xs ++ e ∷ ys) % 10
unfolding luhn_sum
luhn_sum-change b [] ys d e hd he ne h = luhn_digit-injective b d e hd he ne (
    omega (
      arith,
      luhn_sum-acc (0 + luhn_digit b d) (not b) ys,
      luhn_sum-acc (0 + luhn_digit b e) (not b) ys,
    ))
luhn_sum-change b (x ∷ xs) ys d e hd he ne h = luhn_sum-change (not b) xs ys d e hd he ne (
    omega (
      arith,
      luhn_sum-acc (0 + luhn_digit b x) (not b) (xs ++ d ∷ ys),
      luhn_sum-acc (0 + luhn_digit b x) (not b) (xs ++ e ∷ ys),
    ))

reversed_digits :
    (xs ys : List ℕ) (c : ℕ)
    → reverse (map (λ c. c - b'0') (xs ++ c ∷ ys))
      ≡ reverse (map (λ c. c - b'0') ys) ++ (c - b'0') ∷ reverse (map (λ c. c - b'0') xs)
reversed_digits xs ys c =
    let value = λ (c : ℕ). c - b'0' in
    ap reverse (map-append value xs (c ∷ ys))
    ∙ reverse-append (map value xs) (map value (c ∷ ys))
    ∙ ap (λ t. t ++ reverse (map value xs)) (reverse-cons (value c) (map value ys))
    ∙ append_assoc (reverse (map value ys)) (value c ∷ []) (reverse (map value xs))

-- One wrong digit in a card number is always noticed: if a number passes the check, then no number
-- that differs from it in exactly one digit does.
pub luhn_detects_one_digit :
    (xs ys : List ℕ) (c d : ℕ)
    → is_digit c ≡ true
    → is_digit d ≡ true
    → c ≢ d
    → luhn_check (xs ++ c ∷ ys) ≡ true
    → luhn_check (xs ++ d ∷ ys) ≡ false
unfolding luhn_check
luhn_detects_one_digit xs ys c d hc hd ne h =
    let value = λ (c : ℕ). c - b'0' in
    let change =
      luhn_sum-change false (reverse (map value ys)) (reverse (map value xs)) (c - b'0') (d - b'0')
        (ground arith) (ground arith) (ground arith) in
    ground (
      arith,
      change,
      ap (luhn_sum 0 false) (reversed_digits xs ys c),
      ap (luhn_sum 0 false) (reversed_digits xs ys d),
    )
