-- ===== src/Base/Sorting.antt =====
-- `Array.prototype.sort`: stable, by a test whether one entry comes strictly before another.
use proxy_ai.Base.Lists.{All}
use proxy_ai.Base.Tests.{if◌then◌else◌, Bool-cases}
use mathlib.Core.Path.{◌≡◌}
use mathlib.Core.Logic.{inl, inr}
use mathlib.Core.Bool.{Bool, true, false}
use mathlib.Core.List.{List, [], ◌∷◌}

module _ {ℓ} {A : Type ℓ} (before : A → A → Bool) where
  -- `x` goes in front of the entries that do not come strictly before it.
  unfoldable pub insert_sorted : A → List A → List A
  insert_sorted x [] = x ∷ []
  insert_sorted x (y ∷ ys) = if before y x then y ∷ insert_sorted x ys else x ∷ y ∷ ys

  unfoldable pub sort : List A → List A
  unfolding insert_sorted
  sort [] = []
  sort (x ∷ xs) = insert_sorted x (sort xs)

  module _ {κ} (P : A → Type κ) where
    All-insert : (x : A) (xs : List A) → P x → All P xs → All P (insert_sorted x xs)
    unfolding insert_sorted
    All-insert x [] p h = (p, tt)
    All-insert x (y ∷ ys) p h = elim (Bool-cases (before y x)) [
      | inl e ↦ rw e (h.0, All-insert x ys p h.1)
      | inr e ↦ rw e (p, h)
    ]

    -- What holds of every entry holds of every entry of the sorted list.
    pub All-sort : (xs : List A) → All P xs → All P (sort xs)
    unfolding sort
    All-sort [] h = h
    All-sort (x ∷ xs) h = All-insert x (sort xs) h.0 (All-sort xs h.1)

    insert-All : (x : A) (xs : List A) → All P (insert_sorted x xs) → P x × All P xs
    unfolding insert_sorted
    insert-All x [] h = h
    insert-All x (y ∷ ys) h = elim (Bool-cases (before y x)) [
      | inl e ↦
          let h' : P y × All P (insert_sorted x ys) = rw e at h in
          let (p, rest) = insert-All x ys h'.1 in (p, (h'.0, rest))
      | inr e ↦ rw e at h
    ]

    -- And the other way round.
    pub sort-All : (xs : List A) → All P (sort xs) → All P xs
    unfolding sort
    sort-All [] h = h
    sort-All (x ∷ xs) h = let (p, rest) = insert-All x (sort xs) h in (p, sort-All xs rest)

-- Each entry stands in the relation to all that follow it.
abbrev pub Ordered {ℓ κ} : {A : Type ℓ} → (A → A → Type κ) → List A → Type κ
Ordered R [] = Unit
Ordered R (x ∷ xs) = All (R x) xs × Ordered R xs

module _ {ℓ κ} {A : Type ℓ} (before : A → A → Bool) (R : A → A → Type κ)
    (R_trans : (x y z : A) → R x y → R y z → R x z)
    (R_before : (x y : A) → before x y ≡ true → R x y)
    (R_not_before : (x y : A) → before x y ≡ false → R y x) where
  All-mono : (x y : A) (zs : List A) → R x y → All (R y) zs → All (R x) zs
  All-mono x y [] r h = tt
  All-mono x y (z ∷ zs) r h = (R_trans x y z r h.0, All-mono x y zs r h.1)

  Ordered-insert : (x : A) (xs : List A) → Ordered R xs → Ordered R (insert_sorted before x xs)
  unfolding insert_sorted
  Ordered-insert x [] h = (tt, tt)
  Ordered-insert x (y ∷ ys) h = elim (Bool-cases (before y x)) [
    | inl e ↦ rw e (All-insert before (R y) x ys (R_before y x e) h.0, Ordered-insert x ys h.1)
    | inr e ↦ let r = R_not_before y x e in rw e ((r, All-mono x y ys r h.0), h)
  ]

  pub Ordered-sort : (xs : List A) → Ordered R (sort before xs)
  unfolding sort
  Ordered-sort [] = tt
  Ordered-sort (x ∷ xs) = Ordered-insert x (sort before xs) (Ordered-sort xs)

module _ {ℓ κ} {A : Type ℓ} (before : A → A → Bool) (R : A → A → Type κ)
    (R_sym : (x y : A) → R x y → R y x) where
  insert_symmetric :
      (x : A) (ys : List A) → All (R x) ys → Ordered R ys → Ordered R (insert_sorted before x ys)
  unfolding insert_sorted
  insert_symmetric x [] a o = (tt, tt)
  insert_symmetric x (y ∷ ys) a o = elim (Bool-cases (before y x)) [
    | inl e ↦ rw e (All-insert before (R y) x ys (R_sym x y a.0) o.0, insert_symmetric x ys a.1 o.1)
    | inr e ↦ rw e (a, o)
  ]

  -- A symmetric relation does not mind the order.
  pub Ordered-sort_symmetric : (xs : List A) → Ordered R xs → Ordered R (sort before xs)
  unfolding sort
  Ordered-sort_symmetric [] o = tt
  Ordered-sort_symmetric (x ∷ xs) o =
      insert_symmetric x (sort before xs) (All-sort before (R x) xs o.0)
        (Ordered-sort_symmetric xs o.1)
