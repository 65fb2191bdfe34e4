-- ===== src/Sessions/Live.antt =====
-- auth.repository.ts: what the operations on the collection of refresh tokens do to the number of
-- tokens of a family that could still be used, and that they keep ids and families.
use proxy_ai.Base.{
  ℕ, ◌+◌, ◌≤◌, ◌≡◌, ◌≢◌, refl, subst, Bool, false, ◌&&◌, some, List, [], ◌∷◌, All, All-map, ap,
  Bool-cases, inl, inr, ◌==◌, if◌then◌else◌, arith,
}
use proxy_ai.Sessions.{
  RefreshToken, RefreshTokenMaterial, Store, find_refresh_token_by_hash, is_none, is_claimable,
  is_duplicate, claim_refresh_token_for_rotation, persist_refresh_token,
  revoke_refresh_token_family, is_of_family,
}

abbrev pub is_live : ℕ → RefreshToken → Bool
is_live f t = t.family_id == f && is_none t.used_at && is_none t.revoked_at

-- How many tokens of a family could still be used.
abbrev pub live : ℕ → Store → ℕ
live f [] = 0
live f (t ∷ ts) = (if is_live f t then 1 else 0) + live f ts

-- How many claims of the family wait for their replacement to be stored.
abbrev pub pending : ℕ → List RefreshTokenMaterial → ℕ
pending f [] = 0
pending f (m ∷ ms) = (if m.family_id == f then 1 else 0) + pending f ms

-- The id and the family of each document, which no update changes.
abbrev pub Key : Type 0
Key = ℕ × ℕ

abbrev pub key : RefreshToken → Key
key t = (t.token_id, t.family_id)

abbrev pub keys : Store → List Key
keys [] = []
keys (t ∷ ts) = key t ∷ keys ts

-- A document with the id of a token that was read is of its family.
abbrev pub IsSameAs : RefreshToken → List Key → Type 0
IsSameAs t ks = All (λ (k : Key). k.0 ≡ t.token_id → k.1 ≡ t.family_id) ks

abbrev pub HasUniqueIds : List Key → Type 0
HasUniqueIds [] = Unit {0}
HasUniqueIds (k ∷ ks) = All (λ (j : Key). j.0 ≢ k.0) ks × HasUniqueIds ks

abbrev pub claimed_weight : ℕ → ℕ → Bool → ℕ
claimed_weight f family claimed = if claimed then (if family == f then 1 else 0) else 0

pub live-claim :
    (f : ℕ) (t : RefreshToken) (org replacement now : ℕ) (ts : Store)
    → IsSameAs t (keys ts)
    → let (claimed, ts') = claim_refresh_token_for_rotation t.token_id org replacement now ts in
      live f ts ≡ live f ts' + claimed_weight f t.family_id claimed
unfolding claim_refresh_token_for_rotation
live-claim f t org replacement now [] h = refl
live-claim f t org replacement now (d ∷ ts) h =
    let rest = live-claim f t org replacement now ts h.1 in
    let same = h.0 in
    elim (Bool-cases (is_claimable t.token_id org now d)) [
      | inl e ↦ ground arith
      | inr e ↦ ground arith
    ]

pub keys-claim :
    (id org replacement now : ℕ) (ts : Store)
    → keys (claim_refresh_token_for_rotation id org replacement now ts).1 ≡ keys ts
unfolding claim_refresh_token_for_rotation
keys-claim id org replacement now [] = refl
keys-claim id org replacement now (d ∷ ts) =
    let rest = keys-claim id org replacement now ts in
    elim (Bool-cases (is_claimable id org now d)) [ inl e ↦ ground arith | inr e ↦ ground arith ]

pub keys-revoke :
    (t : RefreshToken) (now : ℕ) (ts : Store)
    → keys (revoke_refresh_token_family t now ts) ≡ keys ts
unfolding revoke_refresh_token_family
keys-revoke t now [] = refl
keys-revoke t now (d ∷ ts) =
    let rest = keys-revoke t now ts in
    elim (Bool-cases (is_of_family t d)) [ inl e ↦ ground arith | inr e ↦ ground arith ]

-- The unique index on ids.
pub duplicate-All :
    (m : RefreshTokenMaterial) (ts : Store)
    → is_duplicate m ts ≡ false
    → All (λ (k : Key). k.0 ≢ m.token_id) (keys ts)
duplicate-All m [] e = tt
duplicate-All m (t ∷ ts) e = (ground arith, duplicate-All m ts (ground arith))

pub find-All :
    (P : Key → Type 0) (hash : ℕ) (ts : Store) (t : RefreshToken)
    → find_refresh_token_by_hash hash ts ≡ some t
    → All P (keys ts)
    → P (key t)
unfolding find_refresh_token_by_hash
find-All P hash [] t e h = ground arith
find-All P hash (d ∷ ts) t e h = elim (Bool-cases (d.token_hash == hash)) [
  | inl here ↦ let same : d ≡ t = ground arith in subst (λ x. P (key x)) same h.0
  | inr there ↦ find-All P hash ts t (ground arith) h.1
]

pub find-IsSameAs :
    (hash : ℕ) (ts : Store) (t : RefreshToken)
    → find_refresh_token_by_hash hash ts ≡ some t
    → HasUniqueIds (keys ts)
    → IsSameAs t (keys ts)
unfolding find_refresh_token_by_hash
find-IsSameAs hash [] t e h = tt
find-IsSameAs hash (d ∷ ts) t e h = elim (Bool-cases (d.token_hash == hash)) [
  | inl here ↦
      let same : d ≡ t = ground arith in
      (
        λ x. ap (λ (y : RefreshToken). y.family_id) same,
        All-map _ _
            (λ k apart equal. let ids = ap (λ (y : RefreshToken). y.token_id) same in ground arith)
            (keys ts) h.0,
      )
  | inr there ↦
      let found : find_refresh_token_by_hash hash ts ≡ some t = ground arith in
      let apart = find-All (λ k. k.0 ≢ d.token_id) hash ts t found h.0 in
      (λ equal. ground arith, find-IsSameAs hash ts t found h.1)
]

pub live-revoke :
    (f : ℕ) (t : RefreshToken) (now : ℕ) (ts : Store)
    → live f (revoke_refresh_token_family t now ts) ≤ live f ts
unfolding revoke_refresh_token_family
live-revoke f t now [] = omega arith
live-revoke f t now (d ∷ ts) = let rest = live-revoke f t now ts in ground arith

pub live-persist :
    (f : ℕ) (m : RefreshTokenMaterial) (ts : Store)
    → live f (persist_refresh_token m ts).1 ≤ live f ts + pending f (m ∷ [])
unfolding persist_refresh_token
live-persist f m ts = ground arith
