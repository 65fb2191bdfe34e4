-- ===== src/Sessions/Rotation.antt =====
-- auth.service.ts: refreshes, logins and logouts that run at once, as steps of one collection of
-- tokens. A step is what runs between two awaits of a handler.
use proxy_ai.Base.{
  ℕ, ◌+◌, ◌-◌, ◌≤◌, ◌≡◌, ◌≢◌, refl, sym, subst, Bool, true, false, Option, none, some, List, [],
  ◌∷◌, ok, All, All-map, Bool-cases, inl, inr, ◌==◌, if◌then◌else◌, arith,
}
use proxy_ai.Sessions.{
  RefreshToken, RefreshTokenMaterial, Store, create_refresh_token_material,
  find_refresh_token_by_hash, claim_refresh_token_for_rotation, persist_refresh_token,
  revoke_refresh_token_family, is_duplicate, new_token, usable, check_token, is_claimable,
  RefreshAnswers, finish_rotation, rotate,
}
use proxy_ai.Sessions.Live.{
  live, pending, Key, keys, IsSameAs, HasUniqueIds, claimed_weight, live-claim, keys-claim,
  keys-revoke, duplicate-All, find-IsSameAs, live-revoke, live-persist,
}

-- The entry at a position, and the list without it.
abbrev pub at : {A : Type 0} → ℕ → List A → Option A
at n [] = none
at n (x ∷ xs) = let rest = at (n - 1) xs in if n == 0 then some x else rest

abbrev pub without : {A : Type 0} → ℕ → List A → List A
without n [] = []
without n (x ∷ xs) = let rest = without (n - 1) xs in if n == 0 then xs else x ∷ rest

-- The collection, the tokens that requests have found usable, and the material of claims that wait
-- for their replacement to be stored.
pub record System : Type 0 where
  pub store : Store
  pub found : List RefreshToken
  pub in_flight : List RefreshTokenMaterial

-- Ids are drawn at random: none is that of a token that was read before, and the family of a login is
-- of no token yet.
abbrev pub IsNewId : RefreshTokenMaterial → System → Type 0
IsNewId m s = All (λ (t : RefreshToken). t.token_id ≢ m.token_id) s.found

abbrev pub IsNewFamily : RefreshTokenMaterial → System → Type 0
IsNewFamily m s = (live m.family_id s.store ≡ 0) × (pending m.family_id s.in_flight ≡ 0)

-- A token found is claimed, for material that is made of it.
abbrev pub claimed : RefreshToken → RefreshTokenMaterial → ℕ → System → System
claimed t m now s =
    let (taken, store) =
      claim_refresh_token_for_rotation t.token_id t.org_id m.token_id now s.store in
    record s { store = store; in_flight = if taken then m ∷ s.in_flight else s.in_flight }

pub data Step : System → System → Type 0 where
  logs_in :
      {s : System} (m : RefreshTokenMaterial)
      → IsNewFamily m s
      → IsNewId m s
      → Step s (record s { store = (persist_refresh_token m s.store).1 })
  finds :
      {s : System} (hash now : ℕ) (t : RefreshToken)
      → find_refresh_token_by_hash hash s.store ≡ some t
      → check_token t now ≡ usable
      → Step s (record s { found = t ∷ s.found })
  claims :
      {s : System} (n : ℕ) (t : RefreshToken) (ttl_days id hash now : ℕ)
      → at n s.found ≡ some t
      → Step s (claimed t (create_refresh_token_material ttl_days id hash t now) now s)
  persists :
      {s : System} (n : ℕ) (m : RefreshTokenMaterial)
      → at n s.in_flight ≡ some m
      → IsNewId m s
      → Step s (record s {
        store = (persist_refresh_token m s.store).1;
        in_flight = without n s.in_flight;
      })
  gives_up : {s : System} (n : ℕ) → Step s (record s { in_flight = without n s.in_flight })
  revokes :
      {s : System} (t : RefreshToken) (now : ℕ)
      → Step s (record s { store = revoke_refresh_token_family t now s.store })
  -- The index on the time of expiry removes a document.
  expires : {s : System} (n : ℕ) → Step s (record s { store = without n s.store })

pub data Reachable : System → Type 0 where
  start : Reachable (record { store = []; found = []; in_flight = [] })
  next : {s t : System} → Reachable s → Step s t → Reachable t

record IsSound (s : System) : Type 0 where
  at_most_one : (f : ℕ) → live f s.store + pending f s.in_flight ≤ 1
  same : All (λ t. IsSameAs t (keys s.store)) s.found
  unique : HasUniqueIds (keys s.store)

at-All :
    {A : Type 0} (P : A → Type 0) (n : ℕ) (xs : List A) (x : A) → at n xs ≡ some x → All P xs → P x
at-All P n [] x e h = ground arith
at-All P n (y ∷ ys) x e h = elim (Bool-cases (n == 0)) [
  | inl z ↦ let same : y ≡ x = ground arith in subst P same h.0
  | inr z ↦ at-All P (n - 1) ys x (ground arith) h.1
]

pending-at :
    (f n : ℕ) (ms : List RefreshTokenMaterial) (m : RefreshTokenMaterial)
    → at n ms ≡ some m
    → pending f ms ≡ pending f (m ∷ []) + pending f (without n ms)
pending-at f n [] m e = ground arith
pending-at f n (k ∷ ms) m e = elim (Bool-cases (n == 0)) [
  | inl z ↦ ground arith
  | inr z ↦ ground (arith, pending-at f (n - 1) ms m (ground arith))
]

pending-without :
    (f n : ℕ) (ms : List RefreshTokenMaterial) → pending f (without n ms) ≤ pending f ms
pending-without f n [] = omega arith
pending-without f n (k ∷ ms) = let rest = pending-without f (n - 1) ms in ground arith

live-without : (f n : ℕ) (ts : Store) → live f (without n ts) ≤ live f ts
live-without f n [] = omega arith
live-without f n (k ∷ ts) = let rest = live-without f (n - 1) ts in ground arith

either_way : {A : Type 0} (Q : A → Type 0) (b : Bool) (x y : A) → Q x → Q y → Q (if b then x else y)
either_way Q true x y p q = p
either_way Q false x y p q = q

without-All :
    (P : Key → Type 0) (n : ℕ) (ts : Store) → All P (keys ts) → All P (keys (without n ts))
without-All P n [] h = tt
without-All P n (t ∷ ts) h =
    either_way (λ x. All P (keys x)) (n == 0) ts (t ∷ without (n - 1) ts) h.1
      (h.0, without-All P (n - 1) ts h.1)

unique-without : (n : ℕ) (ts : Store) → HasUniqueIds (keys ts) → HasUniqueIds (keys (without n ts))
unique-without n [] h = tt
unique-without n (t ∷ ts) h =
    either_way (λ x. HasUniqueIds (keys x)) (n == 0) ts (t ∷ without (n - 1) ts) h.1
      (without-All _ (n - 1) ts h.0, unique-without (n - 1) ts h.1)

-- A document that is stored keeps ids unique and tells no token that was read from its family.
persist_unique :
    (m : RefreshTokenMaterial) (ts : Store)
    → HasUniqueIds (keys ts)
    → HasUniqueIds (keys (persist_refresh_token m ts).1)
unfolding persist_refresh_token
persist_unique m ts h = elim (Bool-cases (is_duplicate m ts)) [
  | inl e ↦
      let kept : persist_refresh_token m ts ≡ (false, ts) = ground arith in
      subst (λ (x : Bool × Store). HasUniqueIds (keys x.1)) (sym kept) h
  | inr e ↦
      let stored : persist_refresh_token m ts ≡ (true, new_token m ∷ ts) = ground arith in
      subst (λ (x : Bool × Store). HasUniqueIds (keys x.1)) (sym stored) (duplicate-All m ts e, h)
]

persist-same :
    (m : RefreshTokenMaterial) (ts : Store) (t : RefreshToken)
    → t.token_id ≢ m.token_id
    → IsSameAs t (keys ts)
    → IsSameAs t (keys (persist_refresh_token m ts).1)
unfolding persist_refresh_token
persist-same m ts t new h =
    either_way (λ (x : Bool × Store). IsSameAs t (keys x.1)) (is_duplicate m ts) (false, ts)
      (true, new_token m ∷ ts) h (λ equal. ground arith, h)

persist-All-same :
    (m : RefreshTokenMaterial) (ts : Store) (found : List RefreshToken)
    → All (λ (t : RefreshToken). t.token_id ≢ m.token_id) found
    → All (λ t. IsSameAs t (keys ts)) found
    → All (λ t. IsSameAs t (keys (persist_refresh_token m ts).1)) found
persist-All-same m ts [] new h = tt
persist-All-same m ts (t ∷ found) new h =
    (persist-same m ts t new.0 h.0, persist-All-same m ts found new.1 h.1)

claimed-pending :
    (f : ℕ) (m : RefreshTokenMaterial) (taken : Bool) (ms : List RefreshTokenMaterial)
    → pending f (if taken then m ∷ ms else ms) ≡ claimed_weight f m.family_id taken + pending f ms
claimed-pending f m true ms = omega arith
claimed-pending f m false ms = omega arith

-- What the steps keep: in each family at most one token can still be used, with the refreshes in
-- flight counted, and the tokens that were read are told from others by their ids.
Step-IsSound : {s t : System} → Step s t → IsSound s → IsSound t
unfolding create_refresh_token_material
Step-IsSound (logs_in {s = s} m family new) sound = record {
  at_most_one = λ f.
      let stored = live-persist f m s.store in
      let one = sound.at_most_one f in
      elim (Bool-cases (m.family_id == f)) [
        | inr other ↦ ground arith
        | inl this ↦
            let same : m.family_id ≡ f = ground arith in
            let no_token = subst (λ x. live x s.store ≡ 0) same family.0 in
            let no_claim = subst (λ x. pending x s.in_flight ≡ 0) same family.1 in ground arith
      ];
  same = persist-All-same m s.store s.found new sound.same;
  unique = persist_unique m s.store sound.unique;
}
Step-IsSound (finds {s = s} hash now t e usable_now) sound = record {
  at_most_one = sound.at_most_one;
  same = (find-IsSameAs hash s.store t e sound.unique, sound.same);
  unique = sound.unique;
}
Step-IsSound (claims {s = s} n t ttl_days id hash now e) sound =
    let m = create_refresh_token_material ttl_days id hash t now in
    let kept = keys-claim t.token_id t.org_id m.token_id now s.store in
    let same = at-All (λ x. IsSameAs x (keys s.store)) n s.found t e sound.same in
    record {
      at_most_one = λ f.
          let one = sound.at_most_one f in
          let moved = live-claim f t t.org_id m.token_id now s.store same in
          let taken =
            (claim_refresh_token_for_rotation t.token_id t.org_id m.token_id now s.store).0 in
          let waits = claimed-pending f m taken s.in_flight in omega arith;
      same = subst (λ ks. All (λ x. IsSameAs x ks) s.found) (sym kept) sound.same;
      unique = subst HasUniqueIds (sym kept) sound.unique;
    }
Step-IsSound (persists {s = s} n m e new) sound = record {
  at_most_one = λ f.
      let stored = live-persist f m s.store in
      let one = sound.at_most_one f in let taken = pending-at f n s.in_flight m e in omega arith;
  same = persist-All-same m s.store s.found new sound.same;
  unique = persist_unique m s.store sound.unique;
}
Step-IsSound (gives_up {s = s} n) sound = record {
  at_most_one = λ f.
      let fewer = pending-without f n s.in_flight in let one = sound.at_most_one f in omega arith;
  same = sound.same;
  unique = sound.unique;
}
Step-IsSound (revokes {s = s} t now) sound =
    let kept = keys-revoke t now s.store in
    record {
      at_most_one = λ f.
          let fewer = live-revoke f t now s.store in let one = sound.at_most_one f in omega arith;
      same = subst (λ ks. All (λ x. IsSameAs x ks) s.found) (sym kept) sound.same;
      unique = subst HasUniqueIds (sym kept) sound.unique;
    }
Step-IsSound (expires {s = s} n) sound = record {
  at_most_one =
      λ f. let fewer = live-without f n s.store in let one = sound.at_most_one f in omega arith;
  same = All-map _ _ (λ x h. without-All _ n s.store h) s.found sound.same;
  unique = unique-without n s.store sound.unique;
}

Reachable-IsSound : {s : System} → Reachable s → IsSound s
Reachable-IsSound start = record { at_most_one = λ f. omega arith; same = tt; unique = tt }
Reachable-IsSound (next r step) = Step-IsSound step (Reachable-IsSound r)

-- However logins, refreshes and logouts interleave, from an empty collection, with ids and families
-- drawn anew: in each family at most one token can still be used, refreshes in flight included.
pub at_most_one_live :
    {s : System} → Reachable s → (f : ℕ) → live f s.store + pending f s.in_flight ≤ 1
at_most_one_live r f = (Reachable-IsSound r).at_most_one f

duplicate-revoke :
    (m : RefreshTokenMaterial) (t : RefreshToken) (now : ℕ) (ts : Store)
    → is_duplicate m (revoke_refresh_token_family t now ts) ≡ is_duplicate m ts
unfolding revoke_refresh_token_family
duplicate-revoke m t now [] = refl
duplicate-revoke m t now (d ∷ ts) = let rest = duplicate-revoke m t now ts in ground arith

duplicate-claim :
    (m : RefreshTokenMaterial) (id org replacement now : ℕ) (ts : Store)
    → is_duplicate m (claim_refresh_token_for_rotation id org replacement now ts).1
      ≡ is_duplicate m ts
unfolding claim_refresh_token_for_rotation
duplicate-claim m id org replacement now [] = refl
duplicate-claim m id org replacement now (d ∷ ts) =
    let rest = duplicate-claim m id org replacement now ts in
    elim (Bool-cases (is_claimable id org now d)) [ inl e ↦ ground arith | inr e ↦ ground arith ]

-- Nothing stops the end of a refresh: the database answers, the user and the organisation are active,
-- and the replacement is signed.
abbrev pub Succeeds : RefreshAnswers → Type 0
Succeeds a =
    (a.load_fails ≡ false)
    × (a.organisation_active ≡ true)
    × (a.user_active ≡ true)
    × (a.persist_fails ≡ false)
    × (a.sign_fails ≡ false)

-- The material of a refresh, and its claim.
abbrev pub material_of : RefreshAnswers → RefreshToken → RefreshTokenMaterial
material_of a t = create_refresh_token_material a.ttl_days a.new_id a.new_hash t a.now

abbrev pub claim_of : RefreshAnswers → RefreshToken → Store → Bool × Store
claim_of a t ts =
    claim_refresh_token_for_rotation t.token_id t.org_id (material_of a t).token_id a.now ts

-- A refresh claims its token, and goes on alone with `finish_rotation`. If the token's family is
-- revoked between the two, and the id and the hash of the replacement are new and nothing else stops
-- the refresh, then it succeeds all the same, and one token more of the family can be used than behind
-- the revocation.
pub persist_behind_revocation :
    (a : RefreshAnswers) (t : RefreshToken) (later : ℕ) (ts : Store)
    → Succeeds a
    → a.claim_fails ≡ false
    → (claim_of a t ts).0 ≡ true
    → is_duplicate (material_of a t) ts ≡ false
    → let claimed = (claim_of a t ts).1 in
      let revoked = revoke_refresh_token_family t later claimed in
      let (r, after) = finish_rotation a t (material_of a t) revoked in
      (rotate a t ts ≡ finish_rotation a t (material_of a t) claimed)
      × (r ≡ ok a.new_hash)
      × (live t.family_id after ≡ 1 + live t.family_id revoked)
unfolding finish_rotation rotate persist_refresh_token create_refresh_token_material
persist_behind_revocation a t later ts succeeds answers claims_it new =
    let m = material_of a t in
    let claimed = (claim_of a t ts).1 in
    let kept = duplicate-claim m t.token_id t.org_id m.token_id a.now ts in
    let same = duplicate-revoke m t later claimed in
    let (load, active, user, persist, sign) = succeeds in (ground arith, ground arith, ground arith)
