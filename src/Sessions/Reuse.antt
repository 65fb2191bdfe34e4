-- ===== src/Sessions/Reuse.antt =====
-- auth.service.ts: a refresh token that is presented again, and what a revocation leaves.
use proxy_ai.Base.{
  ℕ, ◌+◌, ◌≤◌, ◌<◌, ◌≡◌, ◌≢◌, ◌⊎◌, refl, sym, subst, ap, ◌∙◌, true, false, none, some, [], ◌∷◌, All,
  ok, err, Bool-cases, Option-cases, inl, inr, ◌==◌, arith,
}
use proxy_ai.Sessions.{
  RefreshToken, RefreshTokenMaterial, Store, RefreshError, invalid_refresh_token,
  refresh_concurrency, refresh_concurrency_grace_ms, create_refresh_token_material,
  find_refresh_token_by_hash, is_claimable, mark_used, claim_refresh_token_for_rotation,
  persist_refresh_token, new_token, revoke_refresh_token_family, is_duplicate, TokenCheck, usable,
  refused, reused, check_token, RefreshAnswers, revoke_family_best_effort, finish_rotation, rotate,
  refresh_session,
}
use proxy_ai.Sessions.Live.{live, Key, keys, HasUniqueIds, find-All}

find_hash :
    (hash : ℕ) (ts : Store) (t : RefreshToken)
    → find_refresh_token_by_hash hash ts ≡ some t
    → t.token_hash ≡ hash
unfolding find_refresh_token_by_hash
find_hash hash [] t e = ground arith
find_hash hash (d ∷ ts) t e = elim (Bool-cases (d.token_hash == hash)) [
  | inl here ↦
      let same : d ≡ t = ground arith in
      sym (ap (λ (y : RefreshToken). y.token_hash) same) ∙ ground arith
  | inr there ↦ find_hash hash ts t (ground arith)
]

-- The claim takes the document that was found, and it is found again, used.
find-claim :
    (hash : ℕ) (ts : Store) (t : RefreshToken) (org replacement now : ℕ)
    → HasUniqueIds (keys ts)
    → find_refresh_token_by_hash hash ts ≡ some t
    → is_claimable t.token_id org now t ≡ true
    → find_refresh_token_by_hash hash
        (claim_refresh_token_for_rotation t.token_id org replacement now ts).1
      ≡ some (mark_used replacement now t)
unfolding find_refresh_token_by_hash claim_refresh_token_for_rotation
find-claim hash [] t org replacement now unique e c = ground arith
find-claim hash (d ∷ ts) t org replacement now unique e c =
    elim (Bool-cases (d.token_hash == hash)) [
      | inl here ↦
          let same : d ≡ t = ground arith in
          let taken : is_claimable t.token_id org now d ≡ true =
            subst (λ x. is_claimable t.token_id org now x ≡ true) (sym same) c in
          let marked : (claim_refresh_token_for_rotation t.token_id org replacement now (d ∷ ts)).1
              ≡ mark_used replacement now d ∷ ts =
            ground arith in
          let first : find_refresh_token_by_hash hash (mark_used replacement now d ∷ ts)
              ≡ some (mark_used replacement now d) =
            ground arith in
          ap (find_refresh_token_by_hash hash) marked
          ∙ first
          ∙ ap (λ x. some (mark_used replacement now x)) same
      | inr there ↦
          let found : find_refresh_token_by_hash hash ts ≡ some t = ground arith in
          let apart = find-All (λ (k : Key). k.0 ≢ d.token_id) hash ts t found unique.0 in
          let rest = find-claim hash ts t org replacement now unique.1 found c in ground arith
    ]

duplicate_hash :
    (m : RefreshTokenMaterial) (ts : Store)
    → is_duplicate m ts ≡ false
    → find_refresh_token_by_hash m.token_hash ts ≡ none
unfolding find_refresh_token_by_hash
duplicate_hash m [] e = refl
duplicate_hash m (d ∷ ts) e = ground (arith, duplicate_hash m ts)

-- The tokens of a family belong to one session.
abbrev pub IsOfSession : RefreshToken → RefreshToken → Type 0
IsOfSession s t =
    t.family_id ≡ s.family_id
    → (t.org_id ≡ s.org_id) × (t.session_id ≡ s.session_id) × (t.user_id ≡ s.user_id)

revoked-live :
    (s : RefreshToken) (now : ℕ) (ts : Store)
    → All (IsOfSession s) ts
    → live s.family_id (revoke_refresh_token_family s now ts) ≡ 0
unfolding revoke_refresh_token_family
revoked-live s now [] h = refl
revoked-live s now (d ∷ ts) h =
    let rest = revoked-live s now ts h.1 in
    let session = h.0 in
    elim (Bool-cases (d.family_id == s.family_id)) [
      | inl e ↦ let (org, own_session, user) = session (ground arith) in ground arith
      | inr e ↦ ground arith
    ]

check_cases :
    (c : TokenCheck) → (c ≡ usable) ⊎ ((c ≡ reused) ⊎ ((x : RefreshError) × (c ≡ refused x)))
check_cases usable = inl refl
check_cases reused = inr (inl refl)
check_cases (refused x) = inr (inr (x, refl))

module _ (a : RefreshAnswers) where
  abbrev material : RefreshToken → RefreshTokenMaterial
  unfolding create_refresh_token_material
  material t = create_refresh_token_material a.ttl_days a.new_id a.new_hash t a.now

  -- What a refresh that succeeds has done.
  abbrev Rotated : ℕ → Store → Store → RefreshToken → Type 0
  Rotated hash ts ts' t =
      let claimed = claim_refresh_token_for_rotation t.token_id t.org_id a.new_id a.now ts in
      (find_refresh_token_by_hash hash ts ≡ some t)
      × (claimed.0 ≡ true)
      × (is_claimable t.token_id t.org_id a.now t ≡ true)
      × (is_duplicate (material t) claimed.1 ≡ false)
      × (ts' ≡ new_token (material t) ∷ claimed.1)

  usable-is_claimable :
      (t : RefreshToken)
      → check_token t a.now ≡ usable
      → is_claimable t.token_id t.org_id a.now t ≡ true
  unfolding check_token
  usable-is_claimable t e = ground arith

  rotate-ok :
      (t : RefreshToken) (ts : Store) (new : ℕ)
      → (rotate a t ts).0 ≡ ok new
      → let claimed = claim_refresh_token_for_rotation t.token_id t.org_id a.new_id a.now ts in
        (claimed.0 ≡ true)
        × (is_duplicate (material t) claimed.1 ≡ false)
        × ((rotate a t ts).1 ≡ new_token (material t) ∷ claimed.1)
  unfolding rotate finish_rotation persist_refresh_token create_refresh_token_material
  rotate-ok t ts new e = (ground arith, ground arith, ground arith)

  refresh_session-Rotated :
      (hash : ℕ) (ts : Store) (new : ℕ)
      → (refresh_session a hash ts).0 ≡ ok new
      → (t : RefreshToken) × Rotated hash ts (refresh_session a hash ts).1 t
  unfolding refresh_session
  refresh_session-Rotated hash ts new e = elim (Bool-cases a.find_fails) [
    | inl failed ↦ ground arith
    | inr reads ↦ elim (Option-cases (find_refresh_token_by_hash hash ts)) [
      | inl unknown ↦ ground arith
      | inr (t, found) ↦ elim (check_cases (check_token t a.now)) [
        | inl good ↦
            let same : refresh_session a hash ts ≡ rotate a t ts = ground arith in
            let (claimed, fresh, stored) = rotate-ok t ts new (sym (ap (λ x. x.0) same) ∙ e) in
            (t, (found, claimed, usable-is_claimable t good, fresh, ap (λ x. x.1) same ∙ stored))
        | inr (inl bad) ↦ ground arith
        | inr (inr (x, bad)) ↦ ground arith
      ]
    ]
  ]

  -- A token that was exchanged is found again, used.
  exchanged :
      (hash : ℕ) (ts ts' : Store) (t : RefreshToken)
      → HasUniqueIds (keys ts)
      → Rotated hash ts ts' t
      → find_refresh_token_by_hash hash ts' ≡ some (mark_used a.new_id a.now t)
  unfolding create_refresh_token_material find_refresh_token_by_hash
  exchanged hash ts ts' t unique (found, claimed, claimable, fresh, stored) =
      let store = (claim_refresh_token_for_rotation t.token_id t.org_id a.new_id a.now ts).1 in
      let again = find-claim hash ts t t.org_id a.new_id a.now unique found claimable in
      let other = duplicate_hash (material t) store fresh in
      elim (Bool-cases (a.new_hash == hash)) [
        | inl same ↦
            let equal : a.new_hash ≡ hash = ground arith in
            let none_there = subst (λ x. find_refresh_token_by_hash x store ≡ none) equal other in
            ground arith
        | inr apart ↦
            let skipped : find_refresh_token_by_hash hash (new_token (material t) ∷ store)
                ≡ find_refresh_token_by_hash hash store =
              ground arith in
            ap (find_refresh_token_by_hash hash) stored ∙ skipped ∙ again
      ]

module _ (a b : RefreshAnswers) where
  -- A token that was exchanged is refused from then on. If ids are unique, a refresh has succeeded, and
  -- the token is presented again while the database answers: within the grace time the request is
  -- refused as concurrent and changes nothing; behind it the request is refused, and if the tokens of
  -- the family are of one session and the revocation does not fail, none of the family can be used.
  pub refresh_session_replay :
      (hash new : ℕ) (ts : Store)
      → HasUniqueIds (keys ts)
      → (refresh_session a hash ts).0 ≡ ok new
      → b.find_fails ≡ false
      → let ts' = (refresh_session a hash ts).1 in
        let (r, after) = refresh_session b hash ts' in
        (t : RefreshToken) × (find_refresh_token_by_hash hash ts ≡ some t)
        × ((b.now ≤ a.now + refresh_concurrency_grace_ms)
            → (r ≡ err refresh_concurrency) × (after ≡ ts'))
        × ((a.now + refresh_concurrency_grace_ms < b.now)
            → (r ≡ err invalid_refresh_token)
              × (b.revoke_fails ≡ false → All (IsOfSession t) ts' → live t.family_id after ≡ 0))
  unfolding refresh_session check_token revoke_family_best_effort
  refresh_session_replay hash new ts unique e reads =
      let (t, rotated) = refresh_session-Rotated a hash ts new e in
      let ts' = (refresh_session a hash ts).1 in
      let again = exchanged a hash ts ts' t unique rotated in
      let used = mark_used a.new_id a.now t in
      (
        t,
        rotated.0,
        λ within. (ground arith, ground arith),
        λ later. (
          ground arith,
          λ revokes sessions. let none_live = revoked-live used b.now ts' sessions in ground arith,
        ),
      )
