-- ===== src/Sessions.antt =====
-- auth.service.ts, auth.repository.ts and refresh-token.service.ts: the refresh tokens of sessions. The
-- collection of tokens is a list. Ids and hashes are numbers, times milliseconds; the id of a
-- document, which is unique like `tokenId`, is taken for that.
pub mod Live
pub mod Rotation
pub mod Login
pub mod Reuse
mod Tests
use proxy_ai.Base.{
  ℕ, ◌+◌, ◌*◌, Bool, true, false, ◌&&◌, not, Option, none, some, List, [], ◌∷◌, Result, ok, err,
  leb, ltb, ◌==◌, if◌then◌else◌,
}

pub record RefreshToken : Type 0 where
  pub token_id : ℕ
  pub session_id : ℕ
  pub family_id : ℕ
  pub org_id : ℕ
  pub user_id : ℕ
  pub token_hash : ℕ
  pub expires_at : ℕ
  pub used_at : Option ℕ
  pub revoked_at : Option ℕ
  pub replaced_by_token_id : Option ℕ

-- `RotatedRefreshTokenMaterial`, with the fields of a document; the raw token is told by its hash.
pub record RefreshTokenMaterial : Type 0 where
  pub token_id : ℕ
  pub session_id : ℕ
  pub family_id : ℕ
  pub org_id : ℕ
  pub user_id : ℕ
  pub token_hash : ℕ
  pub expires_at : ℕ

abbrev pub Store : Type 0
Store = List RefreshToken

pub data RefreshError : Type 0 where
  invalid_refresh_token refresh_concurrency auth_unavailable : RefreshError

abbrev pub refresh_concurrency_grace_ms : ℕ
refresh_concurrency_grace_ms = 5000

-- `id` and `hash` are drawn at random, the other ids are those of the session.
pub create_refresh_token_material : ℕ → ℕ → ℕ → RefreshToken → ℕ → RefreshTokenMaterial
create_refresh_token_material ttl_days id hash session now = record {
  token_id = id;
  session_id = session.session_id;
  family_id = session.family_id;
  org_id = session.org_id;
  user_id = session.user_id;
  token_hash = hash;
  expires_at = now + ttl_days * 24 * 60 * 60 * 1000;
}

pub find_refresh_token_by_hash : ℕ → Store → Option RefreshToken
find_refresh_token_by_hash hash [] = none
find_refresh_token_by_hash hash (t ∷ ts) =
    let rest = find_refresh_token_by_hash hash ts in if t.token_hash == hash then some t else rest

abbrev pub is_none : Option ℕ → Bool
is_none none = true
is_none (some n) = false

-- The filter of `claimRefreshTokenForRotation`.
abbrev pub is_claimable : ℕ → ℕ → ℕ → RefreshToken → Bool
is_claimable id org now t =
    t.token_id == id
    && ltb now t.expires_at
    && t.org_id == org
    && is_none t.revoked_at
    && is_none t.used_at

abbrev pub mark_used : ℕ → ℕ → RefreshToken → RefreshToken
mark_used replacement now t = record t {
  used_at = some now;
  replaced_by_token_id = some replacement;
}

-- One atomic update: whether a document was found, and the collection behind it.
pub claim_refresh_token_for_rotation : ℕ → ℕ → ℕ → ℕ → Store → Bool × Store
claim_refresh_token_for_rotation id org replacement now [] = (false, [])
claim_refresh_token_for_rotation id org replacement now (t ∷ ts) =
    let (found, rest) = claim_refresh_token_for_rotation id org replacement now ts in
    if is_claimable id org now t
    then (true, mark_used replacement now t ∷ ts)
    else (found, t ∷ rest)

abbrev pub is_duplicate : RefreshTokenMaterial → Store → Bool
is_duplicate m [] = false
is_duplicate m (t ∷ ts) =
    if t.token_id == m.token_id
    then true
    else if t.token_hash == m.token_hash
    then true
    else is_duplicate m ts

abbrev pub new_token : RefreshTokenMaterial → RefreshToken
new_token m = record {
  token_id = m.token_id;
  session_id = m.session_id;
  family_id = m.family_id;
  org_id = m.org_id;
  user_id = m.user_id;
  token_hash = m.token_hash;
  expires_at = m.expires_at;
  used_at = none;
  revoked_at = none;
  replaced_by_token_id = none;
}

-- `RefreshTokenModel.create`, which the unique indexes may refuse: whether it succeeded.
pub persist_refresh_token : RefreshTokenMaterial → Store → Bool × Store
persist_refresh_token m ts = if is_duplicate m ts then (false, ts) else (true, new_token m ∷ ts)

-- The filter of `revokeRefreshTokenFamily`.
abbrev pub is_of_family : RefreshToken → RefreshToken → Bool
is_of_family s t =
    t.family_id == s.family_id
    && t.org_id == s.org_id
    && t.session_id == s.session_id
    && t.user_id == s.user_id
    && is_none t.revoked_at

pub revoke_refresh_token_family : RefreshToken → ℕ → Store → Store
revoke_refresh_token_family session now [] = []
revoke_refresh_token_family session now (t ∷ ts) =
    let rest = revoke_refresh_token_family session now ts in
    if is_of_family session t then record t { revoked_at = some now } ∷ rest else t ∷ rest

-- What `refreshSession` makes of the token that it has found: it goes on, or it throws, and before it
-- may revoke the family.
pub data TokenCheck : Type 0 where
  usable : TokenCheck
  refused : RefreshError → TokenCheck
  reused : TokenCheck

pub check_token : RefreshToken → ℕ → TokenCheck
check_token t now = elim t.used_at [
  | some used ↦
      if not (is_none t.replaced_by_token_id) && leb now (used + refresh_concurrency_grace_ms)
      then refused refresh_concurrency
      else reused
  | none ↦
      if not (is_none t.revoked_at)
      then refused invalid_refresh_token
      else if leb t.expires_at now
      then refused invalid_refresh_token
      else usable
]

-- What the outside answers to one call of `refreshSession`: which calls of the database fail, whether
-- organisation and user are active, what is drawn at random, and the time, which is
-- taken to be the same throughout the call.
pub record RefreshAnswers : Type 0 where
  pub find_fails : Bool
  pub claim_fails : Bool
  pub load_fails : Bool
  pub organisation_active : Bool
  pub user_active : Bool
  pub persist_fails : Bool
  pub sign_fails : Bool
  pub revoke_fails : Bool
  pub new_id : ℕ
  pub new_hash : ℕ
  pub ttl_days : ℕ
  pub now : ℕ

module _ (a : RefreshAnswers) where
  pub revoke_family_best_effort : RefreshToken → Store → Store
  unfolding revoke_refresh_token_family
  revoke_family_best_effort t ts =
      if a.revoke_fails then ts else revoke_refresh_token_family t a.now ts

  -- Behind the claim: the hash of the new token.
  pub finish_rotation : RefreshToken → RefreshTokenMaterial → Store → Result RefreshError ℕ × Store
  unfolding revoke_family_best_effort persist_refresh_token
  finish_rotation t m ts =
      let (stored, ts') = persist_refresh_token m ts in
      if a.load_fails
      then (err auth_unavailable, revoke_family_best_effort t ts)
      else if not a.organisation_active
      then (err invalid_refresh_token, revoke_family_best_effort t ts)
      else if not a.user_active
      then (err invalid_refresh_token, revoke_family_best_effort t ts)
      else if a.persist_fails
      then (err auth_unavailable, revoke_family_best_effort t ts)
      else if not stored
      then (err auth_unavailable, revoke_family_best_effort t ts)
      else if a.sign_fails
      then (err auth_unavailable, revoke_family_best_effort t ts')
      else (ok m.token_hash, ts')

  pub rotate : RefreshToken → Store → Result RefreshError ℕ × Store
  unfolding create_refresh_token_material claim_refresh_token_for_rotation finish_rotation
  rotate t ts =
      let m = create_refresh_token_material a.ttl_days a.new_id a.new_hash t a.now in
      let (claimed, ts') =
        claim_refresh_token_for_rotation t.token_id t.org_id m.token_id a.now ts in
      if a.claim_fails
      then (err auth_unavailable, ts)
      else if not claimed
      then (err refresh_concurrency, ts')
      else finish_rotation t m ts'

  pub refresh_session : ℕ → Store → Result RefreshError ℕ × Store
  unfolding find_refresh_token_by_hash check_token rotate
  refresh_session hash ts =
      if a.find_fails
      then (err auth_unavailable, ts)
      else elim (find_refresh_token_by_hash hash ts) [
        | none ↦ (err invalid_refresh_token, ts)
        | some t ↦ elim (check_token t a.now) [
          | refused e ↦ (err e, ts)
          | reused ↦ (err invalid_refresh_token, revoke_family_best_effort t ts)
          | usable ↦ rotate t ts
        ]
      ]

  -- `logoutSession`; `none` where there is no cookie.
  pub logout_session : Option ℕ → Store → Result RefreshError (Unit {0}) × Store
  unfolding find_refresh_token_by_hash revoke_refresh_token_family
  logout_session none ts = (ok tt, ts)
  logout_session (some hash) ts =
      if a.find_fails
      then (err auth_unavailable, ts)
      else elim (find_refresh_token_by_hash hash ts) [
        | none ↦ (ok tt, ts)
        | some t ↦
            if a.revoke_fails
            then (err auth_unavailable, ts)
            else (ok tt, revoke_refresh_token_family t a.now ts)
      ]
