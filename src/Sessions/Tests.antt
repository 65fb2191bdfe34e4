-- ===== src/Sessions/Tests.antt =====
-- auth.service.ts: the theorems on a session with one token.
use proxy_ai.Base.{◌+◌, ◌==◌, ◌≤◌, ◌<◌, ◌≡◌, refl, true, false, none, some, [], ◌∷◌, All, ok, err}
use proxy_ai.Sessions.{
  is_duplicate, RefreshToken, RefreshTokenMaterial, RefreshAnswers, invalid_refresh_token,
  refresh_concurrency, refresh_concurrency_grace_ms, create_refresh_token_material,
  find_refresh_token_by_hash, claim_refresh_token_for_rotation, persist_refresh_token,
  revoke_refresh_token_family, check_token, refresh_session, rotate, finish_rotation,
}
use proxy_ai.Sessions.Live.{live, pending}
use proxy_ai.Sessions.Login.{LoginAnswers, TellsNothing, login, login-TellsNothing}
use proxy_ai.Sessions.Reuse.{IsOfSession, refresh_session_replay}
use proxy_ai.Sessions.Rotation.{
  System, logs_in, finds, claims, Reachable, start, next, claimed, at_most_one_live,
  persist_behind_revocation, material_of, claim_of,
}

abbrev login_material : RefreshTokenMaterial
login_material = record {
  token_id = 1;
  session_id = 7;
  family_id = 8;
  org_id = 9;
  user_id = 10;
  token_hash = 100;
  expires_at = 604800000;
}

abbrev token : RefreshToken
token = record {
  token_id = 1;
  session_id = 7;
  family_id = 8;
  org_id = 9;
  user_id = 10;
  token_hash = 100;
  expires_at = 604800000;
  used_at = none;
  revoked_at = none;
  replaced_by_token_id = none;
}

abbrev answers : RefreshAnswers
answers = record {
  find_fails = false;
  claim_fails = false;
  load_fails = false;
  organisation_active = true;
  user_active = true;
  persist_fails = false;
  sign_fails = false;
  revoke_fails = false;
  new_id = 2;
  new_hash = 200;
  ttl_days = 7;
  now = 1000;
}

abbrev later_answers : RefreshAnswers
later_answers = record answers { now = 60000 }

abbrev logged_in : System
logged_in = record { store = token ∷ []; found = []; in_flight = [] }

abbrev read : System
read = record { store = token ∷ []; found = token ∷ []; in_flight = [] }

abbrev in_flight : System
in_flight = claimed token (create_refresh_token_material 7 2 200 token 1000) 1000 read

in_flight-Reachable : Reachable in_flight
unfolding find_refresh_token_by_hash check_token persist_refresh_token
in_flight-Reachable =
    let first : Reachable logged_in = next start (logs_in login_material (refl, refl) tt) in
    let second : Reachable read = next first (finds 100 1000 token refl refl) in
    next second (claims 0 token 7 2 200 1000 refl)

at_most_one_live_example : live 8 in_flight.store + pending 8 in_flight.in_flight ≤ 1
at_most_one_live_example = at_most_one_live in_flight-Reachable 8

rotated : (refresh_session answers 100 (token ∷ [])).0 ≡ ok 200
unfolding refresh_session rotate finish_rotation find_refresh_token_by_hash check_token
    create_refresh_token_material claim_refresh_token_for_rotation persist_refresh_token
rotated = refl

refresh_session_replay_example :
    let ts' = (refresh_session answers 100 (token ∷ [])).1 in
    let (r, after) = refresh_session later_answers 100 ts' in
    (t : RefreshToken) × (find_refresh_token_by_hash 100 (token ∷ []) ≡ some t)
    × ((60000 ≤ 1000 + refresh_concurrency_grace_ms)
        → (r ≡ err refresh_concurrency) × (after ≡ ts'))
    × ((1000 + refresh_concurrency_grace_ms < 60000)
        → (r ≡ err invalid_refresh_token)
          × (false ≡ false → All (IsOfSession t) ts' → live t.family_id after ≡ 0))
refresh_session_replay_example =
    refresh_session_replay answers later_answers 100 200 (token ∷ []) (tt, tt) rotated refl

token_claimed : (claim_of answers token (token ∷ [])).0 ≡ true
unfolding claim_refresh_token_for_rotation
token_claimed = refl

token_is_new : is_duplicate (material_of answers token) (token ∷ []) ≡ false
unfolding create_refresh_token_material
token_is_new = refl

persist_behind_revocation_example :
    let claimed = (claim_of answers token (token ∷ [])).1 in
    let revoked = revoke_refresh_token_family token 2000 claimed in
    let (r, after) = finish_rotation answers token (material_of answers token) revoked in
    (rotate answers token (token ∷ [])
      ≡ finish_rotation answers token (material_of answers token) claimed)
    × (r ≡ ok 200)
    × (live 8 after ≡ 1 + live 8 revoked)
persist_behind_revocation_example =
    persist_behind_revocation answers token 2000 (token ∷ []) (refl, refl, refl, refl, refl) refl
      token_claimed token_is_new

-- An inactive user with the right password.
abbrev suspended_answers : LoginAnswers
suspended_answers = record {
  find_organisation = ok (some (record { org_id = 9; active = true }));
  find_user = ok (some (record { user_id = 10; password_hash = some 5; active = false }));
  verify_password = λ hash. ok (hash == 5);
  dummy_fails = false;
  create_initial_material = λ org user. login_material;
  persist_fails = false;
  sign_fails = false;
}

login-TellsNothing_example : TellsNothing false (login suspended_answers)
login-TellsNothing_example = login-TellsNothing suspended_answers refl refl (λ hash. refl) refl
