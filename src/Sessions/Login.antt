-- ===== src/Sessions/Login.antt =====
-- auth.service.ts: `login`. The calls that matter are listed, the newest first; the log and the audit,
-- which never change how a login ends, are left out. A hash is a number, an empty one is none.
use proxy_ai.Base.{
  ℕ, ◌+◌, ◌≡◌, Bool, true, false, ◌&&◌, not, Option, none, some, List, [], ◌∷◌, Result, ok, err,
  if◌then◌else◌, arith, inl, inr, Option-cases, Result-cases,
}
use proxy_ai.Sessions.{RefreshTokenMaterial}

pub record LoginOrganisation : Type 0 where
  pub org_id : ℕ
  pub active : Bool

pub record LoginUser : Type 0 where
  pub user_id : ℕ
  pub password_hash : Option ℕ
  pub active : Bool

pub data LoginError : Type 0 where
  invalid_credentials dependency_unavailable internal_error : LoginError

pub data LoginCall : Type 0 where
  verifies_password : ℕ → LoginCall
  verifies_dummy increments_failures signs_token records_success : LoginCall
  persists_token : RefreshTokenMaterial → LoginCall

-- What the outside answers: the database, the check of a password against a hash, which throws for an
-- invalid hash, the material that is drawn for the token, and the signing.
pub record LoginAnswers : Type 0 where
  pub find_organisation : Result (Unit {0}) (Option LoginOrganisation)
  pub find_user : Result (Unit {0}) (Option LoginUser)
  pub verify_password : ℕ → Result (Unit {0}) Bool
  pub dummy_fails : Bool
  pub create_initial_material : ℕ → ℕ → RefreshTokenMaterial
  pub persist_fails : Bool
  pub sign_fails : Bool

abbrev pub LoginRun : Type 0
LoginRun = Result LoginError RefreshTokenMaterial × List LoginCall

module _ (a : LoginAnswers) where
  -- `performDummyVerification`, and the error behind it.
  pub refuse_behind_dummy : List LoginCall → LoginRun
  refuse_behind_dummy calls =
      if a.dummy_fails
      then (err dependency_unavailable, verifies_dummy ∷ calls)
      else (err invalid_credentials, verifies_dummy ∷ calls)

  -- From the material on. An error of `recordSuccessBestEffort` is swallowed.
  pub issue_tokens : LoginOrganisation → LoginUser → List LoginCall → LoginRun
  issue_tokens organisation user calls =
      let material = a.create_initial_material organisation.org_id user.user_id in
      let persisted = persists_token material ∷ calls in
      if a.persist_fails
      then (err dependency_unavailable, persisted)
      else if a.sign_fails
      then (err internal_error, signs_token ∷ persisted)
      else (ok material, records_success ∷ signs_token ∷ persisted)

  pub check_user : LoginOrganisation → LoginUser → LoginRun
  unfolding refuse_behind_dummy issue_tokens
  check_user organisation user = elim user.password_hash [
    | none ↦ refuse_behind_dummy []
    | some hash ↦ elim (a.verify_password hash) [
      | err e ↦ refuse_behind_dummy (increments_failures ∷ verifies_password hash ∷ [])
      | ok matches ↦
          if not matches
          then (err invalid_credentials, increments_failures ∷ verifies_password hash ∷ [])
          else if not user.active
          then (err invalid_credentials, increments_failures ∷ verifies_password hash ∷ [])
          else issue_tokens organisation user (verifies_password hash ∷ [])
    ]
  ]

  pub login : LoginRun
  unfolding check_user refuse_behind_dummy
  login = elim a.find_organisation [
    | err e ↦ (err dependency_unavailable, [])
    | ok none ↦ refuse_behind_dummy []
    | ok (some organisation) ↦
        if not organisation.active then refuse_behind_dummy [] else elim a.find_user [
          | err e ↦ (err dependency_unavailable, [])
          | ok none ↦ refuse_behind_dummy []
          | ok (some user) ↦ check_user organisation user
        ]
  ]

-- How often a password was checked, which is what takes time.
abbrev pub verifications : List LoginCall → ℕ
verifications [] = 0
verifications (c ∷ calls) =
    (elim c [ verifies_password h ↦ 1 | verifies_dummy ↦ 1 | _ ↦ 0 ]) + verifications calls

abbrev pub stored_tokens : List LoginCall → ℕ
stored_tokens [] = 0
stored_tokens (c ∷ calls) = (elim c [ persists_token m ↦ 1 | _ ↦ 0 ]) + stored_tokens calls

abbrev pub is_entitled_user : LoginAnswers → LoginUser → Bool
is_entitled_user a user = user.active && elim user.password_hash [
  | some hash ↦ elim (a.verify_password hash) [ ok matches ↦ matches | _ ↦ false ]
  | none ↦ false
]

-- Whom the answers entitle to a session: a user with the password, both user and organisation active.
abbrev pub is_entitled : LoginAnswers → Bool
is_entitled a = elim a.find_organisation [
  | ok (some organisation) ↦
      organisation.active
      && elim a.find_user [ ok (some user) ↦ is_entitled_user a user | _ ↦ false ]
  | _ ↦ false
]

abbrev pub is_answered : {A : Type 0} → Result (Unit {0}) A → Bool
is_answered (ok x) = true
is_answered (err e) = false

-- One check of a password, and for who is not entitled the one error and no stored token.
abbrev pub TellsNothing : Bool → LoginRun → Type 0
TellsNothing entitled (r, calls) =
    (verifications calls ≡ 1)
    × (entitled ≡ false → (r ≡ err invalid_credentials) × (stored_tokens calls ≡ 0))

verified_user :
    (a : LoginAnswers) (o : LoginOrganisation) (u : LoginUser) (h : ℕ)
    → u.password_hash ≡ some h
    → is_answered (a.verify_password h) ≡ true
    → TellsNothing (is_entitled_user a u) (check_user a o u)
unfolding check_user issue_tokens
verified_user a o u h has answered = ground arith

check_user-TellsNothing :
    (a : LoginAnswers) (o : LoginOrganisation) (u : LoginUser)
    → ((hash : ℕ) → is_answered (a.verify_password hash) ≡ true)
    → a.dummy_fails ≡ false
    → TellsNothing (is_entitled_user a u) (check_user a o u)
unfolding check_user refuse_behind_dummy
check_user-TellsNothing a o u hash dummy = elim (Option-cases u.password_hash) [
  | inl missing ↦ ground arith
  | inr (h, has) ↦ verified_user a o u h has (hash h)
]

-- If the database answers, no hash is invalid and the dummy check does not fail, then a login checks
-- exactly one password on every path; who is not entitled gets one and the same error, whether the
-- organisation or the user is unknown or inactive or the password is wrong, and no token is stored.
pub login-TellsNothing :
    (a : LoginAnswers)
    → is_answered a.find_organisation ≡ true
    → is_answered a.find_user ≡ true
    → ((hash : ℕ) → is_answered (a.verify_password hash) ≡ true)
    → a.dummy_fails ≡ false
    → TellsNothing (is_entitled a) (login a)
unfolding login refuse_behind_dummy
login-TellsNothing a organisation user hash dummy = elim (Result-cases a.find_organisation) [
  | inr e ↦ ground arith
  | inl (none, e) ↦ ground arith
  | inl (some o, e) ↦ elim (Result-cases a.find_user) [
    | inr f ↦ ground arith
    | inl (none, f) ↦ ground arith
    | inl (some u, f) ↦ let checked = check_user-TellsNothing a o u hash dummy in ground arith
  ]
]
