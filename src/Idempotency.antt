-- ===== src/Idempotency.antt =====
-- shared/idempotency/idempotency.service.ts: a request is executed at most once for each key.
-- Redis is a record of the commands that the three scripts call; a script runs as one step. A key
-- is what `deriveIdempotencyKey` makes of the ids with HMAC; times and metrics are left out.
pub mod Calls
pub mod Keys
pub mod Once
mod Tests
use Prim.Native.String.{String}
use text.Mathlib.Text.{◌==◌ as str_eq}
use proxy_ai.Base.{
  ℕ, Bool, true, false, ◌&&◌, ◌||◌, not, Option, none, some, List, [], ◌∷◌, Result, ok, err, leb,
  ◌==◌, if◌then◌else◌, length, ◌≡◌, ◌≢◌,
}

pub data RecordStatus : Type 0 where
  processing completed : RecordStatus

-- A fingerprint is a list of code units.
pub record IdempotencyRecord : Type 0 where
  pub status : RecordStatus
  pub request_id : String
  pub request_fingerprint : List ℕ

-- What a key may hold: a record, a text that is no JSON, or JSON of another shape, which neither
-- the schema nor the scripts' test of status and request accept. The text RESERVED, which the reply of
-- a reservation could not be told from, is none of these: no script writes it.
pub data Stored : Type 0 where
  record_value : IdempotencyRecord → Stored
  not_json : Stored
  other_json : Stored

abbrev pub is_hex : ℕ → Bool
is_hex c = leb b'0' c && leb c b'9' || leb b'a' c && leb c b'f'

abbrev pub all_hex : List ℕ → Bool
all_hex [] = true
all_hex (c ∷ cs) = is_hex c && all_hex cs

-- `requestFingerprintSchema`: 64 lower-case hexadecimal digits.
pub is_request_fingerprint : List ℕ → Bool
is_request_fingerprint f = length f == 64 && all_hex f

-- On two such texts the comparison of the decoded bytes is that of the texts.
pub request_fingerprints_match : List ℕ → List ℕ → Bool
request_fingerprints_match [] [] = true
request_fingerprints_match [] (d ∷ ds) = false
request_fingerprints_match (c ∷ cs) [] = false
request_fingerprints_match (c ∷ cs) (d ∷ ds) = c == d && request_fingerprints_match cs ds

-- The commands that the scripts call, on a store of type `Store`.
pub record Redis : Type 1 where
  pub Store : Type 0
  pub get : String → Store → Option Stored
  pub set_nx_ex : String → Stored → ℕ → Store → Bool × Store
  pub set_xx_ex : String → Stored → ℕ → Store → Store
  pub del : String → Store → Store

-- How the connection behaves at a call: it works, it fails before the script runs, or the reply is
-- lost after the script ran.
pub data Link : Type 0 where
  works fails_before fails_after : Link

pub data IdempotencyError : Type 0 where
  duplicate_request request_in_progress idempotency_unavailable schema_error : IdempotencyError

pub record ReserveInput : Type 0 where
  pub key : String
  pub request_id : String
  pub request_fingerprint : List ℕ

pub record Reservation : Type 0 where
  pub key : String
  pub request_id : String
  pub request_fingerprint : List ℕ
  pub provider_execution_started : Bool

-- The replies of the scripts.
pub data ReserveReply : Type 0 where
  reserved : ReserveReply
  taken : Stored → ReserveReply
  -- `GET` found nothing behind a failed `SET NX`.
  vanished : ReserveReply

-- `status ~= "PROCESSING" or requestId ~= ARGV[1]`, negated.
abbrev pub is_own_processing : String → IdempotencyRecord → Bool
is_own_processing id r = elim r.status [ processing ↦ str_eq r.request_id id | completed ↦ false ]

abbrev pub evaluate {ℓ} : {A : Type ℓ} {S : Type 0} → Link → (S → A × S) → S → Option A × S
evaluate works script s = let (a, s') = script s in (some a, s')
evaluate fails_before script s = (none, s)
evaluate fails_after script s = let (a, s') = script s in (none, s')

-- What `reserve` throws where the key is taken by a record.
abbrev pub refusal : IdempotencyRecord → List ℕ → IdempotencyError
refusal r fingerprint =
    if not (request_fingerprints_match r.request_fingerprint fingerprint)
    then duplicate_request
    else elim r.status [ processing ↦ request_in_progress | completed ↦ duplicate_request ]

abbrev pub new_reservation : ReserveInput → Reservation
new_reservation i = record {
  key = i.key;
  request_id = i.request_id;
  request_fingerprint = i.request_fingerprint;
  provider_execution_started = false;
}

abbrev pub reserve_reply : ReserveInput → Option ReserveReply → Result IdempotencyError Reservation
reserve_reply i none = err idempotency_unavailable
reserve_reply i (some reserved) = ok (new_reservation i)
reserve_reply i (some vanished) = err idempotency_unavailable
reserve_reply i (some (taken not_json)) = err idempotency_unavailable
reserve_reply i (some (taken other_json)) = err idempotency_unavailable
reserve_reply i (some (taken (record_value r))) = err (refusal r i.request_fingerprint)

abbrev pub processing_record : ReserveInput → Stored
processing_record i = record_value (record {
  status = processing;
  request_id = i.request_id;
  request_fingerprint = i.request_fingerprint;
})

abbrev pub completed_record : Reservation → Stored
completed_record r = record_value (record {
  status = completed;
  request_id = r.request_id;
  request_fingerprint = r.request_fingerprint;
})

pub mark_provider_execution_started : Reservation → Reservation
mark_provider_execution_started r = record r { provider_execution_started = true }

-- `Number(result) !== 1`, or a failed call.
abbrev pub expect_one : Option Bool → Result IdempotencyError (Unit {0})
expect_one (some true) = ok tt
expect_one (some false) = err idempotency_unavailable
expect_one none = err idempotency_unavailable

module _ (redis : Redis) (processing_ttl completed_ttl : ℕ) where
  open redis use {Store, get, set_nx_ex, set_xx_ex, del}

  pub reserve_script : String → Stored → Store → ReserveReply × Store
  reserve_script key value s =
      let (inserted, s') = set_nx_ex key value processing_ttl s in
      if inserted
      then (reserved, s')
      else (elim (get key s') [ none ↦ vanished | some v ↦ taken v ], s')

  -- `true` is the reply 1; the replies 0 and -1 have one effect.
  pub complete_script : String → String → Stored → Store → Bool × Store
  complete_script key id value s = elim (get key s) [
    | none ↦ (false, s)
    | some v ↦ elim v [
      | record_value r ↦
          if is_own_processing id r then (true, set_xx_ex key value completed_ttl s) else (false, s)
      | not_json ↦ (false, s)
      | other_json ↦ (false, s)
    ]
  ]

  pub release_script : String → String → Store → Bool × Store
  release_script key id s = elim (get key s) [
    | none ↦ (false, s)
    | some v ↦ elim v [
      | record_value r ↦ if is_own_processing id r then (true, del key s) else (false, s)
      | not_json ↦ (false, s)
      | other_json ↦ (false, s)
    ]
  ]

  pub reserve : Link → ReserveInput → Store → Result IdempotencyError Reservation × Store
  reserve link i s =
      if not (is_request_fingerprint i.request_fingerprint) || str_eq i.request_id ""
      then (err schema_error, s)
      else (let (reply, s') = evaluate link (reserve_script i.key (processing_record i)) s in
          (reserve_reply i reply, s'))

  pub mark_completed : Link → Reservation → Store → Result IdempotencyError (Unit {0}) × Store
  mark_completed link r s =
      let (reply, s') = evaluate link (complete_script r.key r.request_id (completed_record r)) s in
      (expect_one reply, s')

  pub release_before_execution :
      Link → Reservation → Store → Result IdempotencyError (Unit {0}) × Store
  release_before_execution link r s =
      if r.provider_execution_started
      then (err idempotency_unavailable, s)
      else (let (reply, s') = evaluate link (release_script r.key r.request_id) s in
          (expect_one reply, s'))
