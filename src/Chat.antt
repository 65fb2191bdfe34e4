-- ===== src/Chat.antt =====
-- chat-context.ts: the history that goes to a provider with a prompt. Texts are lists of UTF-16
-- code units; the sanitizer of user texts is an argument, and hands back nothing for `null`.
pub mod Protocol
pub mod Disclosure
pub mod Trace
pub mod Rules
pub mod Accounting
pub mod Prepare
pub mod Stream
pub mod Pairs
pub mod History
mod Tests
use Prim.Native.String.{String}
use text.Mathlib.Text.{◌==◌ as str_eq}
use proxy_ai.Base.{
  ℕ, ◌+◌, Bool, true, false, ◌&&◌, Option, none, some, List, [], ◌∷◌, ◌++◌, reverse, ltb, leb,
  if◌then◌else◌,
}

pub data Role : Type 0 where
  system user assistant : Role

pub record RetainedConversationMessage : Type 0 where
  pub request_id : String
  pub role : Role
  pub content : List ℕ

pub record ProviderMessage : Type 0 where
  pub role : Role
  pub content : List ℕ

-- The contents of the two messages of a request.
pub record HistoryPair : Type 0 where
  pub request_id : String
  pub user_content : Option (List ℕ)
  pub assistant_content : Option (List ℕ)

abbrev pub max_provider_history_estimated_tokens : ℕ
max_provider_history_estimated_tokens = 4000

abbrev pub add_message : RetainedConversationMessage → HistoryPair → HistoryPair
add_message m p = elim m.role [
  | user ↦ record p { user_content = some m.content }
  | _ ↦ record p { assistant_content = some m.content }
]

abbrev pub empty_pair : String → HistoryPair
empty_pair id = record { request_id = id; user_content = none; assistant_content = none }

-- A `Map` from request ids to pairs keeps the order in which its keys came.
pub put_message : RetainedConversationMessage → List HistoryPair → List HistoryPair
put_message m [] = add_message m (empty_pair m.request_id) ∷ []
put_message m (p ∷ ps) =
    let rest = put_message m ps in
    if str_eq p.request_id m.request_id then add_message m p ∷ ps else p ∷ rest

pub pair_messages_by_request :
    List HistoryPair → List RetainedConversationMessage → List HistoryPair
unfolding put_message
pair_messages_by_request pairs [] = pairs
pair_messages_by_request pairs (m ∷ ms) = pair_messages_by_request (put_message m pairs) ms

-- `Buffer.byteLength` in UTF-8: a high surrogate before a low one makes 4 bytes with it, and one
-- alone is written as the replacement character of 3 bytes.
abbrev pub is_high_surrogate : ℕ → Bool
is_high_surrogate c = leb 55296 c && ltb c 56320

abbrev pub is_low_surrogate : ℕ → Bool
is_low_surrogate c = leb 56320 c && ltb c 57344

abbrev pub bytes_of_unit : ℕ → ℕ
bytes_of_unit c = if ltb c 128 then 1 else if ltb c 2048 then 2 else 3

pub byte_length : Bool → List ℕ → ℕ
byte_length after_high [] = 0
byte_length after_high (c ∷ cs) =
    let rest = byte_length (is_high_surrogate c) cs in
    if after_high && is_low_surrogate c then 1 + rest else bytes_of_unit c + rest

pub estimate_message_tokens : ProviderMessage → ℕ
unfolding byte_length
estimate_message_tokens m = byte_length false m.content + 4

-- A pair that is approved: the user's message and the assistant's.
abbrev pub MessagePair : Type 0
MessagePair = ProviderMessage × ProviderMessage

abbrev pub pair_token_count : MessagePair → ℕ
pair_token_count (u, a) = estimate_message_tokens u + estimate_message_tokens a

abbrev pub approve_pair : (List ℕ → Option (List ℕ)) → HistoryPair → Option MessagePair
approve_pair sanitize p = elim p.user_content [
  | none ↦ none
  | some u ↦ elim p.assistant_content [
    | none ↦ none
    | some a ↦ elim (sanitize u) [
      | none ↦ none
      | some approved ↦
          some
            (record { role = user; content = approved }, record { role = assistant; content = a })
    ]
  ]
]

abbrev pub cons_some : {A : Type 0} → Option A → List A → List A
cons_some none xs = xs
cons_some (some x) xs = x ∷ xs

-- The `flatMap` over the pairs.
pub approve_pairs : (List ℕ → Option (List ℕ)) → List HistoryPair → List MessagePair
approve_pairs sanitize [] = []
approve_pairs sanitize (p ∷ ps) = cons_some (approve_pair sanitize p) (approve_pairs sanitize ps)

-- The loop over the pairs from the last to the first, with its `break`.
pub select_pairs : ℕ → ℕ → List MessagePair → List MessagePair
select_pairs max_tokens count [] = []
select_pairs max_tokens count (p ∷ ps) =
    let rest = select_pairs max_tokens (count + pair_token_count p) ps in
    if ltb max_tokens (count + pair_token_count p) then [] else p ∷ rest

abbrev pub flatten : List MessagePair → List ProviderMessage
flatten [] = []
flatten ((u, a) ∷ ps) = u ∷ a ∷ flatten ps

abbrev pub token_limit : Option ℕ → ℕ
token_limit none = max_provider_history_estimated_tokens
token_limit (some n) = n

pub build_bounded_provider_history :
    List RetainedConversationMessage → (List ℕ → Option (List ℕ)) → Option ℕ → List ProviderMessage
unfolding pair_messages_by_request approve_pairs select_pairs
build_bounded_provider_history messages sanitize max_estimated_tokens =
    let approved = approve_pairs sanitize (pair_messages_by_request [] messages) in
    flatten (reverse (select_pairs (token_limit max_estimated_tokens) 0 (reverse approved)))
