-- ===== src/Chat/Pairs.antt =====
-- chat-context.ts: how the messages of a conversation are paired by their requests.
use Prim.Native.String.{String}
use text.Mathlib.Text.{◌==◌ as str_eq}
use text.Mathlib.TextEquality.{eq_iff}
use proxy_ai.Base.{
  ℕ, ◌≡◌, ◌≢◌, refl, sym, ap, ◌∙◌, inl, inr, Option, none, some, List, [], ◌∷◌, All, subst,
  if◌then◌else◌, Bool-cases, arith,
}
use proxy_ai.Base.Sorting.{Ordered}
use proxy_ai.Chat.{
  user, RetainedConversationMessage, HistoryPair, add_message, empty_pair, put_message,
  pair_messages_by_request,
}

-- The contents of the last messages of a request, by the user and by the assistant.
abbrev pub Contents : Type 0
Contents = Option (List ℕ) × Option (List ℕ)

abbrev pub with_content : RetainedConversationMessage → Contents → Contents
with_content m (u, a) = elim m.role [ user ↦ (some m.content, a) | _ ↦ (u, some m.content) ]

abbrev pub last_contents : String → Contents → List RetainedConversationMessage → Contents
last_contents id c [] = c
last_contents id c (m ∷ ms) =
    last_contents id (if str_eq m.request_id id then with_content m c else c) ms

-- What the pair of a request holds; nothing where there is none.
abbrev pub contents_of : String → List HistoryPair → Contents
contents_of id [] = (none, none)
contents_of id (p ∷ ps) =
    if str_eq p.request_id id then (p.user_content, p.assistant_content) else contents_of id ps

contents_of-put_message :
    (id : String) (m : RetainedConversationMessage) (ps : List HistoryPair)
    → contents_of id (put_message m ps)
      ≡ (if str_eq m.request_id id then with_content m (contents_of id ps) else contents_of id ps)
unfolding put_message
contents_of-put_message id m [] = ground arith
contents_of-put_message id m (p ∷ ps) = elim (Bool-cases (str_eq p.request_id m.request_id)) [
  | inl e ↦
      let same = (eq_iff p.request_id m.request_id).0 e in
      let key : str_eq p.request_id id ≡ str_eq m.request_id id = ap (λ j. str_eq j id) same in
      ground arith
  | inr e ↦
      let ih = contents_of-put_message id m ps in
      elim (Bool-cases (str_eq p.request_id id)) [
        | inr f ↦ ground arith
        | inl f ↦ elim (Bool-cases (str_eq m.request_id id)) [
          | inr g ↦ ground arith
          | inl g ↦
              let same =
                (eq_iff p.request_id m.request_id).1
                  ((eq_iff p.request_id id).0 f ∙ sym ((eq_iff m.request_id id).0 g)) in
              absurd (ground arith)
        ]
      ]
]

contents_of-pair_messages :
    (id : String) (pairs : List HistoryPair) (ms : List RetainedConversationMessage)
    → contents_of id (pair_messages_by_request pairs ms)
      ≡ last_contents id (contents_of id pairs) ms
unfolding pair_messages_by_request
contents_of-pair_messages id pairs [] = refl
contents_of-pair_messages id pairs (m ∷ ms) =
    contents_of-pair_messages id (put_message m pairs) ms
    ∙ ap (λ c. last_contents id c ms) (contents_of-put_message id m pairs)

IsApart : String → List HistoryPair → Type 0
IsApart id ps = All (λ p. id ≢ p.request_id) ps

add_message-request_id :
    (m : RetainedConversationMessage) (p : HistoryPair)
    → (add_message m p).request_id ≡ p.request_id
add_message-request_id m p = ground arith

put_message-IsApart :
    (id : String) (m : RetainedConversationMessage) (ps : List HistoryPair)
    → id ≢ m.request_id
    → IsApart id ps
    → IsApart id (put_message m ps)
unfolding put_message IsApart
put_message-IsApart id m [] ne h =
    ((λ same. ne (same ∙ add_message-request_id m (empty_pair m.request_id))), tt)
put_message-IsApart id m (p ∷ ps) ne h = elim (Bool-cases (str_eq p.request_id m.request_id)) [
  | inl e ↦ rw (e, put_message) ((λ same. h.0 (same ∙ add_message-request_id m p)), h.1)
  | inr e ↦ let ih = put_message-IsApart id m ps ne h.1 in rw (e, put_message) (h.0, ih)
]

put_message-Ordered :
    (m : RetainedConversationMessage) (ps : List HistoryPair)
    → Ordered (λ p q. p.request_id ≢ q.request_id) ps
    → Ordered (λ p q. p.request_id ≢ q.request_id) (put_message m ps)
unfolding put_message IsApart
put_message-Ordered m [] h = (tt, tt)
put_message-Ordered m (p ∷ ps) h = elim (Bool-cases (str_eq p.request_id m.request_id)) [
  | inl e ↦
      rw (e, put_message) (subst (λ id. IsApart id ps) (sym (add_message-request_id m p)) h.0, h.1)
  | inr e ↦
      rw (e, put_message)
        (
          put_message-IsApart p.request_id m ps
              (λ same. let t = (eq_iff p.request_id m.request_id).1 same in absurd (ground arith))
              h.0,
          put_message-Ordered m ps h.1,
        )
]

pair_messages-Ordered :
    (pairs : List HistoryPair) (ms : List RetainedConversationMessage)
    → Ordered (λ p q. p.request_id ≢ q.request_id) pairs
    → Ordered (λ p q. p.request_id ≢ q.request_id) (pair_messages_by_request pairs ms)
unfolding pair_messages_by_request
pair_messages-Ordered pairs [] h = h
pair_messages-Ordered pairs (m ∷ ms) h =
    pair_messages-Ordered (put_message m pairs) ms (put_message-Ordered m pairs h)

-- There is at most one pair for a request, and it holds the content of the last message that the
-- user sent for that request and of the last one of the assistant, in whatever order they came.
pub pair_messages_lasts :
    (id : String) (ms : List RetainedConversationMessage)
    → Ordered (λ p q. p.request_id ≢ q.request_id) (pair_messages_by_request [] ms)
      × (contents_of id (pair_messages_by_request [] ms) ≡ last_contents id (none, none) ms)
pair_messages_lasts id ms = (pair_messages-Ordered [] ms tt, contents_of-pair_messages id [] ms)
