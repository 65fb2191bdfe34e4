-- ===== src/Chat/History.antt =====
-- chat-context.ts: what of a conversation the provider receives.
use mathlib.Core.List.{reverse-cons, reverse-append, reverse-reverse}
use proxy_ai.Base.{
  ℕ, ◌+◌, ◌≤◌, ◌<◌, ◌≡◌, refl, sym, ap, ◌∙◌, ◌⊎◌, inl, inr, Option, List, [], ◌∷◌, ◌++◌, reverse,
  Bool-cases, ltb, arith,
}
use proxy_ai.Chat.{
  RetainedConversationMessage, ProviderMessage, MessagePair, pair_messages_by_request,
  estimate_message_tokens, pair_token_count, approve_pairs, select_pairs, flatten, token_limit,
  build_bounded_provider_history,
}

abbrev pub total_tokens : List ProviderMessage → ℕ
total_tokens [] = 0
total_tokens (m ∷ ms) = estimate_message_tokens m + total_tokens ms

total_tokens-flatten-append :
    (ps qs : List MessagePair)
    → total_tokens (flatten (ps ++ qs)) ≡ total_tokens (flatten ps) + total_tokens (flatten qs)
total_tokens-flatten-append [] qs = omega arith
total_tokens-flatten-append ((u, a) ∷ ps) qs = omega (arith, total_tokens-flatten-append ps qs)

total_tokens-flatten-reverse :
    (ps : List MessagePair) → total_tokens (flatten (reverse ps)) ≡ total_tokens (flatten ps)
total_tokens-flatten-reverse [] = refl
total_tokens-flatten-reverse ((u, a) ∷ ps) =
    ap (λ xs. total_tokens (flatten xs)) (reverse-cons (u, a) ps)
    ∙ total_tokens-flatten-append (reverse ps) ((u, a) ∷ [])
    ∙ omega (arith, total_tokens-flatten-reverse ps)

-- The pairs that are selected are the first ones, within the limit, and the next one exceeds it.
IsSelected : ℕ → ℕ → List MessagePair → List MessagePair → Type 0
IsSelected limit count ps selected =
    (rest : List MessagePair) × (ps ≡ selected ++ rest)
    × (count + total_tokens (flatten selected) ≤ limit)
    × ((rest ≡ [])
        ⊎ ((p : MessagePair) × (later : List MessagePair) × (rest ≡ p ∷ later)
            × (limit < count + total_tokens (flatten selected) + pair_token_count p)))

IsSelected-none : (limit count : ℕ) → count ≤ limit → IsSelected limit count [] []
unfolding IsSelected
IsSelected-none limit count h = ([], refl, omega arith, inl refl)

IsSelected-nil :
    (limit count : ℕ) (p : MessagePair) (ps : List MessagePair)
    → count ≤ limit
    → limit < count + pair_token_count p
    → IsSelected limit count (p ∷ ps) []
unfolding IsSelected
IsSelected-nil limit count p ps h over = (p ∷ ps, refl, omega arith, inr (p, ps, refl, omega arith))

IsSelected-cons :
    (limit count : ℕ) (p : MessagePair) (ps selected : List MessagePair)
    → IsSelected limit (count + pair_token_count p) ps selected
    → IsSelected limit count (p ∷ ps) (p ∷ selected)
unfolding IsSelected
IsSelected-cons limit count p ps selected (rest, split, fits, inl none_left) =
    (rest, ap (λ xs. p ∷ xs) split, omega arith, inl none_left)
IsSelected-cons limit count p ps selected (rest, split, fits, inr (q, later, next, over)) =
    (rest, ap (λ xs. p ∷ xs) split, omega arith, inr (q, later, next, omega arith))

select_pairs-IsSelected :
    (limit count : ℕ) (ps : List MessagePair)
    → count ≤ limit
    → IsSelected limit count ps (select_pairs limit count ps)
unfolding select_pairs
select_pairs-IsSelected limit count [] h = IsSelected-none limit count h
select_pairs-IsSelected limit count (p ∷ ps) h =
    elim (Bool-cases (ltb limit (count + pair_token_count p))) [
      | inl e ↦ rw (e, select_pairs) (IsSelected-nil limit count p ps h (ground arith))
      | inr e ↦
          rw (e, select_pairs)
            (IsSelected-cons limit count p ps _
              (select_pairs-IsSelected limit (count + pair_token_count p) ps (ground arith)))
    ]

-- The history is the messages of the most recent approved pairs, in their order and each pair
-- complete: their estimated tokens are within the limit, and either all approved pairs are there or
-- the next older one would exceed the limit.
pub history_recent :
    (messages : List RetainedConversationMessage) (sanitize : List ℕ → Option (List ℕ))
    (limit : Option ℕ)
    → (older : List MessagePair) × (recent : List MessagePair) × (approve_pairs sanitize
          (pair_messages_by_request [] messages)
        ≡ older ++ recent)
      × (build_bounded_provider_history messages sanitize limit ≡ flatten recent)
      × (total_tokens (flatten recent) ≤ token_limit limit)
      × ((older ≡ [])
          ⊎ ((p : MessagePair) × (earlier : List MessagePair) × (older ≡ earlier ++ p ∷ [])
              × (token_limit limit < total_tokens (flatten recent) + pair_token_count p)))
unfolding build_bounded_provider_history IsSelected
history_recent messages sanitize limit =
    let approved = approve_pairs sanitize (pair_messages_by_request [] messages) in
    let selected = select_pairs (token_limit limit) 0 (reverse approved) in
    let (rest, split, fits, why) =
      select_pairs-IsSelected (token_limit limit) 0 (reverse approved) (omega arith) in
    let size = total_tokens-flatten-reverse selected in
    (
      reverse rest,
      reverse selected,
      sym (reverse-reverse approved) ∙ ap reverse split ∙ reverse-append selected rest,
      refl,
      omega arith,
      elim why [
        | inl gone ↦ inl (ap reverse gone)
        | inr (p, later, next, over) ↦
            inr (p, reverse later, ap reverse next ∙ reverse-cons p later, omega arith)
      ],
    )
