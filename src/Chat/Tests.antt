-- ===== src/Chat/Tests.antt =====
-- chat-context.ts: the theorems on the history, on a short conversation.

use proxy_ai.Base.{ℕ, ◌+◌, ◌≤◌, ◌<◌, ◌≡◌, ◌≢◌, none, ◌⊎◌, Option, some, List, [], ◌∷◌, ◌++◌}
use proxy_ai.Chat.{
  user, assistant, RetainedConversationMessage, MessagePair, pair_messages_by_request,
  pair_token_count, approve_pairs, flatten, build_bounded_provider_history,
}
use proxy_ai.Base.Sorting.{Ordered}
use proxy_ai.Chat.Pairs.{contents_of, last_contents, pair_messages_lasts}
use proxy_ai.Chat.History.{total_tokens, history_recent}

abbrev conversation : List RetainedConversationMessage
conversation =
    record { request_id = "1"; role = user; content = b'a' ∷ b'b' ∷ [] }
    ∷ record { request_id = "1"; role = assistant; content = b'c' ∷ [] }
    ∷ record { request_id = "2"; role = user; content = b'd' ∷ [] }
    ∷ record { request_id = "3"; role = user; content = b'e' ∷ [] }
    ∷ record { request_id = "3"; role = assistant; content = b'f' ∷ [] }
    ∷ []

abbrev keep : List ℕ → Option (List ℕ)
keep text = some text

history_recent_example :
    (older : List MessagePair) × (recent : List MessagePair) × (approve_pairs keep
        (pair_messages_by_request [] conversation)
      ≡ older ++ recent)
    × (build_bounded_provider_history conversation keep (some 15) ≡ flatten recent)
    × (total_tokens (flatten recent) ≤ 15)
    × ((older ≡ [])
        ⊎ ((p : MessagePair) × (earlier : List MessagePair) × (older ≡ earlier ++ p ∷ [])
            × (15 < total_tokens (flatten recent) + pair_token_count p)))
history_recent_example = history_recent conversation keep (some 15)

pair_messages_lasts_example :
    Ordered (λ p q. p.request_id ≢ q.request_id) (pair_messages_by_request [] conversation)
    × (contents_of "2" (pair_messages_by_request [] conversation)
        ≡ last_contents "2" (none, none) conversation)
pair_messages_lasts_example = pair_messages_lasts "2" conversation
