-- ===== src/Chat/Disclosure.antt =====
-- chat.service.ts: what leaves the service. Of a trace, the calls that give text away: to the
-- provider, to the client and to the store of messages.
use proxy_ai.Base.{Bool, true, false, List, [], ◌∷◌}
use proxy_ai.Chat.Trace.{ChatCall, streams, persists_messages, writes, token_event, Trace}

abbrev pub is_disclosure : ChatCall → Bool
is_disclosure (streams messages n) = true
is_disclosure (persists_messages u a) = true
is_disclosure (writes (token_event text)) = true
is_disclosure _ = false

-- The newest first.
abbrev pub disclosures : Trace → List ChatCall
disclosures [] = []
disclosures (e ∷ h) = elim (is_disclosure e.call) [
  | true ↦ e.call ∷ disclosures h
  | false ↦ disclosures h
]
