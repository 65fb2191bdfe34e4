-- ===== src/Chat/Prepare/Original.antt =====
-- chat.service.ts: the prompt that a stream keeps for the store of messages.
use proxy_ai.Base.{
  ℕ, ◌≡◌, refl, subst, List, Result, ok, err, Result-cases, Option-cases, inl, inr, arith,
}
use proxy_ai.Policy.{PolicyDecision}
use proxy_ai.Billing.{BudgetStatus}
use proxy_ai.Chat.Trace.{
  asserts_owner, loads_organisation, reserves, Trace, ChatStreamRequest, ChatOrganisationContext,
  StreamChunk, ChatPipelineDependencies, perform, catch,
}
use proxy_ai.Chat.Rules.{bind_rule, catch_rule}
use proxy_ai.Chat.Accounting.{PreparedChatStream}
use proxy_ai.Chat.Prepare.{
  decide, start_stream, accept, approved_text, try_prepare, on_failure, assert_routing_allowed,
  prepare_chat_stream,
}
use proxy_ai.Chat.Prepare.Discloses.{on_failure_throws}

-- The prompt that is kept, or the given one behind an error.
abbrev pub original_of :
    {E : Type 0} → List ℕ → Result E (PreparedChatStream × StreamChunk) → List ℕ
original_of prompt (ok (prepared, chunk)) = prepared.original_user_content
original_of prompt (err e) = prompt

module _ (deps : ChatPipelineDependencies) (request : ChatStreamRequest) where
  abbrev Keeps : {E : Type 0} → Result E (PreparedChatStream × StreamChunk) → Trace → Type 0
  Keeps r h = original_of request.prompt r ≡ request.prompt

  accept-Keeps :
      (organisation : ChatOrganisationContext) (d : PolicyDecision) (budget : BudgetStatus)
      (approved : List ℕ) (h : Trace)
      → Keeps (accept deps request organisation d budget approved h).0 h
  unfolding accept start_stream
  accept-Keeps organisation d budget approved h = ground arith

  try_prepare-Keeps :
      (organisation : ChatOrganisationContext) (h : Trace)
      → Keeps (try_prepare deps request organisation h).0 h
  unfolding try_prepare
  try_prepare-Keeps organisation h =
      let (r₁, h₁) = decide deps request organisation h in
      elim (Result-cases r₁) [
        | inr (x, bad) ↦ ground arith
        | inl ((d, budget), good) ↦ elim (Option-cases (approved_text deps d request.prompt)) [
          | inl none_left ↦ ground arith
          | inr (approved, given) ↦ ground (arith, accept-Keeps organisation d budget approved h₁)
        ]
      ]

  caught-Keeps :
      (organisation : ChatOrganisationContext) (h : Trace)
      → Keeps (catch (try_prepare deps request organisation) (on_failure deps) h).0 h
  caught-Keeps organisation h =
      let keeps = try_prepare-Keeps organisation h in
      catch_rule Keeps (try_prepare deps request organisation) (on_failure deps) h
        (λ a good. subst (λ r. Keeps r h) good keeps)
        λ (p, x) bad.
          ground (arith, on_failure_throws deps p x (try_prepare deps request organisation h).1)

  pub prepare_chat_stream-original :
      (h : Trace)
      → original_of request.prompt (prepare_chat_stream deps request h).0 ≡ request.prompt
  unfolding prepare_chat_stream
  prepare_chat_stream-original h =
      bind_rule Keeps (perform asserts_owner deps.assert_conversation_owner) _ h (λ x bad. refl)
        λ u owner.
          bind_rule Keeps (perform loads_organisation deps.load_organisation_context) _ _
            (λ x bad. refl)
            λ organisation loaded.
              bind_rule Keeps (assert_routing_allowed request organisation) _ _ (λ x bad. refl)
                λ v allowed.
                  bind_rule Keeps (perform reserves deps.reserve) _ _ (λ x bad. refl)
                    λ w reserved. caught-Keeps organisation _
