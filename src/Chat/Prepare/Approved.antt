-- ===== src/Chat/Prepare/Approved.antt =====
-- chat.service.ts: which text a provider may see of a text of the user.
use proxy_ai.Base.{
  ℕ, ◌≡◌, ◌<◌, ◌≤◌, refl, sym, subst, false, Option, none, some, List, [], ◌∷◌, ok, Result-cases,
  Option-cases, inl, inr, ◌⊎◌, All, All-suffix, arith,
}
use proxy_ai.Pii.Prompt.{PiiPromptProcessingResult, process_pii_prompt}
use proxy_ai.Pii.Risk.{calculate_pii_risk}
use proxy_ai.Policy.{
  PolicyAction, allow, allow_with_mask, block, PolicyDecision, PolicyEvaluationInput,
  evaluate_policy,
}
use proxy_ai.Policy.Decision.{evaluate_policy-Decided}
use proxy_ai.Billing.{BudgetStatus}
use proxy_ai.Chat.{
  MessagePair, HistoryPair, ProviderMessage, RetainedConversationMessage, approve_pair, cons_some,
  approve_pairs, flatten, user, assistant, pair_messages_by_request, build_bounded_provider_history,
}
use proxy_ai.Chat.History.{history_recent}
use proxy_ai.Chat.Trace.{ChatOrganisationContext, ChatPipelineDependencies}
use proxy_ai.Chat.Prepare.{
  evaluation_input, evaluate_text, approved_text, sanitize_user_content, or_nothing, history_of,
}

action-cases : (a : PolicyAction) → (a ≡ allow) ⊎ ((a ≡ allow_with_mask) ⊎ (a ≡ block))
action-cases allow = inl refl
action-cases allow_with_mask = inr (inl refl)
action-cases block = inr (inr refl)

module _ (deps : ChatPipelineDependencies) (organisation : ChatOrganisationContext)
    (budget : BudgetStatus) where
  -- The budget is not exceeded, and the text is sent as it is below the mask threshold, and masked
  -- from there up to the block threshold.
  abbrev pub MayBeSent : List ℕ → List ℕ → Type 0
  MayBeSent text sent =
      (budget.exceeded ≡ false)
      × (pii : PiiPromptProcessingResult) × (process_pii_prompt text (deps.matches text) ≡ ok pii)
      × (let score = (calculate_pii_risk pii.classification.spans).score in
          ((score < organisation.thresholds.mask_threshold) × (sent ≡ text))
          ⊎ ((organisation.thresholds.mask_threshold ≤ score)
              × (score < organisation.thresholds.block_threshold)
              × (sent ≡ pii.sanitized_prompt)))

  abbrev Allows : PolicyEvaluationInput → PolicyDecision → List ℕ → List ℕ → Type 0
  Allows i d text sent =
      (i.budget_exceeded ≡ false)
      × (((i.score < i.mask_threshold) × (sent ≡ text))
          ⊎ ((i.mask_threshold ≤ i.score)
              × (i.score < i.block_threshold)
              × (sent ≡ i.sanitized_prompt)))

  decision-Allows :
      (i : PolicyEvaluationInput) (d : PolicyDecision) (text sent : List ℕ)
      → evaluate_policy i ≡ ok d
      → approved_text deps d text ≡ some sent
      → Allows i d text sent
  unfolding approved_text
  decision-Allows i d text sent e f =
      let decided = evaluate_policy-Decided i d e in
      let (masks_to, masks_from) = decided.masks in
      let (allows_to, allows_from) = decided.allows in
      let prompt = decided.prompt in
      elim (action-cases d.action) [
        | inl a ↦ ground arith
        | inr (inl a) ↦ ground arith
        | inr (inr a) ↦ ground arith
      ]

  pub approved_text-MayBeSent :
      (text : List ℕ) (d : PolicyDecision) (sent : List ℕ)
      → evaluate_text deps organisation budget text ≡ ok d
      → approved_text deps d text ≡ some sent
      → MayBeSent text sent
  unfolding evaluate_text
  approved_text-MayBeSent text d sent e f =
      elim (Result-cases (process_pii_prompt text (deps.matches text))) [
        | inr (x, bad) ↦ ground arith
        | inl (pii, good) ↦
            let i : PolicyEvaluationInput = evaluation_input organisation budget pii in
            let (within, how) = decision-Allows i d text sent (ground arith) f in
            (within, pii, good, how)
      ]

  -- A message of the history: a user's one may be sent for some text.
  abbrev pub IsApproved : ProviderMessage → Type 0
  IsApproved m = elim m.role [ user ↦ (text : List ℕ) × MayBeSent text m.content | _ ↦ Unit {0} ]

  abbrev IsApprovedPair : MessagePair → Type 0
  IsApprovedPair (u, a) = IsApproved u × IsApproved a

  sanitize : List ℕ → Option (List ℕ)
  sanitize text = or_nothing deps (sanitize_user_content deps organisation budget text)

  sanitize-MayBeSent : (text sent : List ℕ) → sanitize text ≡ some sent → MayBeSent text sent
  unfolding sanitize
  sanitize-MayBeSent text sent e =
      elim (Result-cases (evaluate_text deps organisation budget text)) [
        | inr (x, bad) ↦ ground arith
        | inl (d, good) ↦ approved_text-MayBeSent text d sent good (ground arith)
      ]

  approve_pair-IsApproved :
      (p : HistoryPair) (q : MessagePair) → approve_pair sanitize p ≡ some q → IsApprovedPair q
  approve_pair-IsApproved p q e = elim (Option-cases p.user_content) [
    | inl bad ↦ ground arith
    | inr (u, given) ↦ elim (Option-cases p.assistant_content) [
      | inl bad ↦ ground arith
      | inr (a, answered) ↦ elim (Option-cases (sanitize u)) [
        | inl bad ↦ ground arith
        | inr (sent, kept) ↦
            let pair : MessagePair =
              (record { role = user; content = sent }, record { role = assistant; content = a }) in
            let same : pair ≡ q = ground arith in
            subst IsApprovedPair same ((u, sanitize-MayBeSent u sent kept), tt)
      ]
    ]
  ]

  cons_some-All :
      (o : Option MessagePair) (ps : List MessagePair)
      → ((q : MessagePair) → o ≡ some q → IsApprovedPair q)
      → All IsApprovedPair ps
      → All IsApprovedPair (cons_some o ps)
  cons_some-All none ps f h = h
  cons_some-All (some q) ps f h = (f q refl, h)

  approve_pairs-All : (ps : List HistoryPair) → All IsApprovedPair (approve_pairs sanitize ps)
  unfolding approve_pairs
  approve_pairs-All [] = tt
  approve_pairs-All (p ∷ ps) =
      (cons_some-All _ _ (approve_pair-IsApproved p) (approve_pairs-All ps))

  flatten-All : (ps : List MessagePair) → All IsApprovedPair ps → All IsApproved (flatten ps)
  flatten-All [] h = tt
  flatten-All ((u, a) ∷ ps) ((hu, ha), h) = (hu, (ha, flatten-All ps h))

  bounded_history-All :
      (messages : List RetainedConversationMessage)
      → All IsApproved (build_bounded_provider_history messages sanitize none)
  bounded_history-All messages =
      let (older, recent, split, same, fits, why) = history_recent messages sanitize none in
      let approved =
        subst (All IsApprovedPair) split
          (approve_pairs-All (pair_messages_by_request [] messages)) in
      subst (All IsApproved) (sym same)
        (flatten-All recent (All-suffix IsApprovedPair older recent approved))

  pub history_of-All :
      (messages : List RetainedConversationMessage) (history : List ProviderMessage)
      → history_of deps organisation budget messages ≡ ok history
      → All IsApproved history
  unfolding history_of sanitize
  history_of-All messages history e =
      let same : build_bounded_provider_history messages sanitize none ≡ history = ground arith in
      subst (All IsApproved) same (bounded_history-All messages)
