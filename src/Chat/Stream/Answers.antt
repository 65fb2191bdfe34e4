-- ===== src/Chat/Stream/Answers.antt =====
-- chat.controller.ts: the answer that is stored is the one that the client was sent.
use mathlib.Core.List.{append-nil, append_assoc}
use proxy_ai.Base.{
  ℕ, ◌≡◌, refl, sym, subst, ap, ◌∙◌, true, ◌||◌, Option, none, some, List, [], ◌∷◌, ◌++◌, Result,
  ok, Result-cases, Bool-cases, inl, inr, ◌⊎◌, arith,
}
use proxy_ai.Chat.Trace.{
  Failure, completed_request, interrupted_request, TokenUsage, ChatCall, writes, token_event,
  persists_messages, reads_chunk, Trace, ChatStreamRequest, StreamChunk, token, finished,
  ChatPipelineDependencies, is_ok,
}
use proxy_ai.Chat.Rules.{bind_rule, catch_rule, either_rule}
use proxy_ai.Chat.Disclosure.{disclosures}
use proxy_ai.Chat.Accounting.{PreparedChatStream, finalize_chat_stream}
use proxy_ai.Chat.Accounting.Discloses.{
  finalize_chat_stream-Stores, finalize_chat_stream-disclosures,
}
use proxy_ai.Chat.Prepare.{prepare_chat_stream}
use proxy_ai.Chat.Prepare.Sends.{Sends, Governs, prepare_chat_stream-Sends}
use proxy_ai.Chat.Prepare.Original.{original_of, prepare_chat_stream-original}
use proxy_ai.Chat.Stream.{
  ChatConnection, StreamStage, before_headers, streaming, accounting, LoopEnd, answered, broken,
  broken_status, at_stage, write_initial_events, stream_chunks, after_chunks, stream_answer,
  try_stream, write_error, on_stream_failure, stream_chat,
}

-- The texts, the first one first, written behind what was given away before.
abbrev pub written : List (List ℕ) → List ChatCall → List ChatCall
written [] before = before
written (t ∷ ts) before = written ts (writes (token_event t) ∷ before)

abbrev pub concat : List (List ℕ) → List ℕ
concat [] = []
concat (t ∷ ts) = t ++ concat ts

-- Texts are written; then the contents of the answer may be stored, and they are all of the texts.
abbrev pub Answers : List ℕ → List ℕ → List ChatCall → List ChatCall → Type 0
Answers prompt content before after =
    (ts : List (List ℕ)) × ((after ≡ written ts before)
      ⊎ (after ≡ persists_messages prompt (content ++ concat ts) ∷ written ts before))

module _ (deps : ChatPipelineDependencies) (connection : ChatConnection) where
  write_initial_events-disclosures :
      (prepared : PreparedChatStream) (h : Trace)
      → disclosures (write_initial_events deps connection prepared h).1 ≡ disclosures h
  unfolding write_initial_events
  write_initial_events-disclosures prepared h = ground arith

  finished-disclosures :
      (prepared : PreparedChatStream) (content : List ℕ) (usage : Option TokenUsage)
      (rest : List StreamChunk) (h : Trace)
      → disclosures (stream_chunks deps connection prepared content (finished usage) rest h).1
        ≡ disclosures
            (finalize_chat_stream deps prepared completed_request usage (some content) h).1
  unfolding stream_chunks
  finished-disclosures prepared content usage rest h =
      let (r, h') = finalize_chat_stream deps prepared completed_request usage (some content) h in
      elim (Result-cases r) [ inl (u, good) ↦ ground arith | inr (x, bad) ↦ ground arith ]

  abbrev chunk_trace : List ℕ → Trace → Trace
  chunk_trace text h =
      record { call = reads_chunk; succeeded = true }
      ∷ record { call = writes (token_event text); succeeded = true }
      ∷ h

  stream_chunks-Answers :
      (prepared : PreparedChatStream) (content : List ℕ) (chunk : StreamChunk)
      (rest : List StreamChunk) (h : Trace)
      → Answers prepared.original_user_content content
          (disclosures h)
          (disclosures (stream_chunks deps connection prepared content chunk rest h).1)
  unfolding stream_chunks
  stream_chunks-Answers prepared content (finished usage) rest h =
      let stores = finalize_chat_stream-Stores deps prepared completed_request usage content h in
      let (r, h') = finalize_chat_stream deps prepared completed_request usage (some content) h in
      let same = finished-disclosures prepared content usage rest h in
      (
        [],
        elim stores [
          | inl nothing ↦ inl (same ∙ nothing)
          | inr both ↦ inr (
              same
              ∙ both
              ∙ ap (λ x. persists_messages prepared.original_user_content x ∷ disclosures h)
                  (sym (append-nil content)))
        ],
      )
  stream_chunks-Answers prepared content (token text) [] h = (text ∷ [], inl (ground arith))
  stream_chunks-Answers prepared content (token text) (chunk ∷ rest) h =
      let h₁ = chunk_trace text h in
      let (ts, after) = stream_chunks-Answers prepared (content ++ text) chunk rest h₁ in
      elim (Result-cases (connection.write_sse_event h)) [
        | inr (x, bad) ↦ (text ∷ [], inl (ground arith))
        | inl (done_writing, good) ↦ elim (Bool-cases done_writing) [
          | inr stopped ↦ (text ∷ [], inl (ground arith))
          | inl goes_on ↦
              let same : (stream_chunks deps connection prepared content (token text) (chunk ∷ rest)
                    h).1
                  ≡ (stream_chunks deps connection prepared (content ++ text) chunk rest h₁).1 =
                ground arith in
              (
                text ∷ ts,
                elim after [
                  | inl only ↦ inl (ap disclosures same ∙ only)
                  | inr both ↦ inr (
                      ap disclosures same
                      ∙ both
                      ∙ ap
                          (λ x.
                            persists_messages prepared.original_user_content x
                            ∷ written (text ∷ ts) (disclosures h))
                          (append_assoc content text (concat ts)))
                ],
              )
        ]
      ]

  after_chunks-disclosures :
      (prepared : PreparedChatStream) (end : LoopEnd) (h : Trace)
      → disclosures (after_chunks deps connection prepared end h).1 ≡ disclosures h
  unfolding after_chunks
  after_chunks-disclosures prepared answered h = refl
  after_chunks-disclosures prepared (broken disconnected) h =
      let status = broken_status deps connection (disconnected || connection.is_disconnected h) in
      let same = finalize_chat_stream-disclosures deps prepared status none h in
      let (r, h') = finalize_chat_stream deps prepared status none none h in
      elim (Result-cases r) [ inl (u, good) ↦ ground arith | inr (x, bad) ↦ ground arith ]

  on_stream_failure-disclosures :
      (stage : StreamStage) (x : Failure) (h : Trace)
      → disclosures (on_stream_failure deps connection (stage, x) h).1 ≡ disclosures h
  unfolding on_stream_failure write_error
  on_stream_failure-disclosures before_headers x h = refl
  on_stream_failure-disclosures (streaming prepared) x h =
      let status =
        broken_status deps connection
          (connection.is_disconnected h || connection.is_shutting_down h) in
      let same = finalize_chat_stream-disclosures deps prepared status none h in ground arith
  on_stream_failure-disclosures (accounting d) x h = ground arith

  stream_answer-Answers :
      (prepared : PreparedChatStream) (chunk : StreamChunk) (h : Trace)
      → Answers prepared.original_user_content []
          (disclosures h)
          (disclosures (stream_answer deps connection prepared chunk h).1)
  unfolding stream_answer
  stream_answer-Answers prepared chunk h =
      let initial = write_initial_events-disclosures prepared h in
      let h₁ = (write_initial_events deps connection prepared h).1 in
      let h₂ = (stream_chunks deps connection prepared [] chunk connection.rest h₁).1 in
      let answers = stream_chunks-Answers prepared [] chunk connection.rest h₁ in
      let P : Result (StreamStage × Failure) (Unit {0}) → Trace → Type 0 =
        λ r h'. Answers prepared.original_user_content [] (disclosures h) (disclosures h') in
      let read : P (ok tt) h₂ =
        subst (λ c. Answers prepared.original_user_content [] c (disclosures h₂)) initial answers in
      bind_rule P
        (at_stage deps connection (streaming prepared)
          (write_initial_events deps connection prepared))
        _ h (λ p bad. ([], inl initial))
        λ u begun.
          bind_rule P (stream_chunks deps connection prepared [] chunk connection.rest) _ h₁
            (λ p bad. read)
            λ end left.
              subst (Answers prepared.original_user_content [] (disclosures h))
                (sym (after_chunks-disclosures prepared end h₂)) read

  -- A request that is not sent to the provider gives nothing away; one that is sent, then the answer.
  abbrev pub Streams : ChatStreamRequest → Trace → List ChatCall → Type 0
  Streams request h after =
      (after ≡ disclosures h)
      ⊎ ((sent : List ChatCall) × Sends deps (Governs deps h) request (disclosures h) sent
          × Answers request.prompt [] sent after)

  try_stream-Streams :
      (request : ChatStreamRequest) (h : Trace)
      → Streams request h (disclosures (try_stream deps connection request h).1)
  unfolding try_stream
  try_stream-Streams request h =
      let prepare = prepare_chat_stream deps request in
      let sends = prepare_chat_stream-Sends deps request h in
      let (r₁, h₁) = prepare h in
      let P : Result (StreamStage × Failure) (Unit {0}) → Trace → Type 0 =
        λ r h'. Streams request h (disclosures h') in
      bind_rule P (at_stage deps connection before_headers prepare) _ h
        (λ p bad. elim sends [
          | inl (throws, same) ↦ inl same
          | inr s ↦ inr (disclosures h₁, s, ([], inl refl))
        ])
        λ (prepared, chunk) good. elim sends [
          | inl (throws, same) ↦ let failed : is_ok r₁ ≡ true = ground arith in ground arith
          | inr s ↦
              let returned : r₁ ≡ ok (prepared, chunk) = ground arith in
              let original : prepared.original_user_content ≡ request.prompt =
                subst (λ r. original_of request.prompt r ≡ request.prompt) returned
                  (prepare_chat_stream-original deps request h) in
              let left =
                at_stage deps connection before_headers
                  (finalize_chat_stream deps prepared interrupted_request none none) h₁ in
              let stays = stream_answer deps connection prepared chunk h₁ in
              either_rule P (connection.is_disconnected h₁) left stays
                (inr (
                  disclosures h₁,
                  s,
                  (
                    [],
                    inl (
                        finalize_chat_stream-disclosures deps prepared interrupted_request none h₁),
                  ),
                ))
                (inr (
                  disclosures h₁,
                  s,
                  subst (λ c. Answers c [] (disclosures h₁) (disclosures stays.1)) original
                      (stream_answer-Answers prepared chunk h₁),
                ))
        ]

  -- What `streamChat` gives away, from any trace: nothing; or the messages that may be sent to the
  -- provider by the organisation and the budget that were loaded for the request, once, then texts to the client, and then at most one pair of messages to the store,
  -- which are the prompt of the request and exactly all texts that were written to the client.
  pub stream_chat-Streams :
      (request : ChatStreamRequest) (h : Trace)
      → Streams request h (disclosures (stream_chat deps connection request h).1)
  unfolding stream_chat
  stream_chat-Streams request h =
      let streams = try_stream-Streams request h in
      catch_rule (λ r h'. Streams request h (disclosures h')) (try_stream deps connection request)
        (on_stream_failure deps connection) h (λ u good. streams)
        λ (stage, x) bad.
          subst (Streams request h) (sym (on_stream_failure-disclosures stage x _)) streams
