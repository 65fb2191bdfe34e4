-- ===== src/Chat/Stream/Settles.antt =====
-- chat.controller.ts: every stream that `streamChat` begins is accounted for.
use proxy_ai.Base.{
  ℕ, ◌≡◌, subst, Bool, true, false, ◌||◌, not, Option, none, some, List, [], ◌∷◌, ◌++◌, Result, ok,
  err, Result-cases, inl, inr, arith,
}
use proxy_ai.Chat.Trace.{
  Failure, RequestStatus, completed_request, interrupted_request, TokenUsage, ChatSseEvent,
  reads_chunk, writes, token_event, ChatEvent, Trace, ChatStreamRequest, StreamChunk, token,
  finished, ChatPipelineDependencies, Act, is_ok,
}
use proxy_ai.Chat.Rules.{bind_rule, either_rule, catch_rule, map_error_rule}
use proxy_ai.Chat.Protocol.{Phase, idle, started, phase, is_settled}
use proxy_ai.Chat.Accounting.{PreparedChatStream, finalize_chat_stream}
use proxy_ai.Chat.Accounting.Settles.{finalize_chat_stream-Accounted}
use proxy_ai.Chat.Prepare.{prepare_chat_stream}
use proxy_ai.Chat.Prepare.Settles.{Prepared, prepare_chat_stream-Prepared, Accounted-settled}
use proxy_ai.Chat.Stream.{
  ChatConnection, StreamStage, before_headers, streaming, accounting, LoopEnd, answered, broken,
  at_stage, broken_status, write, stream_answer, write_initial_events, stream_chunks, after_chunks,
  try_stream, write_error, on_stream_failure, stream_chat,
}

abbrev is_begun : Phase → Bool
is_begun (started b) = not b
is_begun _ = false

-- What holds where the handler throws.
abbrev Thrown : StreamStage → Trace → Type 0
Thrown before_headers h = is_settled h ≡ true
Thrown (streaming prepared) h = phase h ≡ started false
Thrown (accounting d) h = is_settled h ≡ true

abbrev Tried : Result (StreamStage × Failure) (Unit {0}) → Trace → Type 0
Tried (ok u) h = is_settled h ≡ true
Tried (err (stage, e)) h = Thrown stage h

abbrev Looped : Result (StreamStage × Failure) LoopEnd → Trace → Type 0
Looped (ok answered) h = is_settled h ≡ true
Looped (ok (broken d)) h = phase h ≡ started false
Looped (err (stage, e)) h = Thrown stage h

abbrev Begun : {A : Type 0} → Result Failure A → Trace → Type 0
Begun r h = phase h ≡ started false

abbrev Settled : {A : Type 0} → Result Failure A → Trace → Type 0
Settled r h = is_settled h ≡ true

module _ (deps : ChatPipelineDependencies) (connection : ChatConnection) where
  finalize-Settled :
      (prepared : PreparedChatStream) (status : RequestStatus) (usage : Option TokenUsage)
      (content : Option (List ℕ)) (h : Trace)
      → phase h ≡ started false
      → is_settled (finalize_chat_stream deps prepared status usage content h).1 ≡ true
  finalize-Settled prepared status usage content h e =
      let (r, h') = finalize_chat_stream deps prepared status usage content h in
      Accounted-settled deps r h'
        (finalize_chat_stream-Accounted deps prepared status usage content h e)

  write-Settled :
      (event : ChatSseEvent) (h : Trace)
      → is_settled h ≡ true
      → is_settled (write deps connection event h).1 ≡ true
  write-Settled event h e = ground arith

  write_initial_events-phase :
      (prepared : PreparedChatStream) (h : Trace)
      → phase (write_initial_events deps connection prepared h).1 ≡ phase h
  unfolding write_initial_events
  write_initial_events-phase prepared h = ground arith

  abbrev written_event : List ℕ → ChatEvent
  written_event text = record { call = writes (token_event text); succeeded = true }

  abbrev read_event : ChatEvent
  read_event = record { call = reads_chunk; succeeded = true }

  -- One chunk of text is written, and the next one is asked for.
  stream_chunks-Looped :
      (prepared : PreparedChatStream) (content : List ℕ) (chunk : StreamChunk)
      (rest : List StreamChunk) (h : Trace)
      → phase h ≡ started false
      → let (r, h') = stream_chunks deps connection prepared content chunk rest h in Looped r h'
  unfolding stream_chunks
  stream_chunks-Looped prepared content (finished usage) rest h e =
      let settled = finalize-Settled prepared completed_request usage (some content) h e in
      let (r, h') = finalize_chat_stream deps prepared completed_request usage (some content) h in
      elim (Result-cases r) [ inl (u, good) ↦ ground arith | inr (x, bad) ↦ ground arith ]
  stream_chunks-Looped prepared content (token text) [] h e = ground arith
  stream_chunks-Looped prepared content (token text) (chunk ∷ rest) h e = ground (
    arith,
    stream_chunks-Looped prepared (content ++ text) chunk rest
        (read_event ∷ written_event text ∷ h),
  )

  after_chunks-Tried :
      (prepared : PreparedChatStream) (end : LoopEnd) (h : Trace)
      → Looped (ok end) h
      → let (r, h') = after_chunks deps connection prepared end h in Tried r h'
  unfolding after_chunks
  after_chunks-Tried prepared answered h e = e
  after_chunks-Tried prepared (broken disconnected) h e =
      let status = broken_status deps connection (disconnected || connection.is_disconnected h) in
      let settled = finalize-Settled prepared status none none h e in
      let (r, h') = finalize_chat_stream deps prepared status none none h in
      elim (Result-cases r) [ inl (u, good) ↦ ground arith | inr (x, bad) ↦ ground arith ]

  at_stage-Thrown :
      {A : Type 0} (stage : StreamStage) (m : Act Failure A) (h : Trace) (p : StreamStage × Failure)
      → (at_stage deps connection stage m h).0 ≡ err p
      → (is_ok (m h).0 ≡ false → Thrown stage (m h).1)
      → Thrown p.0 (m h).1
  at_stage-Thrown stage m h p bad thrown =
      let (same, failed) : (stage ≡ p.0) × (is_ok (m h).0 ≡ false) = (ground arith, ground arith) in
      subst (λ y. Thrown y (m h).1) same (thrown failed)

  Prepared-settled :
      {A : Type 0} (r : Result Failure A) (h : Trace)
      → Prepared r h
      → is_ok r ≡ false
      → is_settled h ≡ true
  Prepared-settled (ok a) h p bad = ground arith
  Prepared-settled (err x) h p bad = p

  at_stage_ok :
      {A : Type 0} (stage : StreamStage) (m : Act Failure A) (h : Trace) (a : A)
      → (at_stage deps connection stage m h).0 ≡ ok a
      → (m h).0 ≡ ok a
  at_stage_ok stage m h a good = ground arith

  at_stage-Tried :
      (m : Act Failure (Unit {0})) (h : Trace)
      → is_settled (m h).1 ≡ true
      → let (r, h') = at_stage deps connection before_headers m h in Tried r h'
  at_stage-Tried m h e =
      map_error_rule Tried (λ x. (before_headers, x)) m h (λ u good. e) (λ x bad. e)

  looped-Thrown :
      (r : Result (StreamStage × Failure) LoopEnd) (h : Trace) (p : StreamStage × Failure)
      → r ≡ err p
      → Looped r h
      → Thrown p.0 h
  looped-Thrown r h p bad looped = subst (λ y. Looped y h) bad looped

  stream_answer-Tried :
      (prepared : PreparedChatStream) (chunk : StreamChunk) (h : Trace)
      → phase h ≡ started false
      → let (r, h') = stream_answer deps connection prepared chunk h in Tried r h'
  unfolding stream_answer
  stream_answer-Tried prepared chunk h e =
      let announced = write_initial_events-phase prepared h in
      let h₁ = (write_initial_events deps connection prepared h).1 in
      let looped = stream_chunks-Looped prepared [] chunk connection.rest h₁ (ground arith) in
      let h₂ = (stream_chunks deps connection prepared [] chunk connection.rest h₁).1 in
      bind_rule Tried
        (at_stage deps connection (streaming prepared)
          (write_initial_events deps connection prepared))
        _ h
        (λ p bad.
          at_stage-Thrown (streaming prepared) (write_initial_events deps connection prepared) h p
            bad (λ x. ground arith))
        λ u begun.
          bind_rule Tried (stream_chunks deps connection prepared [] chunk connection.rest) _ h₁
            (λ p bad. looped-Thrown _ h₂ p bad looped)
            λ end left. after_chunks-Tried prepared end h₂ (subst (λ y. Looped y h₂) left looped)

  try_stream-Tried :
      (request : ChatStreamRequest) (h : Trace)
      → phase h ≡ idle
      → let (r, h') = try_stream deps connection request h in Tried r h'
  unfolding try_stream
  try_stream-Tried request h e =
      let ready = prepare_chat_stream-Prepared deps request h e in
      let prepare = prepare_chat_stream deps request in
      let h' = (prepare h).1 in
      bind_rule Tried (at_stage deps connection before_headers prepare) _ h
        (λ p bad. at_stage-Thrown before_headers prepare h p bad (Prepared-settled _ h' ready))
        λ (prepared, chunk) good.
          let begun =
            subst (λ y. Prepared y h') (at_stage_ok before_headers prepare h _ good) ready in
          either_rule Tried (connection.is_disconnected h') _ _
            (at_stage-Tried (finalize_chat_stream deps prepared interrupted_request none none) h'
              (finalize-Settled prepared interrupted_request none none h' begun))
            (stream_answer-Tried prepared chunk h' begun)

  on_stream_failure-Settled :
      (stage : StreamStage) (x : Failure) (h : Trace)
      → Thrown stage h
      → is_settled (on_stream_failure deps connection (stage, x) h).1 ≡ true
  unfolding on_stream_failure write_error
  on_stream_failure-Settled before_headers x h e = e
  on_stream_failure-Settled (streaming prepared) x h e =
      let status =
        broken_status deps connection
          (connection.is_disconnected h || connection.is_shutting_down h) in
      let settled = finalize-Settled prepared status none none h e in ground arith
  on_stream_failure-Settled (accounting d) x h e = ground arith

  -- `streamChat` settles what it begins: from a request without a reservation, whatever the provider,
  -- the connection and the calls of the database do, no reservation is left open when the handler
  -- ends, but behind a failed call that would have stored usage or closed the reservation. Usage is
  -- stored once, and behind it no more of the provider's chunks are read.
  pub stream_chat-Settled :
      (request : ChatStreamRequest) (h : Trace)
      → phase h ≡ idle
      → is_settled (stream_chat deps connection request h).1 ≡ true
  unfolding stream_chat
  stream_chat-Settled request h e =
      let tried = try_stream-Tried request h e in
      let h' = (try_stream deps connection request h).1 in
      catch_rule Settled (try_stream deps connection request) (on_stream_failure deps connection) h
        (λ u good. subst (λ r. Tried r h') good tried)
        λ p bad. on_stream_failure-Settled p.0 p.1 h' (subst (λ r. Tried r h') bad tried)
