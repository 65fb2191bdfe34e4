-- ===== src/Chat/Stream.antt =====
-- chat.controller.ts: `streamChat` behind the check of its request, from `prepareChatStream` to the
-- last event of the answer.
pub mod Settles
pub mod Answers
mod Tests
use proxy_ai.Base.{
  ℕ, Bool, true, false, ◌||◌, not, Option, none, some, List, [], ◌∷◌, ◌++◌, Result, ok, err,
  if◌then◌else◌,
}
use proxy_ai.Chat.Trace.{
  Failure, RequestStatus, completed_request, failed_request, interrupted_request, reads_chunk,
  ChatSseEvent, request_started, policy, routing, token_event, done, error_event, writes, Trace,
  ChatStreamRequest, StreamChunk, token, finished, ChatPipelineDependencies, Act, pure, raise,
  perform, map_error, catch, continue, is_ok, ◌>>=◌, ◌>>◌,
}
use proxy_ai.Chat.Accounting.{PreparedChatStream, finalize_chat_stream}
use proxy_ai.Chat.Prepare.{prepare_chat_stream}

-- What the connection and the provider's stream do: `is_disconnected` says that the client has gone,
-- `is_shutting_down` that the server aborts its streams, and `write_sse_event` whether an event was
-- written. `rest` are the chunks behind the first one, and `ending` how the stream ends behind them.
pub record ChatConnection : Type 0 where
  pub is_disconnected : Trace → Bool
  pub is_shutting_down : Trace → Bool
  pub write_sse_event : Trace → Result Failure Bool
  pub rest : List StreamChunk
  pub ending : Result Failure (Unit {0})

-- How far the handler has come when something is thrown: the headers are not sent, or they are, and
-- then whether `accountingStarted`, with `disconnected` as the handler itself has set it.
pub data StreamStage : Type 0 where
  before_headers : StreamStage
  streaming : PreparedChatStream → StreamStage
  accounting : Bool → StreamStage

-- How the loop is left: the answer is complete, or not, with `disconnected`.
pub data LoopEnd : Type 0 where
  answered : LoopEnd
  broken : Bool → LoopEnd

module _ (deps : ChatPipelineDependencies) (connection : ChatConnection) where
  abbrev pub write : ChatSseEvent → Act Failure Bool
  write event = perform (writes event) connection.write_sse_event

  abbrev pub at_stage : {A : Type 0} → StreamStage → Act Failure A → Act (StreamStage × Failure) A
  at_stage stage = map_error λ e. (stage, e)

  pub write_initial_events : PreparedChatStream → Act Failure (Unit {0})
  write_initial_events prepared = do
    write request_started
    write (policy prepared.decision)
    write routing
    pure tt

  -- The loop over the chunks, with the assistant's content so far.
  pub stream_chunks :
      PreparedChatStream
      → List ℕ
      → StreamChunk
      → List StreamChunk
      → Act (StreamStage × Failure) LoopEnd
  stream_chunks prepared content (finished usage) rest = do
    at_stage (accounting false)
        (finalize_chat_stream deps prepared completed_request usage (some content))
    at_stage (accounting false) (write (done prepared.decision usage))
    pure answered
  stream_chunks prepared content (token text) [] = do
    written ← at_stage (streaming prepared) (write (token_event text))
    elim written [
      | false ↦ pure (broken true)
      | true ↦ do
        at_stage (streaming prepared) (perform reads_chunk (λ h. connection.ending))
        pure (broken false)
    ]
  stream_chunks prepared content (token text) (chunk ∷ rest) = do
    written ← at_stage (streaming prepared) (write (token_event text))
    elim written [
      | false ↦ pure (broken true)
      | true ↦ do
        perform reads_chunk (λ h. ok tt)
        stream_chunks prepared (content ++ text) chunk rest
    ]

  abbrev pub broken_status : Bool → RequestStatus
  broken_status interrupted = if interrupted then interrupted_request else failed_request

  -- What follows the loop.
  pub after_chunks : PreparedChatStream → LoopEnd → Act (StreamStage × Failure) (Unit {0})
  after_chunks prepared answered = pure tt
  after_chunks prepared (broken disconnected) = λ h.
      let gone = disconnected || connection.is_disconnected h in
      at_stage (accounting disconnected)
        (finalize_chat_stream deps prepared (broken_status gone) none none >> λ h'.
          (if disconnected || connection.is_disconnected h'
            then (ok tt, h')
            else (write error_event >> pure tt) h'))
        h

  -- From the headers to the end of the loop, and what follows it.
  pub stream_answer : PreparedChatStream → StreamChunk → Act (StreamStage × Failure) (Unit {0})
  unfolding write_initial_events stream_chunks after_chunks
  stream_answer prepared chunk = do
    at_stage (streaming prepared) (write_initial_events prepared)
    end ← stream_chunks prepared [] chunk connection.rest
    after_chunks prepared end

  -- The `try` block.
  pub try_stream : ChatStreamRequest → Act (StreamStage × Failure) (Unit {0})
  unfolding stream_answer
  try_stream request = do
    (prepared, chunk) ← at_stage before_headers (prepare_chat_stream deps request)
    λ h.
        if connection.is_disconnected h
        then at_stage before_headers
            (finalize_chat_stream deps prepared interrupted_request none none) h
        else stream_answer prepared chunk h

  -- The `catch` block's last part, for a stream that is not interrupted.
  pub write_error : Bool → Act Failure (Unit {0})
  write_error interrupted = if interrupted then pure tt else (write error_event >> pure tt)

  pub on_stream_failure : StreamStage × Failure → Act Failure (Unit {0})
  unfolding write_error
  on_stream_failure (before_headers, e) h = raise e h
  on_stream_failure (streaming prepared, e) h =
      let interrupted = connection.is_disconnected h || connection.is_shutting_down h in
      let (r, h') = finalize_chat_stream deps prepared (broken_status interrupted) none none h in
      write_error interrupted h'
  on_stream_failure (accounting disconnected, e) h =
      write_error (disconnected || connection.is_disconnected h || connection.is_shutting_down h) h

  pub stream_chat : ChatStreamRequest → Act Failure (Unit {0})
  unfolding try_stream on_stream_failure
  stream_chat request = catch (try_stream request) on_stream_failure
