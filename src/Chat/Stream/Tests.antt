-- ===== src/Chat/Stream/Tests.antt =====
-- chat.controller.ts and chat.service.ts: the theorems on a stream of two texts, with dependencies
-- of which the queue of the analytics fails.
use proxy_ai.Base.{◌≡◌, refl, Bool, true, false, none, some, [], ◌∷◌, ok, err, if◌then◌else◌}
use proxy_ai.Providers.Types.{groq}
use proxy_ai.Policy.{allow, risk_below_mask_threshold}
use proxy_ai.Chat.Trace.{
  other_failure, completed_request, QueueName, billing_queue, analytics_queue, Trace, auto,
  ChatStreamRequest, token, finished, ChatPipelineDependencies, reserves, marks_execution_started,
}
use proxy_ai.Chat.Protocol.{is_settled}
use proxy_ai.Chat.Disclosure.{disclosures}
use proxy_ai.Chat.Accounting.{PreparedChatStream, finalize_chat_stream}
use proxy_ai.Chat.Accounting.Settles.{Accounted, finalize_chat_stream-Accounted}
use proxy_ai.Chat.Stream.{ChatConnection, stream_chat}
use proxy_ai.Chat.Stream.Settles.{stream_chat-Settled}
use proxy_ai.Chat.Stream.Answers.{Streams, stream_chat-Streams}

abbrev request : ChatStreamRequest
request = record { prompt = b'h' ∷ b'i' ∷ []; routing_mode = auto; provider_id = none }

abbrev analytics_fails : QueueName → Bool
analytics_fails billing_queue = false
analytics_fails analytics_queue = true

abbrev deps : ChatPipelineDependencies
deps = record {
  assert_conversation_owner = λ h. ok tt;
  load_organisation_context = λ h. ok (record {
    thresholds = record { mask_threshold = 30; block_threshold = 70 };
    max_output_tokens_per_request = 256;
    auto_routing_enabled = true;
    encrypted_storage = true;
  });
  reserve = λ h. ok tt;
  consume_rate_limit = λ h. ok tt;
  read_budget_status = λ h. ok (record {
    exceeded = false;
    remaining_percent = (100, 1);
    remaining_tokens = 1000;
    budgeted_tokens = none;
    reserved_tokens = none;
    used_tokens = 0;
    monthly_budget_tokens = 1000;
  });
  matches = λ text id. [];
  is_product_question = λ text. false;
  product_facts_instruction = [];
  load_conversation_history = λ h. ok [];
  candidates = record { provider_id = groq; model = 1; max_output_tokens = 512 } ∷ [];
  is_unhealthy = λ h. ok false;
  next_chunk = λ h. ok (some (token (b'a' ∷ [])));
  append_usage = λ h. ok tt;
  enqueue = λ q h. if analytics_fails q then err other_failure else ok tt;
  record_enqueue_failure = λ h. ok tt;
  append_audit = λ h. ok tt;
  persist_messages = λ h. ok tt;
  mark_completed = λ h. ok tt;
  release_before_execution = λ h. ok tt;
}

abbrev connection : ChatConnection
connection = record {
  is_disconnected = λ h. false;
  is_shutting_down = λ h. false;
  write_sse_event = λ h. ok true;
  rest = token (b'b' ∷ []) ∷ finished none ∷ [];
  ending = ok tt;
}

stream_chat-Streams_example :
    Streams deps connection request [] (disclosures (stream_chat deps connection request []).1)
stream_chat-Streams_example = stream_chat-Streams deps connection request []

stream_chat-Settled_example : is_settled (stream_chat deps connection request []).1 ≡ true
stream_chat-Settled_example = stream_chat-Settled deps connection request [] refl

abbrev prepared : PreparedChatStream
prepared = record {
  decision = record {
    action = allow;
    reason_code = risk_below_mask_threshold;
    provider_prompt = none;
    risk_score = 0;
    categories = [];
    detector_count = 0;
  };
  original_user_content = b'h' ∷ b'i' ∷ [];
}

abbrev begun : Trace
begun =
    record { call = marks_execution_started; succeeded = true }
    ∷ record { call = reserves; succeeded = true }
    ∷ []

finalize_chat_stream-Accounted_example :
    let (r, h') =
      finalize_chat_stream deps prepared completed_request none (some (b'a' ∷ [])) begun in
    Accounted deps r h'
finalize_chat_stream-Accounted_example =
    finalize_chat_stream-Accounted deps prepared completed_request none (some (b'a' ∷ [])) begun
      refl
