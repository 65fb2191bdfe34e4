-- ===== src/Lib.antt =====
-- The model of the ProxyAI backend: an HTTP gateway in front of language-model providers. A chat
-- prompt is searched for personal data, scored, and blocked, masked or allowed; a reservation in
-- Redis keeps a client's request from running twice; an allowed prompt goes to the first provider
-- that can answer, through a circuit breaker and a retry loop; the token budget of the organisation
-- is read before and accounted after.
--
-- Files, and what they model (paths from the repository's root):
--   Base               shared names, lists and sorting over native numbers, results of code that throws
--   Providers          backend/src/features/providers
--     Types            provider.types.ts
--     Retry            provider-retry.policy.ts: shouldRetryProviderError, calculateRetryDelayMs,
--                      retryProviderOperation
--     Circuit          provider-circuit-breaker.ts: the methods of ProviderCircuitBreaker
--     Fallback         provider-fallback.ts: completeWithOrderedFallback; Fallback/Stream:
--                      streamWithOrderedFallback
--   Pii                backend/src/features/pii
--     Spans, Detector  pii-detector.ts
--     Dedupe, Masker   pii-masker.ts; removeExactDuplicates is the same in pii-risk-scorer.ts
--     Prompt           pii-classifier.ts, pii-prompt-processor.ts
--     Risk             pii-risk-scorer.ts
--   Policy             backend/src/features/policy/policy-evaluator.ts, and evaluatePolicy of
--                      backend/src/features/chat/chat.service.ts
--   Chat               backend/src/features/chat
--                      buildBoundedProviderHistory of chat-context.ts
--     Trace            ChatPipelineDependencies of chat.service.ts
--     Accounting       finalizeChatStream and recordUsageAndComplete of chat.service.ts
--     Prepare          prepareChatStream of chat.service.ts, with buildProductAwareProviderMessages of
--                      product-facts.ts
--     Stream           streamChat of chat.controller.ts
--     Protocol, Disclosure, Rules
--                      what the theorems on these say of the calls made
--   Billing            readAuthoritativeBudgetStatus of backend/src/features/billing/billing.service.ts,
--                      aggregatePeriodUsage of billing.repository.ts and the model limits of
--                      backend/src/features/providers/provider-capability.registry.ts
--   Auth               backend/src/features/auth/login-rate-limit.service.ts
--   Anomaly            backend/src/features/anomaly: the job of anomaly.worker.ts, on the operations of
--                      anomaly.repository.ts
--   Recovery           backend/src/features/recovery: enqueue-recovery.service.ts and the operations of
--                      enqueue-recovery.repository.ts
--   Sessions           backend/src/features/auth: login, refreshSession and logoutSession of auth.service.ts, the
--                      refresh tokens of auth.repository.ts and refresh-token.service.ts
--   Streaming          backend/src/features/chat/chat.sse.ts: writeSseEvent, and
--                      frontend/src/lib/streaming/sse-parser.ts
--   Idempotency        backend/src/shared/idempotency/idempotency.service.ts, scripts included
--
-- A function that changes an object or the outside takes and returns a state. The circuit breaker
-- is a heap of records and a map into it, since a request in flight holds its record past a reset.
-- Concurrent requests are lists of events or calls in any order; what runs between two awaits, and
-- a Lua script of Redis, is one step. Code that throws returns a Result. A chat request is a
-- computation over a trace, the list of the calls of its dependencies so far: any call may fail, and
-- an answer may depend on all calls before it.
--
-- Parameters, for what is not in the repository: provider adapters, clock, timer, abort signal,
-- jitter and metric recorders (effects on a state of any type), the matches of the regular
-- expressions, the database, and the commands of Redis, with the documented laws of the commands
-- (RedisLaws, CounterLaws). Keys, fingerprints and tokens made by cryptography are plain values.
--
-- Bounds: the retry loop runs on the rounds that maxAttempts leaves, which is the bound of the
-- source's own loop. The discovery of missing recovery records runs on fuel, and more rounds than
-- the log has requests are enough. No other fuel is used. Numbers are naturals: the source checks with
-- Number.isSafeInteger where they could grow, and that check is kept. Scores, thresholds and policy
-- fields are integers that are not negative, so tests for other values have no part in the model.
-- Attempts are numbered from 1, and a delay that is not a number is none. A value that Redis holds
-- is never the word RESERVED, which no script writes. Texts are lists of UTF-16 code units.
--
-- Not modelled: HTTP routes, schemas and database models, queues and workers, the signing
-- of access tokens, analytics, audit, metrics, the provider adapters, the user
-- interfaces, and scripts for operators.
pub mod Base
pub mod Anomaly
pub mod Auth
pub mod Billing
pub mod Chat
pub mod Idempotency
pub mod Pii
pub mod Policy
pub mod Providers
pub mod Recovery
pub mod Sessions
pub mod Streaming
