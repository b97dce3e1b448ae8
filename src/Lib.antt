-- ===== src/Lib.antt =====
-- Verification of cryptofunk, a crypto trading system of agents that consult language models.
--
-- What is modelled
--
-- internal/llm is the part through which agents consult language models.
--   * Llm/Breaker.antt is the type CircuitBreaker of internal/llm/fallback.go: one circuit for each
--     model, by index (IsOpen is `is_open`, RecordSuccess is `record_success`, RecordFailure is
--     `record_failure`, Reset is `reset`, GetAllStatus is `get_all_status`). Llm/Breaker/Circuit
--     has the runs of one circuit, Llm/Breaker/Window its sliding window of failures,
--     Llm/Breaker/Table the circuits together, and Llm/Breaker/Race a relation of steps in which
--     the two halves of IsOpen are apart, as the locks of the code have them.
--   * Llm/Client.antt is internal/llm/client.go: the circuit breaker library before a call, the
--     HTTP exchange, the classification of its status (classifyHTTPError is `classify_http_error`)
--     and the loop of CompleteWithRetry (`complete_with_retry`). Llm/Client/Retry is about that
--     loop.
--   * Llm/Json.antt is how client.go finds JSON in an answer (extractFirstJSONObject,
--     extractJSONFromMarkdown, ParseJSONResponse), with Llm/Json/Brackets and Llm/Json/Fence.
--   * Llm/Fallback.antt is the type FallbackClient of internal/llm/fallback.go, which asks the
--     models in order, each behind its circuit, through the client and the breaker above. Its
--     children are about one round of the loop, the model that answers (Order), and what the loop
--     does to the circuits (Effect).
--   * Llm/Conversation.antt is ConversationMemory of internal/llm/conversation.go, with
--     Llm/Conversation/Retention and Llm/Conversation/Prompt. Llm/Manager.antt is the
--     ConversationManager of that file, with Llm/Manager/Keys and Llm/Manager/Again.
--
-- cmd/api is the HTTP server.
--   * Api/RateLimit.antt is the limit of requests by address of cmd/api/middleware.go: `check`,
--     Middleware, the five limiters and CleanupOldEntries. Its children compare it with a limiter
--     that forgets nothing (Reference), bound what it accepts (Limit), and are about the reset time
--     (Reset), the cleanup (Cleanup) and the five limiters together (Endpoints).
--
-- internal/orchestrator coordinates the trading agents.
--   * Orchestrator/HotSwap.antt is the registry of agents of internal/orchestrator/hotswap.go
--     (RegisterAgent is `register_agent`, and so on), and Orchestrator/HotSwap/Swap is SwapAgent, on Steps:
--     one function for each phase, composed as the code composes them. View, Phases, Outcome are
--     lemmas; Registry is about swaps that succeed, Rollback about those that fail, SameName about a
--     swap under the same name, Capture about the state that is moved, Session about what is
--     reported, and Invariant and Run about all operations together.
--   * Orchestrator/Consensus.antt is the data of internal/orchestrator/consensus.go.
--     Orchestrator/Consensus/Statistics is calculateStatistics, Rounds is what the Delphi method does
--     to one session (startDelphiRound, completeDelphiRound, finalizeDelphiConsensus, and the bodies
--     of SubmitDelphiResponse and roundTimeoutHandler: `respond`, `timed_out`), and Delphi is the
--     manager of the sessions. Run has whole runs of calls and timers; Shape, Sound, Progress,
--     Tracked, Answers, Roster and Limits are lemmas on sessions; Ends is about how a session ends,
--     Submits about when a response completes a round, Capacity about the limit of active sessions,
--     Cleanup about CleanupExpiredSessions. Contract is the contract net (StartContractNet,
--     selectBestBid, SubmitBid), and Award is about who gets the contract.
--   * Orchestrator/Hierarchy.antt is the data of internal/orchestrator/hierarchy.go.
--     Orchestrator/Hierarchy/Situations is AssessSituation, SelectSubAgents and the conditions,
--     Members is CreateMetaAgent (through RegisterAgent of the coordinator above), AddSubAgent,
--     RemoveSubAgent and UpdateSubAgentWeight, and Decisions is DelegateTask and AggregateResults.
--     Runs has whole runs, with the operations of the coordinator between; Names and Nodes are
--     lemmas; Consistent is about all runs, Removal about RemoveSubAgent, Delegation and Selection
--     about who is chosen.
--   * Orchestrator/Core.antt is the sessions and the signals of internal/orchestrator/orchestrator.go
--     (handleSignal, handleHeartbeat, checkAgentHealth, cleanOldSignals), Orchestrator/Core/Voting is
--     the vote and the cycle (calculateDecision, makeDecision), and Control is Pause, Resume and
--     their HTTP requests. Run has whole runs, and is about a pause; Orderly is about all runs,
--     Silence about agents that a health check disables, Verdict about the outcome of the vote,
--     with Scores and Votes as its lemmas.
--
-- Prelude.antt passes on what the modules share: tests on numbers, lists, maps (Prelude/Dict),
-- results, and the operations of float64 as an interface (Prelude/Floats). The
-- modules named Examples run the definitions on concrete inputs.
--
-- How the code is read
--
-- Times are nanoseconds since the zero time.Time, as natural numbers. An operation that reads the
-- clock takes the reading as an argument; `a.After(now.Add(-w))` is `now < a + w`. Durations, limits,
-- thresholds and token counts are natural numbers; model indexes and numbers of retries are
-- integers, and the code's range checks on them are in the model. Counters do not overflow. All
-- loops of these parts are over lists or up to a number that is known before, so they are structural
-- recursion: no fuel is needed and every function is total.
--
-- A method that holds one lock from its beginning to its end is one step. IsOpen, which changes its
-- lock on the way, is one step in Llm/Breaker and two in Llm/Breaker/Race. The map of conversations
-- holds pointers; the model has a store of conversations and a map of places in it, and never frees
-- a place. The cleanup of the rate limits tests an entry under its lock and deletes it after that:
-- Api/RateLimit has the two as steps of their own (`is_idle`, `delete_entry`), and `cleanup_limiter`
-- for a cleanup without other calls in between. That a check has loaded an entry before its deletion
-- and records after it is not in the model.
--
-- SwapAgent is one run, without other calls between its phases; what it writes to the message bus and
-- to the blackboard is a list, and whether they accept it is an argument. Registrations lie in a
-- store like the conversations. States of agents are values: the model does not have that a
-- snapshot shares the memory map of the agent it was taken of.
--
-- A Delphi session is changed by calls that hold the manager's lock, and by the handlers of the
-- timers of its rounds; each is an event, and a run is any list of events. A timer may fire at any
-- time in a run; how long it waits, its semaphore and the cancellation of its context are not in the
-- model. StartDelphiConsensus gives up the lock after its check of the limits: its two parts are one
-- event in the runs of Orchestrator/Consensus/Run, and steps of their own in Capacity. Floating-point
-- numbers are a type with operations of which nothing is assumed but what a theorem names; the
-- order in which a Go map is read is that of the association list.
--
-- In Orchestrator/Core each handler is one step, and a run is any list of steps. A decision cycle
-- (makeDecision) is many: it begins, reaches the second reading of the flag for a symbol, publishes,
-- and so on, and any other steps may come between them. A broadcast is what is handed to the message
-- bus, whether or not the bus takes it.
--
-- What is not modelled
--
-- The gobreaker library, HTTP, JSON decoding, white space trimming, the print of times and UUIDs are
-- not code of this repository: they are arguments of the definitions, without any assumption on
-- them; so are the bids that collectBids gathers through goroutines and channels. Logging and
-- metrics are left out, and with them names that only go to the log. The other
-- parts of the repository (cloning, experiments, the blackboard, other HTTP handlers, risk, exchanges, strategies,
-- database, agents) are not modelled here.
pub mod Prelude
pub mod Llm
pub mod Api
pub mod Orchestrator
