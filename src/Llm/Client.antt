-- ===== src/Llm/Client.antt =====
-- internal/llm/client.go (with the message types of types.go): one call of a model, the retries,
-- and what an HTTP status means for them. The circuit breaker library in front of a call, the
-- HTTP transport and the JSON decoder are not code of the repository: a call takes what they
-- answered as a `Gate` and an `Exchange`.
pub mod Retry
use cryptofunk.Prelude.{
  ℕ, zero, suc, ℤ, pos, negsuc, String, Bool, true, false, not, ◌&&◌, ◌||◌, Option, none, some,
  List, [], ◌∷◌, ltb, leb, ◌==◌, if◌then◌else◌, Result, ok, err,
}

pub record ChatMessage : Type 0 where
  pub role : String
  pub content : String

pub record ChatChoice : Type 0 where
  pub index : ℤ
  pub message : ChatMessage
  pub finish_reason : String

pub record ChatUsage : Type 0 where
  pub prompt_tokens : ℤ
  pub completion_tokens : ℤ
  pub total_tokens : ℤ

pub record ChatResponse : Type 0 where
  pub id : String
  pub object : String
  pub created : ℤ
  pub model : String
  pub choices : List ChatChoice
  pub usage : ChatUsage

pub record LlmError : Type 0 where
  pub status_code : ℕ
  pub message : String
  pub retryable : Bool

-- `IsRetryable`
abbrev pub is_retryable : LlmError → Bool
is_retryable e = e.retryable

-- The errors of the package. `no_error` is Go's nil, which a loop that made no attempt wraps; the
-- other cases that take an error wrap it by `%w`.
pub data CallError : Type 0 where
  no_error breaker_is_open too_many_requests context_done : CallError
  marshal_failed request_failed send_failed read_failed parse_failed : CallError
  llm_error : LlmError → CallError
  non_retryable all_models_failed all_models_failed_after_retries : CallError → CallError
  completion_failed : CallError → CallError
  failed_after : ℤ → CallError → CallError
  no_choices : CallError

abbrev pub Outcome : Type 0
Outcome = Result CallError ChatResponse

-- The `switch` of `classifyHTTPError`, case by case.
is_retryable_status : ℕ → Bool
is_retryable_status status =
    if status == 429
    then true
    else if leb 500 status && ltb status 600
    then true
    else if status == 502
    then true
    else if status == 503
    then true
    else if status == 504
    then true
    else if status == 400
    then false
    else if status == 401
    then false
    else if status == 403
    then false
    else if status == 404
    then false
    else false

unfoldable pub classify_http_error : ℕ → String → CallError
unfolding is_retryable_status
classify_http_error status message =
    llm_error
      (record { status_code = status; message = message; retryable = is_retryable_status status })

-- How the HTTP exchange of `doComplete` went. An answer has its status, its body, and what the
-- JSON decoder makes of that body as an `ErrorResponse` (its message) and as a `ChatResponse`.
pub data Exchange : Type 0 where
  unmarshallable bad_request unsent unread : Exchange
  answered : ℕ → String → Option String → Option ChatResponse → Exchange

error_answer : ℕ → String → Option String → CallError
error_answer status body none = classify_http_error status body
error_answer status body (some message) = classify_http_error status message

chat_answer : Option ChatResponse → Outcome
chat_answer none = err parse_failed
chat_answer (some response) = ok response

unfoldable pub do_complete : Exchange → Outcome
unfolding error_answer chat_answer classify_http_error
do_complete unmarshallable = err marshal_failed
do_complete bad_request = err request_failed
do_complete unsent = err send_failed
do_complete unread = err read_failed
do_complete (answered status body error_message chat) =
    if not (status == 200) then err (error_answer status body error_message) else chat_answer chat

-- What the `gobreaker` circuit breaker does with a call: it refuses, or it lets it through.
pub data Gate : Type 0 where
  tripped crowded : Gate
  passed : Exchange → Gate

unfoldable pub complete : Gate → Outcome
unfolding do_complete
complete tripped = err breaker_is_open
complete crowded = err too_many_requests
complete (passed exchange) = do_complete exchange

-- `err.(*LLMError)` with `!llmErr.IsRetryable()`
abbrev pub is_final : CallError → Bool
is_final (llm_error e) = not (is_retryable e)
is_final other = false

-- The world at one attempt: whether the context was done before the backoff ran out, which only
-- attempts after the first wait for, and how the call went.
pub record Trial : Type 0 where
  pub cancelled : Bool
  pub gate : Gate

abbrev pub gives_up : ℕ → Bool → Bool
gives_up zero cancelled = false
gives_up (suc attempt) cancelled = cancelled

-- The loop of `CompleteWithRetry`, on the rounds that are left.
retry : ℤ → (ℕ → Trial) → ℕ → ℕ → CallError → Outcome
retry max_retries trials attempt zero last_err = err (failed_after max_retries last_err)
retry max_retries trials attempt (suc left) last_err =
    elim (gives_up attempt (trials attempt).cancelled) [
      | true ↦ err context_done
      | false ↦ elim (complete (trials attempt).gate) [
        | ok response ↦ ok response
        | err e ↦ elim (is_final e) [
          | true ↦ err (non_retryable e)
          | false ↦ retry max_retries trials (suc attempt) left e
        ]
      ]
    ]

-- `attempt <= maxRetries` from 0 on
abbrev pub rounds : ℤ → ℕ
rounds (pos n) = suc n
rounds (negsuc n) = 0

unfoldable pub complete_with_retry : ℤ → (ℕ → Trial) → Outcome
unfolding retry
complete_with_retry max_retries trials = retry max_retries trials 0 (rounds max_retries) no_error

first_choice : List ChatChoice → Result CallError String
first_choice [] = err no_choices
first_choice (choice ∷ rest) = ok choice.message.content

-- What `CompleteWithSystem` returns for the outcome of the call.
unfoldable pub system_answer : Outcome → Result CallError String
unfolding first_choice
system_answer (err e) = err e
system_answer (ok response) = first_choice response.choices

-- The messages that `CompleteWithSystem` sends.
abbrev pub system_messages : String → String → List ChatMessage
system_messages system_prompt user_prompt =
    record { role = "system"; content = system_prompt }
    ∷ record { role = "user"; content = user_prompt }
    ∷ []
