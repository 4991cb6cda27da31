-- ===== src/Pipeline.antt =====
-- packages/backend-services/src/email/EmailPipeline.ts: fetching a message, taking it up, summarizing
-- it, and what becomes of its errors. The provider's fetching, the summarizing, the secret hash and the
-- test for the daily allocation of Workers AI are parameters.
pub mod Laws
use mail_otter.Base.{
  ℕ, ◌+◌, String, List, [], ◌∷◌, Bool, true, false, not, ◌||◌, Option, none, some, if◌then◌else◌,
  ltb, codes,
}
use mail_otter.Action.{ProviderId, Text}
use mail_otter.Message.{
  Table, Key, StartInput, Statement, try_start, mark_skipped, mark_error, perform_all,
}

-- The classes of error that the pipeline tells apart, with the message.
pub data PipelineError : Type 0 where
  retryable non_retryable bad_request unclassified : Text → PipelineError

abbrev pub message_of : PipelineError → Text
message_of (retryable m) = m
message_of (non_retryable m) = m
message_of (bad_request m) = m
message_of (unclassified m) = m

abbrev pub daily_free_allocation_message : Text
daily_free_allocation_message = codes "Workers AI daily free allocation was exceeded."

-- `classifyPipelineError`
unfoldable pub classify_pipeline_error : (PipelineError → Bool) → PipelineError → PipelineError
classify_pipeline_error is_daily (retryable m) = retryable m
classify_pipeline_error is_daily (non_retryable m) = non_retryable m
classify_pipeline_error is_daily (bad_request m) =
    if is_daily (bad_request m)
    then non_retryable daily_free_allocation_message
    else non_retryable m
classify_pipeline_error is_daily (unclassified m) =
    if is_daily (unclassified m) then non_retryable daily_free_allocation_message else retryable m

-- `isPipelineRetryAttempt`
unfoldable pub is_pipeline_retry_attempt : Option ℕ → Bool
is_pipeline_retry_attempt none = false
is_pipeline_retry_attempt (some attempt) = ltb 1 attempt

-- `FetchedEmail`, with what the pipeline itself reads of it.
pub record FetchedEmail : Type 0 where
  pub message_id : String
  pub thread_id : Option String
  pub from : Text
  pub subject : Text
  pub body : Text
  pub has_attachment : Bool
  pub fingerprint_input : Option Text

-- How `fetchMessage` ends: an email, null, or one of its errors.
pub data Fetch : Type 0 where
  fetched : FetchedEmail → Fetch
  skipped_silently : Fetch
  message_not_found : String → Text → Fetch
  fetch_failed : String → PipelineError → Fetch
  threw : PipelineError → Fetch

-- How the pipeline ends.
pub data Ending {ℓ} (R : Type ℓ) : Type ℓ where
  returned : Option R → Ending R
  raised : PipelineError → Ending R

-- What the pipeline is run with. `record_error` is the fetch stage's policy 'record-error';
-- `fingerprint` is `getStableMessageFingerprint`; `summarize` is the `try` block: the fetching of
-- attachments, the orchestrator, which may change the table, and `buildResult`.
pub record Stages {ℓ} (R : Type ℓ) : Type ℓ where
  pub application_id : String
  pub provider_id : ProviderId
  pub retry_attempt : Option ℕ
  pub clock : ℕ → ℕ
  pub others : ℕ → List Statement
  pub fresh_id : String
  pub is_daily : PipelineError → Bool
  pub fetch : Fetch
  pub record_error : Bool
  pub fingerprint : Option Text → Option String
  pub summarize : FetchedEmail → Table → Table × Ending R

abbrev pub Outcome {ℓ} : Type ℓ → Type ℓ
Outcome R = Table × Ending R

module _ {ℓ} {R : Type ℓ} (s : Stages R) where
  abbrev pub key_of : String → Key
  key_of message_id = record { application_id = s.application_id; message_id = message_id }

  abbrev pub start_input : String → Option String → Option String → StartInput
  start_input message_id thread_id fingerprint = record {
    key = key_of message_id;
    provider_id = s.provider_id;
    provider_thread_id = thread_id;
    fingerprint = fingerprint;
    allow_existing_for_retry = is_pipeline_retry_attempt s.retry_attempt;
  }

  unfoldable pub take_up : StartInput → Table → Table × Bool
  take_up input t = try_start s.clock s.others s.fresh_id input t

  -- The message was deleted before it was processed.
  unfoldable pub skip_missing : String → Text → Table → Outcome R
  skip_missing message_id reason t =
      let (t', started) = take_up (start_input message_id none none) t in
      if not started then (t', returned none) else (
        mark_skipped (s.clock 4) (key_of message_id) reason (perform_all (s.others 4) t'),
        returned none,
      )

  -- Another failure to fetch, under the policy that records it.
  unfoldable pub record_fetch_error : String → PipelineError → Table → Outcome R
  record_fetch_error message_id cause t =
      let failure = classify_pipeline_error s.is_daily cause in
      let (t', started) = take_up (start_input message_id none none) t in
      if not started then (t', returned none) else (
        mark_error (s.clock 4) (key_of message_id) (message_of failure)
            (perform_all (s.others 4) t'),
        raised failure,
      )

  -- The `catch` of the last stage.
  unfoldable pub settle : String → Outcome R → Outcome R
  settle message_id (t, returned r) = (t, returned r)
  settle message_id (t, raised cause) =
      let failure = classify_pipeline_error s.is_daily cause in
      (
        mark_error (s.clock 5) (key_of message_id) (message_of failure)
            (perform_all (s.others 5) t),
        raised failure,
      )

  unfoldable pub process : FetchedEmail → Table → Outcome R
  process email t =
      let fingerprint = s.fingerprint email.fingerprint_input in
      let (t', started) = take_up (start_input email.message_id email.thread_id fingerprint) t in
      if not started
      then (t', returned none)
      else settle email.message_id (s.summarize email (perform_all (s.others 4) t'))

  unfoldable pub after_fetch : Fetch → Table → Outcome R
  after_fetch (fetched email) t = process email t
  after_fetch skipped_silently t = (t, returned none)
  after_fetch (message_not_found message_id reason) t = skip_missing message_id reason t
  after_fetch (fetch_failed message_id cause) t =
      if s.record_error then record_fetch_error message_id cause t else (t, raised cause)
  after_fetch (threw cause) t = (t, raised cause)

  -- `runGenerate`
  unfoldable pub run_generate : Table → Outcome R
  unfolding after_fetch
  run_generate t = after_fetch s.fetch t
