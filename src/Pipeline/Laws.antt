-- ===== src/Pipeline/Laws.antt =====
-- What the pipeline leaves behind on each of its ways out.
use mail_otter.Base.{
  ℕ, ◌≡◌, arith, refl, String, Bool, true, false, Bool-cases, inl, inr, Option, none, [], ◌⊎◌, sym,
  ◌∙◌, All, ◌∷◌, update_where,
}
use mail_otter.Action.{Text}
use mathlib.Core.Bool.{false≢true}
use mail_otter.Action.Store.{clip_message}
use mail_otter.Message.{set_status, perform_all, Table, MessageRow, Key, has_key, error, mark_error}
use mail_otter.Pipeline.{
  PipelineError, retryable, non_retryable, bad_request, unclassified, message_of,
  classify_pipeline_error, FetchedEmail, fetched, fetch_failed, returned, raised, Stages, Outcome,
  key_of, start_input, take_up, record_fetch_error, settle, process, after_fetch, run_generate,
}

-- Whether the workflow that runs the pipeline tries again after this error.
abbrev pub is_retryable : PipelineError → Bool
is_retryable (retryable _) = true
is_retryable _ = false

abbrev pub is_non_retryable : PipelineError → Bool
is_non_retryable (non_retryable _) = true
is_non_retryable _ = false

-- Every error is classified as retryable or not, and classifying it again changes nothing.
pub classify_pipeline_error_total :
    (is_daily : PipelineError → Bool) (e : PipelineError)
    → let c = classify_pipeline_error is_daily e in
      ((is_retryable c ≡ true) ⊎ (is_non_retryable c ≡ true))
      × (classify_pipeline_error is_daily c ≡ c)
unfolding classify_pipeline_error
classify_pipeline_error_total is_daily (retryable m) = (inl refl, refl)
classify_pipeline_error_total is_daily (non_retryable m) = (inr refl, refl)
classify_pipeline_error_total is_daily (bad_request m) = ground arith
classify_pipeline_error_total is_daily (unclassified m) = ground arith

-- The row is recorded as failed, with this message.
abbrev pub IsFailed : Option Text → MessageRow → Type 0
IsFailed message row = (row.status ≡ error) × (row.error_message ≡ message)

-- All rows of the message are so.
abbrev pub AllRows : Key → (MessageRow → Type 0) → Table → Type 0
AllRows k P = All (λ row. has_key k row ≡ true → P row)

pub update-AllRows :
    (k : Key) (P : MessageRow → Type 0) (f : MessageRow → MessageRow)
    → ((row : MessageRow) → P (f row))
    → (t : Table) → AllRows k P (update_where (has_key k) f t)
unfolding update_where
update-AllRows k P f holds [] = tt
update-AllRows k P f holds (row ∷ t) = elim (Bool-cases (has_key k row)) [
  | inl mine ↦ rw mine ((λ _. holds row), update-AllRows k P f holds t)
  | inr other ↦
      rw other ((λ mine. absurd (false≢true (sym other ∙ mine))), update-AllRows k P f holds t)
]

mark_error-AllRows :
    (now : ℕ) (k : Key) (message : Text) (t : Table)
    → AllRows k (IsFailed (clip_message message)) (mark_error now k message t)
unfolding mark_error
mark_error-AllRows now k message t =
    update-AllRows k (IsFailed (clip_message message))
      (set_status now error (clip_message message) false) (λ row. (refl, refl)) t

-- How an error of the pipeline leaves the message.
abbrev pub Recorded {ℓ} : {R : Type ℓ} → Stages R → String → PipelineError → Table → Type 0
Recorded s message_id e t =
    (classify_pipeline_error s.is_daily e ≡ e)
    × AllRows (key_of s message_id) (IsFailed (clip_message (message_of e))) t

module _ {ℓ} {R : Type ℓ} (s : Stages R) where
  settle-Recorded :
      (message_id : String) (o : Outcome R) (e : PipelineError)
      → (settle s message_id o).1 ≡ raised e
      → Recorded s message_id e (settle s message_id o).0
  unfolding settle
  settle-Recorded message_id (t, returned r) e h = absurd (ground arith)
  settle-Recorded message_id (t, raised cause) e h =
      let failure = classify_pipeline_error s.is_daily cause in
      let same : failure ≡ e = cc in
      rw (← same) (
        (classify_pipeline_error_total s.is_daily cause).1,
        mark_error-AllRows (s.clock 5) (key_of s message_id) (message_of failure)
            (perform_all (s.others 5) t),
      )

  -- An error that the pipeline raises for a message that it fetched is classified, as retryable or as
  -- non-retryable, and every row of the message is marked as failed with its message, cut to 1024
  -- units.
  pub run_generate_records :
      (email : FetchedEmail) (t : Table) (e : PipelineError)
      → s.fetch ≡ fetched email
      → (run_generate s t).1 ≡ raised e
      → Recorded s email.message_id e (run_generate s t).0
  unfolding run_generate process
  run_generate_records email t e came h =
      let started =
        take_up s
          (start_input s email.message_id email.thread_id (s.fingerprint email.fingerprint_input))
          t in
      elim (Bool-cases started.1) [
        | inl yes_started ↦
            rw (came, after_fetch, yes_started)
              (settle-Recorded email.message_id
                (s.summarize email (perform_all (s.others 4) started.0)) e
                (rw (came, after_fetch, yes_started) at h))
        | inr not_started ↦
            let bad = rw (came, after_fetch, not_started) at h in absurd (ground (arith, bad))
      ]

  record_fetch_error-Recorded :
      (message_id : String) (cause : PipelineError) (t : Table) (e : PipelineError)
      → (record_fetch_error s message_id cause t).1 ≡ raised e
      → Recorded s message_id e (record_fetch_error s message_id cause t).0
  unfolding record_fetch_error
  record_fetch_error-Recorded message_id cause t e h =
      let failure = classify_pipeline_error s.is_daily cause in
      let started = take_up s (start_input s message_id none none) t in
      elim (Bool-cases started.1) [
        | inl yes_started ↦
            let same : failure ≡ e = ground arith in
            rw (yes_started, ← same)
              (
                (classify_pipeline_error_total s.is_daily cause).1,
                mark_error-AllRows (s.clock 4) (key_of s message_id) (message_of failure)
                    (perform_all (s.others 4) started.0),
              )
        | inr not_started ↦ absurd (ground arith)
      ]

  -- Where a fetch stage asks for its failures to be recorded, an error that the pipeline raises for
  -- such a failure is classified, and every row of the message is marked as failed with its message.
  pub run_generate_fetch-Recorded :
      (message_id : String) (cause : PipelineError) (t : Table) (e : PipelineError)
      → s.fetch ≡ fetch_failed message_id cause
      → s.record_error ≡ true
      → (run_generate s t).1 ≡ raised e
      → Recorded s message_id e (run_generate s t).0
  unfolding run_generate record_fetch_error take_up
  run_generate_fetch-Recorded message_id cause t e came recording h =
      rw (came, after_fetch, recording)
        (record_fetch_error-Recorded message_id cause t e (rw (came, after_fetch, recording) at h))
