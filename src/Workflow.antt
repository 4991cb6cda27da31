-- ===== src/Workflow.antt =====
-- apps/background/src/EmailProcessingWorkflow.ts: the workflow that a notification of a provider starts.
-- The services that it calls, the steps of the platform (`step.do`) and the mailbox connection are
-- parameters; every call that it makes is put down in a log, the newest first, and a service may answer
-- by what happened before.
pub mod Steps
pub mod Order
pub mod Messages
pub mod Laws
pub mod Bounds
pub mod Dispatch
use mail_otter.Base.{ℕ, codes, String, List, [], ◌∷◌, Bool, true, false, Option, none, some}
use mail_otter.Action.{Text}

-- The classes of error that `toWorkflowError` tells apart, with the message; `named` is the class's own name.
pub data Failure : Type 0 where
  token_non_retryable retryable unclassified : Text → Failure
  non_retryable : (named : Text) → Text → Failure
  database : (may_retry : Bool) → Text → Failure

-- What a step throws, and what leaves the workflow: the platform's `NonRetryableError` with message
-- and name, the program's `RetryableError`, and an error outside every step, as it came.
pub data WorkflowError : Type 0 where
  give_up : Text → Text → WorkflowError
  try_again : Text → WorkflowError
  outside : Failure → WorkflowError

pub data Result (A : Type 0) : Type 0 where
  ok : A → Result A
  err : WorkflowError → Result A

-- How a service ends.
pub data Answer (A : Type 0) : Type 0 where
  gave : A → Answer A
  threw : Failure → Answer A

abbrev pub database_error : Text
database_error = codes "DatabaseError"

-- `toWorkflowError`
unfoldable pub to_workflow_error : Failure → WorkflowError
to_workflow_error (token_non_retryable m) = try_again m
to_workflow_error (non_retryable named m) = give_up m named
to_workflow_error (retryable m) = try_again m
to_workflow_error (database false m) = give_up m database_error
to_workflow_error (database true m) = try_again m
to_workflow_error (unclassified m) = try_again m

-- The `try` of a step's body
abbrev pub caught : {A : Type 0} → Answer A → Result A
caught (gave a) = ok a
caught (threw f) = err (to_workflow_error f)

-- The message that a summary is made of.
pub data MessageRef : Type 0 where
  gmail outlook jmap : String → MessageRef
  imap : ℕ → MessageRef

-- `EmailQueueMessage`, with what the workflow reads of it.
pub data Payload : Type 0 where
  gmail_notification : (history_id : String) → Payload
  outlook_notification : (message_id : String) → Payload
  jmap_notification : (email_id : String) → Payload
  imap_notification : (message_uids : List ℕ) → Payload

-- `GmailMessageList`
pub record MessageList : Type 0 where
  pub message_ids : List String
  pub subscription_id : String
  pub history_id : String

-- A call, with how it ended; a summary is generated with the number of the attempt.
pub data Event (S : Type 0) : Type 0 where
  resolved : Event S
  listed : Result (Option MessageList) → Event S
  generated : MessageRef → ℕ → Result (Option S) → Event S
  sent : S → Result Unit → Event S
  integrated : S → Result Unit → Event S
  history_updated : (subscription_id history_id : String) → Result Unit → Event S
  connected : Event S
  closed : Event S

abbrev pub Log : Type 0 → Type 0
Log S = List (Event S)

-- The services, each of which may answer by what the log holds. `R` is what resolving the application gives.
pub record Services (R S : Type 0) : Type 0 where
  pub resolve_application : Log S → Answer R
  pub list_messages : R → String → Log S → Answer (Option MessageList)
  pub generate_summary : R → MessageRef → ℕ → Log S → Answer (Option S)
  pub send_summary : S → Log S → Answer Unit
  pub send_to_integrations : S → Log S → Answer Unit
  pub update_history : String → String → Log S → Answer Unit
  pub connect : R → Log S → Answer Unit
  pub close : Log S → Answer Unit

-- A part of the workflow: it reads and extends the log, and ends with a value or an error.
abbrev pub Flow : Type 0 → Type 0 → Type 0
Flow S A = Log S → Log S × Result A

-- An error of the clean-up takes the place of what was returned.
abbrev pub unless_failed : {A : Type 0} → Result Unit → Result A → Result A
unless_failed (ok _) r = r
unless_failed (err e) r = err e

module _ {S : Type 0} where
  abbrev pub pure : {A : Type 0} → A → Flow S A
  pure a log = (log, ok a)

  abbrev pub resume : {A B : Type 0} → Log S × Result A → (A → Flow S B) → Log S × Result B
  resume (log, ok a) f = f a log
  resume (log, err e) f = (log, err e)

  infixl 5 ◌>>=◌ ◌>>◌
  unfoldable pub ◌>>=◌ : {A B : Type 0} → Flow S A → (A → Flow S B) → Flow S B
  (m >>= f) log = resume (m log) f

  abbrev pub ◌>>◌ : {A B : Type 0} → Flow S A → Flow S B → Flow S B
  m >> k = m >>= λ _. k

  -- A call inside a step, put down with how it ended.
  abbrev pub call : {A : Type 0} → (Result A → Event S) → (Log S → Answer A) → Flow S A
  call event service log = let r = caught (service log) in (event r ∷ log, r)

  -- A call outside every step
  abbrev pub bare_call : Event S → (Log S → Answer Unit) → Flow S Unit
  bare_call event service log =
      (event ∷ log, elim (service log) [ gave a ↦ ok a | threw f ↦ err (outside f) ])

  -- `try { ... } finally { ... }`
  abbrev pub finally : {A : Type 0} → Flow S A → Flow S Unit → Flow S A
  finally m cleanup log =
      let (log', r) = m log in let (log'', c) = cleanup log' in (log'', unless_failed c r)

-- `step.do(name, { retries: { limit } }, body)`, the body given the number of the attempt
pub record Platform (S : Type 0) : Type 1 where
  pub step_do : {A : Type 0} → ℕ → (ℕ → Flow S A) → Flow S A

abbrev pub gmail_refs : List String → List MessageRef
gmail_refs [] = []
gmail_refs (id ∷ ids) = gmail id ∷ gmail_refs ids

abbrev pub imap_refs : List ℕ → List MessageRef
imap_refs [] = []
imap_refs (uid ∷ uids) = imap uid ∷ imap_refs uids

module _ {R S : Type 0} (p : Platform S) (s : Services R S) where
  -- The two steps after the first, unless there is no summary.
  unfoldable pub deliver : Option S → Flow S Unit
  deliver none = pure tt
  deliver (some summary) =
      p.step_do 3 (λ _. call (sent summary) (s.send_summary summary))
      >> p.step_do 2 (λ _. call (integrated summary) (s.send_to_integrations summary))

  -- The three steps that a message goes through.
  unfoldable pub handle_message : R → MessageRef → Flow S Unit
  handle_message r message = do
    summary_data ←
        p.step_do 5
          (λ attempt. call (generated message attempt) (s.generate_summary r message attempt))
    deliver summary_data

  unfoldable pub handle_messages : R → List MessageRef → Flow S Unit
  handle_messages r [] = pure tt
  handle_messages r (message ∷ messages) = handle_message r message >> handle_messages r messages

  unfoldable pub update_history_step : MessageList → Flow S Unit
  update_history_step l = p.step_do 3 (λ _.
      call (history_updated l.subscription_id l.history_id)
        (s.update_history l.subscription_id l.history_id))

  unfoldable pub on_gmail_list : R → Option MessageList → Flow S Unit
  on_gmail_list r none = pure tt
  on_gmail_list r (some l) = handle_messages r (gmail_refs l.message_ids) >> update_history_step l

  unfoldable pub on_gmail : R → String → Flow S Unit
  on_gmail r history_id =
      p.step_do 3 (λ _. call listed (s.list_messages r history_id)) >>= on_gmail_list r

  unfoldable pub on_imap : R → List ℕ → Flow S Unit
  on_imap r uids =
      finally (bare_call connected (s.connect r) >> handle_messages r (imap_refs uids))
        (bare_call closed s.close)

  unfoldable pub on_payload : Payload → R → Flow S Unit
  on_payload (gmail_notification history_id) r = on_gmail r history_id
  on_payload (outlook_notification message_id) r = handle_message r (outlook message_id)
  on_payload (jmap_notification email_id) r = handle_message r (jmap email_id)
  on_payload (imap_notification uids) r = on_imap r uids

  -- `onWorkflow`; what it returns says only that the run finished.
  unfoldable pub on_workflow : Payload → Flow S Unit
  on_workflow payload =
      p.step_do 3 (λ _. call (λ _. resolved) s.resolve_application) >>= on_payload payload
