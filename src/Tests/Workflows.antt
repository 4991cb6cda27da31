-- ===== src/Tests/Workflows.antt =====
-- Concrete runs of the workflow and of its dispatcher.
use mail_otter.Base.{
  starts_with_ignoring_case, lower, ℕ, zero, suc, ◌+◌, ◌*◌, ◌≤◌, ◌≡◌, refl, arith, String, List, [],
  ◌∷◌, inl, inr, Bool, true, false, Bool-cases, Option, none, some, length, codes, str_eq, leb, any,
  ◌&&◌, ◌==◌, if◌then◌else◌,
}
use mail_otter.Action.{Text}
use mail_otter.Workflow.{
  Result, ok, err, give_up, Answer, gave, threw, retryable, MessageRef, gmail, gmail_notification,
  MessageList, Log, Flow, Platform, Services, ◌>>=◌, deliver, handle_message, handle_messages,
  update_history_step, on_gmail_list, on_gmail, on_payload, on_workflow, to_workflow_error,
}
use mail_otter.Workflow.Steps.{Attempts, finished, again, Documented}
use mail_otter.Workflow.Order.{InOrder}
use mail_otter.Workflow.Laws.{Done, on_workflow-InOrder, on_workflow_finished}
use mail_otter.Workflow.Bounds.{on_workflow-length, ListsAtMost}
use mail_otter.Workflow.Dispatch.{
  QueueMessage, InstanceOptions, Fate, acked, retried, Workflows, matches,
  is_duplicate_workflow_error, get_workflow_instance_id, workflow_input, workflow_inputs, fate_of,
  dispatch_each, on_queue,
}

-- Whether a step is tried again after it ended so.
abbrev goes_on : {A : Type 0} → Result A → Bool
goes_on (ok a) = false
goes_on (err (give_up m named)) = false
goes_on (err e) = true

module _ {S A : Type 0} (body : ℕ → Flow S A) where
  -- The attempts of a platform that tries again at once, `left` times at most.
  abbrev attempts : ℕ → ℕ → Log S → Log S × Result A
  attempts zero n log = body n log
  attempts (suc left) n log =
      let rest = attempts left (suc n) (body n log).0 in
      if goes_on (body n log).1 then rest else body n log

  attempts-Attempts :
      (limit left n : ℕ) (log : Log S)
      → left + n ≤ limit + 1
      → Attempts limit body n log (attempts left n log)
  attempts-Attempts limit zero n log h = finished
  attempts-Attempts limit (suc left) n log h = elim (Bool-cases (goes_on (body n log).1)) [
    | inl more ↦
        rw more
          (again (omega arith) (attempts-Attempts limit left (suc n) (body n log).0 (omega arith)))
    | inr last ↦ rw last finished
  ]

abbrev prompt : (S : Type 0) → Platform S
prompt S = record { step_do = λ limit body log. attempts body limit 1 log }

prompt-Documented : (S : Type 0) → Documented (prompt S)
prompt-Documented S A limit body log = attempts-Attempts body limit limit 1 log (omega arith)

-- Two messages are listed. For the first one, the first attempt fails, and the third attempt to send
-- is the one that succeeds; the second one needs no summary.
abbrev two_listed : MessageList
two_listed = record { message_ids = "m1" ∷ "m2" ∷ []; subscription_id = "sub"; history_id = "h2" }

abbrev summary_of : MessageRef → ℕ → Answer (Option ℕ)
summary_of m (suc zero) = threw (retryable (codes "busy"))
summary_of (gmail id) n = if str_eq id "m1" then gave (some 7) else gave none
summary_of _ n = gave (some 8)

abbrev send_at : Log ℕ → Answer Unit
send_at log = if leb (length log) 5 then threw (retryable (codes "down")) else gave tt

abbrev services : Services ℕ ℕ
services = record {
  resolve_application = λ log. gave 0;
  list_messages = λ r h log. gave (some two_listed);
  generate_summary = λ r m n log. summary_of m n;
  send_summary = λ d log. send_at log;
  send_to_integrations = λ d log. gave tt;
  update_history = λ sub h log. gave tt;
  connect = λ r log. gave tt;
  close = λ log. gave tt;
}

abbrev gmail_run : Log ℕ × Result Unit
gmail_run = on_workflow (prompt ℕ) services (gmail_notification "h1") []

gmail_run_finishes : gmail_run.1 ≡ ok tt
unfolding on_workflow on_payload on_gmail on_gmail_list handle_messages handle_message deliver
    update_history_step ◌>>=◌ to_workflow_error str_eq
gmail_run_finishes = refl

gmail_run_calls : length gmail_run.0 ≡ 11
unfolding on_workflow on_payload on_gmail on_gmail_list handle_messages handle_message deliver
    update_history_step ◌>>=◌ to_workflow_error str_eq
gmail_run_calls = refl

on_workflow-InOrder_example : InOrder gmail_run.0
on_workflow-InOrder_example =
    on_workflow-InOrder (prompt ℕ) services (prompt-Documented ℕ) (gmail_notification "h1")

on_workflow_finished_example : Done (gmail_notification "h1") gmail_run.0
on_workflow_finished_example =
    on_workflow_finished (prompt ℕ) services (prompt-Documented ℕ) (gmail_notification "h1")
      gmail_run_finishes

two_at_most :
    (r : ℕ) (h : String) (log : Log ℕ) (o : Option MessageList)
    → services.list_messages r h log ≡ gave o
    → ListsAtMost 2 o
two_at_most r h log o e = let same : some two_listed ≡ o = cc in rw (← same) (omega arith)

on_workflow-length_example : length gmail_run.0 ≤ 12 + 13 * 2
on_workflow-length_example =
    on_workflow-length (prompt ℕ) services (prompt-Documented ℕ) 2 two_at_most
      (gmail_notification "h1")

-- Workflows as the list of their ids. A batch is always refused, and so is an instance whose id is too long.
abbrev same_text : Text → Text → Bool
same_text [] [] = true
same_text (c ∷ cs) (d ∷ ds) = c == d && same_text cs ds
same_text _ _ = false

abbrev start_one : InstanceOptions ℕ → List Text → List Text × Option Text
start_one i w =
    if any (same_text i.id) w
    then (w, some (codes "Instance ALREADY exists"))
    else if leb 8 (length i.id)
    then (w, some (codes "id too long"))
    else (i.id ∷ w, none)

abbrev workflows : Workflows ℕ (List Text)
workflows = record { create_batch = λ is w. (w, some (codes "busy")); create = start_one }

abbrev letters : List (QueueMessage ℕ)
letters =
    record { id = codes "a"; body = 1 }
    ∷ record { id = codes "bcd"; body = 2 }
    ∷ record { id = codes "a"; body = 3 }
    ∷ []

abbrev dispatched : List Text × List Fate
dispatched = on_queue (λ t. t) workflows (codes "q") letters []

dispatched_fates : dispatched.1 ≡ acked ∷ retried ∷ acked ∷ []
unfolding on_queue dispatch_each workflow_inputs workflow_input fate_of is_duplicate_workflow_error
    matches starts_with_ignoring_case lower get_workflow_instance_id
dispatched_fates = refl

abbrev Started : List Text → Text → Type 0
Started w id = any (same_text id) w ≡ true
