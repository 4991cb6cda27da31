-- ===== src/Action/Store/Statements.antt =====
-- Every statement that changes the table email_summary_actions, as data: what the workers of the
-- application, in any interleaving, send to the database is a list of these.
pub mod Claims
use mail_otter.Base.{
  ℕ, ◌+◌, String, str_eq, List, [], ◌∷◌, Option, none, some, if◌then◌else◌, count_where,
  delete_where,
}
use mail_otter.Action.{ActionRow, ExecutionRow, Sealed, Text}
use mail_otter.Action.Store.{
  Tables, CreateEmailActionInput, Outcome, create, claim_for_execution, mark_succeeded, mark_failed,
  mark_expired, expire_pending_actions, snooze_action, cancel_snooze, schedule_action,
  cancel_schedule, update_sync_status, keep_actions, delete_by_processed_message_id,
  delete_older_than, insert_execution,
}

pub data Statement : Type 0 where
  create_action : ℕ → CreateEmailActionInput → Statement
  claim : ℕ → String → Statement
  succeed : ℕ → String → Sealed → Statement
  fail : ℕ → String → Text → Statement
  expire : ℕ → String → Statement
  expire_overdue : ℕ → ℕ → Statement
  snooze : ℕ → String → ℕ → ℕ → Statement
  unsnooze : ℕ → String → Statement
  schedule : ℕ → String → ℕ → ℕ → Statement
  unschedule : ℕ → String → Statement
  set_sync_status : ℕ → String → String → Statement
  delete_pending_of_message : String → Statement
  prune : ℕ → ℕ → Statement
  record_attempt : ExecutionRow → Statement
  -- `ON DELETE CASCADE` from processed_messages and from connected_applications.
  drop_message : String → Statement
  drop_application : String → Statement

-- An insertion that throws leaves the tables as they were.
abbrev pub or_unchanged : Tables → Option Tables → Outcome
or_unchanged t none = (t, 0)
or_unchanged t (some t') = (t', 1)

abbrev pub cascade : (ActionRow → String) → String → Tables → Outcome
cascade column id t = (
  keep_actions (delete_where (λ row. str_eq (column row) id) t.actions) t,
  count_where (λ row. str_eq (column row) id) t.actions,
)

unfoldable pub perform : Statement → Tables → Outcome
perform (create_action now input) t = or_unchanged t (create now input t)
perform (claim now id) t = claim_for_execution now id t
perform (succeed now id sealed) t = mark_succeeded now id sealed t
perform (fail now id message) t = mark_failed now id message t
perform (expire now id) t = mark_expired now id t
perform (expire_overdue now limit) t = expire_pending_actions now limit t
perform (snooze now id until new_expires_at) t = snooze_action now id until new_expires_at t
perform (unsnooze now id) t = cancel_snooze now id t
perform (schedule now id at_time new_expires_at) t = schedule_action now id at_time new_expires_at t
perform (unschedule now id) t = cancel_schedule now id t
perform (set_sync_status now id status) t = update_sync_status now id status t
perform (delete_pending_of_message id) t = delete_by_processed_message_id id t
perform (prune older_than limit) t = delete_older_than older_than limit t
perform (record_attempt e) t = or_unchanged t (insert_execution e t)
perform (drop_message id) t = cascade (λ row. row.processed_message_id) id t
perform (drop_application id) t = cascade (λ row. row.application_id) id t

unfoldable pub perform_all : List Statement → Tables → Tables
perform_all [] t = t
perform_all (s ∷ ss) t = perform_all ss (perform s t).0

-- The rows that this statement claims for the action.
unfoldable pub claims_of : String → Statement → Tables → ℕ
claims_of id (claim now id') t = if str_eq id' id then (perform (claim now id') t).1 else 0
claims_of id _ t = 0

-- The rows that this statement inserts for the action.
unfoldable pub inserts_of : String → Statement → Tables → ℕ
inserts_of id (create_action now input) t =
    if str_eq input.action_id id then (perform (create_action now input) t).1 else 0
inserts_of id _ t = 0

unfoldable pub all_claims : String → List Statement → Tables → ℕ
unfolding claims_of
all_claims id [] t = 0
all_claims id (s ∷ ss) t = claims_of id s t + all_claims id ss (perform s t).0

unfoldable pub all_inserts : String → List Statement → Tables → ℕ
unfolding inserts_of
all_inserts id [] t = 0
all_inserts id (s ∷ ss) t = inserts_of id s t + all_inserts id ss (perform s t).0
