-- ===== src/Action/Store.antt =====
-- packages/backend-data/src/dao/EmailActionDAO.ts and EmailActionQueries.ts: the statements on the
-- tables email_summary_actions and email_action_executions. A method that reads the clock takes
-- the reading as `now`. A statement returns the tables and `meta.changes`; an insertion that breaks
-- a constraint throws, which is `none`.
pub mod Statements
use mail_otter.Base.{
  ℕ, ◌+◌, max, String, str_eq, List, [], ◌∷◌, ◌++◌, Bool, true, false, ◌&&◌, ◌||◌, Option, none,
  some, if◌then◌else◌, leb, ltb, take, or_else, find_where, count_where, update_where, delete_where,
  update_first, delete_first, min,
}
use mail_otter.UserScope.{UserScope, user_scope_sql, truthy}
use mail_otter.Action.{
  ActionRow, ExecutionRow, ActionStatus, pending, executing, succeeded, failed, expired, ActionType,
  RiskLevel, ProviderId, Trigger, Sealed, Text, is_pending,
}

pub record Tables : Type 0 where
  pub actions : List ActionRow
  pub executions : List ExecutionRow

abbrev pub has_id : String → ActionRow → Bool
has_id id row = str_eq row.action_id id

-- `errorMessage ? errorMessage.slice(0, 1024) : null`
unfoldable pub clip_message : Text → Option Text
clip_message [] = none
clip_message (c ∷ cs) = some (take 1024 (c ∷ cs))

pub record CreateEmailActionInput : Type 0 where
  pub action_id : String
  pub processed_message_id : String
  pub application_id : String
  pub user_email : String
  pub user_id : Option String
  pub provider_id : ProviderId
  pub provider_message_id : String
  pub provider_thread_id : Option String
  pub action_type : ActionType
  pub risk_level : RiskLevel
  pub token_hash : String
  pub payload : Sealed
  pub expires_at : ℕ

unfoldable pub created_row : ℕ → CreateEmailActionInput → ActionRow
created_row now input = record {
  action_id = input.action_id;
  processed_message_id = input.processed_message_id;
  application_id = input.application_id;
  user_email = input.user_email;
  user_id = input.user_id;
  provider_id = input.provider_id;
  provider_message_id = input.provider_message_id;
  provider_thread_id = truthy input.provider_thread_id;
  action_type = input.action_type;
  status = pending;
  risk_level = input.risk_level;
  token_hash = input.token_hash;
  payload = input.payload;
  result = none;
  error_message = none;
  sync_status = none;
  sync_updated_at = none;
  snoozed_until = none;
  scheduled_for = none;
  expires_at = input.expires_at;
  executed_at = none;
  created_at = now;
  updated_at = now;
}

-- action_id is the primary key, and token_hash is unique.
abbrev pub conflicts : ActionRow → ActionRow → Bool
conflicts new row = str_eq row.action_id new.action_id || str_eq row.token_hash new.token_hash

-- The insertion of `create`. That it reads the row back, and fails where this is gone, stands in
-- Action.Creation.Run, between the statements of other workers.
unfoldable pub create : ℕ → CreateEmailActionInput → Tables → Option Tables
unfolding created_row
create now input t =
    let row = created_row now input in
    elim (find_where (conflicts row) t.actions) [
      | some _ ↦ none
      | none ↦ some (record t { actions = t.actions ++ row ∷ [] })
    ]

abbrev pub Outcome : Type 0
Outcome = Tables × ℕ

-- An update of all rows that satisfy a condition.
unfoldable pub update : (ActionRow → Bool) → (ActionRow → ActionRow) → Tables → Outcome
update p f t = (record t { actions = update_where p f t.actions }, count_where p t.actions)

abbrev pub is_claimable : ℕ → String → ActionRow → Bool
is_claimable now id row = has_id id row && is_pending row.status && ltb now row.expires_at

abbrev pub claimed : ℕ → ActionRow → ActionRow
claimed now row = record row { status = executing; updated_at = now }

unfoldable pub claim_for_execution : ℕ → String → Tables → Outcome
unfolding update
claim_for_execution now id = update (is_claimable now id) (claimed now)

abbrev pub set_succeeded : ℕ → Sealed → ActionRow → ActionRow
set_succeeded now sealed row = record row {
  status = succeeded;
  result = some sealed;
  error_message = none;
  executed_at = some now;
  updated_at = now;
}

unfoldable pub mark_succeeded : ℕ → String → Sealed → Tables → Outcome
unfolding update
mark_succeeded now id sealed = update (has_id id) (set_succeeded now sealed)

abbrev pub set_status : ℕ → ActionStatus → Option Text → Bool → ActionRow → ActionRow
set_status now status message executed row = record row {
  status = status;
  error_message = message;
  executed_at = if executed then some now else row.executed_at;
  updated_at = now;
}

unfoldable pub mark_failed : ℕ → String → Text → Tables → Outcome
unfolding update
mark_failed now id message = update (has_id id) (set_status now failed (clip_message message) true)

unfoldable pub mark_expired : ℕ → String → Tables → Outcome
unfolding update
mark_expired now id = update (has_id id) (set_status now expired none false)

abbrev pub is_overdue : ℕ → ActionRow → Bool
is_overdue now row = is_pending row.status && leb row.expires_at now

abbrev pub set_expired : ℕ → ActionRow → ActionRow
set_expired now row = record row { status = expired; updated_at = now }

unfoldable pub expire_pending_actions : ℕ → ℕ → Tables → Outcome
expire_pending_actions now limit t = (
  record t { actions = update_first limit (is_overdue now) (set_expired now) t.actions },
  min limit (count_where (is_overdue now) t.actions),
)

abbrev pub is_pending_id : String → ActionRow → Bool
is_pending_id id row = has_id id row && is_pending row.status

abbrev pub set_snooze : ℕ → ℕ → ℕ → ActionRow → ActionRow
set_snooze now until new_expires_at row = record row {
  snoozed_until = some until;
  expires_at = max row.expires_at new_expires_at;
  updated_at = now;
}

unfoldable pub snooze_action : ℕ → String → ℕ → ℕ → Tables → Outcome
unfolding update
snooze_action now id until new_expires_at =
    update (is_pending_id id) (set_snooze now until new_expires_at)

abbrev pub clear_snooze : ℕ → ActionRow → ActionRow
clear_snooze now row = record row { snoozed_until = none; updated_at = now }

unfoldable pub cancel_snooze : ℕ → String → Tables → Outcome
unfolding update
cancel_snooze now id = update (is_pending_id id) (clear_snooze now)

abbrev pub set_schedule : ℕ → ℕ → ℕ → ActionRow → ActionRow
set_schedule now at_time new_expires_at row = record row {
  scheduled_for = some at_time;
  expires_at = max row.expires_at new_expires_at;
  updated_at = now;
}

unfoldable pub schedule_action : ℕ → String → ℕ → ℕ → Tables → Outcome
unfolding update
schedule_action now id at_time new_expires_at =
    update (is_pending_id id) (set_schedule now at_time new_expires_at)

abbrev pub clear_schedule : ℕ → ActionRow → ActionRow
clear_schedule now row = record row { scheduled_for = none; updated_at = now }

unfoldable pub cancel_schedule : ℕ → String → Tables → Outcome
unfolding update
cancel_schedule now id = update (is_pending_id id) (clear_schedule now)

abbrev pub set_sync : ℕ → String → ActionRow → ActionRow
set_sync now sync_status row = record row {
  sync_status = some sync_status;
  sync_updated_at = some now;
}

unfoldable pub update_sync_status : ℕ → String → String → Tables → Outcome
unfolding update
update_sync_status now id sync_status = update (has_id id) (set_sync now sync_status)

-- `ON DELETE CASCADE`: an execution goes with its action.
abbrev pub has_action : List ActionRow → ExecutionRow → Bool
has_action rows e = elim (find_where (has_id e.action_id) rows) [ none ↦ false | some _ ↦ true ]

unfoldable pub keep_actions : List ActionRow → Tables → Tables
keep_actions rows t = record {
  actions = rows;
  executions = delete_where (λ e. if has_action rows e then false else true) t.executions;
}

abbrev pub is_pending_of : String → ActionRow → Bool
is_pending_of id row = str_eq row.processed_message_id id && is_pending row.status

unfoldable pub delete_by_processed_message_id : String → Tables → Outcome
unfolding keep_actions
delete_by_processed_message_id id t = (
  keep_actions (delete_where (is_pending_of id) t.actions) t,
  count_where (is_pending_of id) t.actions,
)

-- The statuses that `deleteOlderThan` lists.
abbrev pub is_deletable : ActionStatus → Bool
is_deletable succeeded = true
is_deletable failed = true
is_deletable expired = true
is_deletable pending = true
is_deletable _ = false

abbrev pub is_old : ℕ → ActionRow → Bool
is_old older_than row = ltb row.updated_at older_than && is_deletable row.status

unfoldable pub delete_older_than : ℕ → ℕ → Tables → Outcome
unfolding keep_actions
delete_older_than older_than limit t = (
  keep_actions (delete_first limit (is_old older_than) t.actions) t,
  min limit (count_where (is_old older_than) t.actions),
)

unfoldable pub get_for_user : String → UserScope → Tables → Option ActionRow
unfolding user_scope_sql
get_for_user id scope t =
    find_where (λ row. has_id id row && user_scope_sql scope row.user_id row.user_email) t.actions

unfoldable pub get_by_token_hash : String → String → Tables → Option ActionRow
get_by_token_hash id token_hash t =
    find_where (λ row. has_id id row && str_eq row.token_hash token_hash) t.actions

pub record RecordExecutionInput : Type 0 where
  pub triggered_by : Trigger
  pub status : ActionStatus
  pub provider_operation_id : Option String
  pub request_user_agent_hash : Option String
  pub error_message : Option Text

abbrev clip_optional : Option Text → Option Text
clip_optional none = none
clip_optional (some message) = clip_message message

-- `countExecutions`
abbrev pub count_executions : String → Tables → ℕ
count_executions id t = count_where (λ e. str_eq e.action_id id) t.executions

-- The row that `recordExecution` inserts, with a fresh `execution_id`. No caller passes `attempt`,
-- `createdAt` or `completedAt`.
unfoldable pub execution_row : ℕ → String → String → ℕ → RecordExecutionInput → ExecutionRow
unfolding clip_message
execution_row now execution_id id attempts input = record {
  execution_id = execution_id;
  action_id = id;
  attempt = attempts + 1;
  triggered_by = input.triggered_by;
  status = input.status;
  provider_operation_id = truthy input.provider_operation_id;
  request_user_agent_hash = truthy input.request_user_agent_hash;
  error_message = clip_optional input.error_message;
  created_at = now;
  completed_at = some now;
}

-- The insertion; action_id refers to a row of email_summary_actions.
unfoldable pub insert_execution : ExecutionRow → Tables → Option Tables
insert_execution e t =
    if has_action t.actions e then some (record t { executions = t.executions ++ e ∷ [] }) else none
