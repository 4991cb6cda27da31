-- ===== src/Action/Scheduling.antt =====
-- packages/backend-services/src/action/ActionSchedulingService.ts: snoozing an action, scheduling it,
-- and the background task that executes the scheduled ones. `others k` are the statements of other
-- workers before access number k to the database; a `Date` is its milliseconds.
pub mod Bounds
pub mod Due
use mail_otter.Base.{
  ℕ, zero, ◌+◌, ◌-◌, ◌/◌, String, List, [], ◌∷◌, Bool, true, false, ◌&&◌, ◌||◌, not, Option, none,
  some, if◌then◌else◌, leb, ltb, or_else, take, length, select_where, sort_by,
}
use mail_otter.UserScope.{UserScope}
use mail_otter.Action.{
  ActionRow, ActionStatus, succeeded, is_pending, ActionType, calendar_add_event, email_draft_reply,
}
use mail_otter.Action.Store.{Tables, get_for_user}
use mail_otter.Action.Store.Statements.{
  Statement, snooze, unsnooze, schedule, unschedule, perform, perform_all,
}
use mail_otter.Action.Execution.{Surroundings, Run, start, execute_action}

pub data ServiceError : Type 0 where
  not_found : ServiceError
  only_pending not_in_future beyond_limit unsupported_type : ServiceError

pub data Result {ℓ} (A : Type ℓ) : Type ℓ where
  ok : A → Result A
  err : ServiceError → Result A

abbrev pub max_snooze_seconds : ℕ
max_snooze_seconds = 2592000

abbrev pub snooze_expiry_buffer_seconds : ℕ
snooze_expiry_buffer_seconds = 86400

abbrev pub schedule_expiry_buffer_seconds : ℕ
schedule_expiry_buffer_seconds = 3600

abbrev pub is_auto_executable : ActionType → Bool
is_auto_executable calendar_add_event = true
is_auto_executable email_draft_reply = true
is_auto_executable _ = false

module _ (others : ℕ → List Statement) (now now' : ℕ) (id : String) (scope : UserScope)
    (t : Tables) where
  -- The statement is sent, and the action is read again.
  unfoldable pub apply : ActionRow → Statement → Tables × Result ActionRow
  apply action s =
      let t' = perform_all (others 1) (perform s (perform_all (others 0) t)).0 in
      (t', ok (or_else (get_for_user id scope t') action))

  abbrev pub refuse : ServiceError → Tables × Result ActionRow
  refuse error = (t, err error)

  -- The tests on a time, which both services make, and what follows where they pass.
  unfoldable pub within_limit : ℕ → Tables × Result ActionRow → Tables × Result ActionRow
  within_limit ts accepted =
      if leb ts now
      then refuse not_in_future
      else if ltb max_snooze_seconds (ts - now)
      then refuse beyond_limit
      else accepted

  unfoldable pub snooze_pending : Option ℕ → ActionRow → Tables × Result ActionRow
  unfolding apply within_limit
  snooze_pending none action = apply action (unsnooze now' id)
  snooze_pending (some date) action =
      let ts = date / 1000 in
      within_limit ts (apply action (snooze now' id ts (ts + snooze_expiry_buffer_seconds)))

  -- `snoozeAction`
  unfoldable pub snooze_action : Option ℕ → Tables × Result ActionRow
  unfolding snooze_pending
  snooze_action until = elim (get_for_user id scope t) [
    | none ↦ refuse not_found
    | some action ↦
        if is_pending action.status then snooze_pending until action else refuse only_pending
  ]

  unfoldable pub schedule_pending : Option ℕ → ActionRow → Tables × Result ActionRow
  unfolding apply within_limit
  schedule_pending none action = apply action (unschedule now' id)
  schedule_pending (some date) action =
      let ts = date / 1000 in
      if is_auto_executable action.action_type
      then within_limit ts
          (apply action (schedule now' id ts (ts + schedule_expiry_buffer_seconds)))
      else refuse unsupported_type

  -- `scheduleAction`
  unfoldable pub schedule_action : Option ℕ → Tables × Result ActionRow
  unfolding schedule_pending
  schedule_action at_time = elim (get_for_user id scope t) [
    | none ↦ refuse not_found
    | some action ↦
        if is_pending action.status then schedule_pending at_time action else refuse only_pending
  ]

-- `snoozed_until IS NULL OR snoozed_until <= now`
abbrev pub is_awake : ℕ → Option ℕ → Bool
is_awake now none = true
is_awake now (some until) = leb until now

-- `scheduled_for IS NOT NULL AND scheduled_for <= now`
abbrev pub is_due : ℕ → Option ℕ → Bool
is_due now none = false
is_due now (some at_time) = leb at_time now

abbrev pub is_runnable : ℕ → ActionRow → Bool
is_runnable now row =
    is_pending row.status && (is_due now row.scheduled_for && is_awake now row.snoozed_until)

abbrev pub before : Option ℕ → Option ℕ → Bool
before none _ = true
before (some _) none = false
before (some a) (some b) = leb a b

-- `ORDER BY scheduled_for ASC`
abbrev pub earlier : ActionRow → ActionRow → Bool
earlier a b = before a.scheduled_for b.scheduled_for

-- `EmailActionDAO.listPendingScheduledActions`
unfoldable pub list_pending_scheduled_actions : ℕ → ℕ → Tables → List ActionRow
list_pending_scheduled_actions now limit t =
    take limit (sort_by earlier (select_where (is_runnable now) t.actions))

pub record ScheduledExecutionResult : Type 0 where
  pub attempted : ℕ
  pub succeeded_count : ℕ
  pub failed_count : ℕ

abbrev pub is_succeeded : ActionStatus → Bool
is_succeeded succeeded = true
is_succeeded _ = false

-- Whether the run of one action counts as succeeded; one that throws does not.
abbrev pub run_succeeded : Option ActionRow → Bool
run_succeeded none = false
run_succeeded (some row) = is_succeeded row.status

-- The loop of `executeScheduledActions`. `around k` is what surrounds the run of action number k.
unfoldable pub execute_each :
    (ℕ → Surroundings) → ℕ → List ActionRow → Tables → ℕ → ℕ → Tables × ℕ × ℕ
execute_each around k [] t succeeded_count failed_count = (t, succeeded_count, failed_count)
execute_each around k (action ∷ actions) t succeeded_count failed_count =
    let run = execute_action (around k) action (start t) in
    let good = run_succeeded run.returned in
    execute_each around (k + 1) actions run.world.tables
      (if good then succeeded_count + 1 else succeeded_count)
      (if good then failed_count else failed_count + 1)

unfoldable pub execute_scheduled_actions :
    (ℕ → Surroundings) → ℕ → Tables → Tables × ScheduledExecutionResult
unfolding execute_each list_pending_scheduled_actions
execute_scheduled_actions around now t =
    let actions = list_pending_scheduled_actions now 50 t in
    let (t', good, bad) = execute_each around 0 actions t 0 0 in
    (t', record { attempted = length actions; succeeded_count = good; failed_count = bad })
