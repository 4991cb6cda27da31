-- ===== src/Tests/Actions.antt =====
-- Runs of the operations on actions.
use mail_otter.Base.{
  IsPage, count_where, ◌+◌, ◌≤◌, ◌<◌, ◌≡◌, arith, refl, str_eq_refl, none, some, find_where, true,
}
use mail_otter.Action.{ActionRow, ActionStatus, is_pending}
use mail_otter.Action.Store.{has_id, get_for_user, execution_row}
use mail_otter.Action.Store.Statements.{perform_all, all_claims, all_inserts}
use mail_otter.Action.Store.Statements.Claims.{pending_rows, claims-le-pending_rows}
use mail_otter.Action.Execution.{Operation, start, execute_action, attempt_of}
use mail_otter.UserScope.{user_scope_sql}
use mail_otter.Action.Execution.Entry.{execute_action_for_user, execute_action_for_user_owned}
use mail_otter.Action.Execution.Once.{execute_action_once}
use mail_otter.Action.Execution.Outcome.{
  EndsWith, final_row, final_execution, execute_action_performs, execute_action_expires,
}
use mail_otter.Action.Scheduling.{
  ok, snooze_action, schedule_action, list_pending_scheduled_actions, execute_scheduled_actions,
  is_auto_executable,
}
use mail_otter.Action.Scheduling.Bounds.{
  snooze_action_bounds, schedule_action_bounds, snooze_action_stores, schedule_action_stores,
}
use mail_otter.Action.Scheduling.Due.{
  Runnable, Earlier, Ran, list_pending_scheduled_actions_lem, execute_scheduled_actions_counts,
}
use mail_otter.Tests.Data.{reply, shop, no_others, rivals, around, drafted, ann}

reply_found : find_where (has_id "a1") shop.actions ≡ some reply
unfolding find_where
reply_found = rw (str_eq_refl "a1") refl

reply_found_for_ann : get_for_user "a1" ann shop ≡ some reply
unfolding get_for_user find_where
reply_found_for_ann = rw (str_eq_refl "a1", str_eq_refl "ann@x.org") refl

execute_action_once_example :
    let r = execute_action (around 1000 rivals) reply (start shop) in
    r.operations + r.world.rival_claims ≤ pending_rows "a1" shop + r.world.inserts
execute_action_once_example = execute_action_once (around 1000 rivals) reply shop

claims-le-pending_rows_example :
    all_claims "a1" (rivals 1) shop + pending_rows "a1" (perform_all (rivals 1) shop)
    ≤ pending_rows "a1" shop + all_inserts "a1" (rivals 1) shop
claims-le-pending_rows_example = claims-le-pending_rows "a1" (rivals 1) shop

execute_action_performs_example :
    EndsWith
      (around 1000 no_others)
      reply
      (execute_action (around 1000 no_others) reply (start shop))
      shop
      (final_row (around 1000 no_others) reply (Operation.done drafted))
      (final_execution (around 1000 no_others) reply (Operation.done drafted) 0)
      1
unfolding count_where
execute_action_performs_example =
    execute_action_performs (around 1000 no_others) reply (λ k. refl) shop reply_found refl
      (omega arith) (omega arith)

execute_action_expires_example :
    EndsWith
      (around 2000 no_others)
      reply
      (execute_action (around 2000 no_others) reply (start shop))
      shop
      (record reply { status = ActionStatus.expired; error_message = none; updated_at = 2001 })
      (execution_row 2002 "x1" "a1" 0
        (attempt_of (around 2000 no_others) reply ActionStatus.expired none none))
      0
unfolding count_where
execute_action_expires_example =
    execute_action_expires (around 2000 no_others) reply (λ k. refl) shop reply_found refl
      (omega arith)

abbrev snoozed : ActionRow
snoozed = record reply { snoozed_until = some 1500; expires_at = 87900; updated_at = 1001 }

snooze_action_stores_example :
    let (t', answer) = snooze_action no_others 1000 1001 "a1" ann shop (some 1500999) in
    (answer ≡ ok snoozed) × (get_for_user "a1" ann t' ≡ some snoozed)
snooze_action_stores_example =
    snooze_action_stores no_others 1000 1001 "a1" ann shop (λ k. refl) reply reply_found_for_ann
      refl 1500999 (omega arith) (omega arith)

abbrev scheduled : ActionRow
scheduled = record reply { scheduled_for = some 1500; expires_at = 5100; updated_at = 1001 }

schedule_action_stores_example :
    let (t', answer) = schedule_action no_others 1000 1001 "a1" ann shop (some 1500999) in
    (answer ≡ ok scheduled) × (get_for_user "a1" ann t' ≡ some scheduled)
schedule_action_stores_example =
    schedule_action_stores no_others 1000 1001 "a1" ann shop (λ k. refl) reply reply_found_for_ann
      refl 1500999 (omega arith) (omega arith) refl

snooze_action_bounds_example :
    (1000 < 1500)
    × (1500 ≤ 2593000)
    × ((action : ActionRow) × (get_for_user "a1" ann shop ≡ some action)
        × (is_pending action.status ≡ true))
snooze_action_bounds_example =
    snooze_action_bounds no_others 1000 1001 "a1" ann shop 1500999 snoozed
      snooze_action_stores_example.0

schedule_action_bounds_example :
    (1000 < 1500)
    × (1500 ≤ 2593000)
    × ((action : ActionRow) × (get_for_user "a1" ann shop ≡ some action)
        × (is_pending action.status ≡ true)
        × (is_auto_executable action.action_type ≡ true))
schedule_action_bounds_example =
    schedule_action_bounds no_others 1000 1001 "a1" ann shop 1500999 scheduled
      schedule_action_stores_example.0

list_pending_scheduled_actions_example :
    IsPage (Runnable 1000) Earlier 50 shop.actions (list_pending_scheduled_actions 1000 50 shop)
list_pending_scheduled_actions_example = list_pending_scheduled_actions_lem 1000 50 shop

execute_scheduled_actions_counts_example :
    let (t', r) = execute_scheduled_actions (λ k. around 1000 no_others) 1000 shop in
    Ran
      (λ k. around 1000 no_others)
      0
      (list_pending_scheduled_actions 1000 50 shop)
      shop
      r.succeeded_count
      r.failed_count
      t'
    × (r.succeeded_count + r.failed_count ≡ r.attempted)
    × (r.attempted ≤ 50)
execute_scheduled_actions_counts_example =
    execute_scheduled_actions_counts (λ k. around 1000 no_others) 1000 shop

ann_run :
    execute_action_for_user (around 1000 no_others) "a1" ann shop
    ≡ some (execute_action (around 1000 no_others) reply (start shop))
unfolding execute_action_for_user
ann_run = rw (reply_found_for_ann, execute_action_for_user) refl

execute_action_for_user_owned_example :
    (action : ActionRow) × (execute_action (around 1000 no_others) reply (start shop)
      ≡ execute_action (around 1000 no_others) action (start shop))
    × (has_id "a1" action ≡ true)
    × (user_scope_sql ann action.user_id action.user_email ≡ true)
execute_action_for_user_owned_example =
    execute_action_for_user_owned (around 1000 no_others) "a1" ann shop
      (execute_action (around 1000 no_others) reply (start shop)) ann_run
