-- ===== src/Action/Execution/Alone.antt =====
-- What one run of `executeAction` does where no other worker interferes.
use native.Mathlib.Nat.{add-zero}
use mail_otter.Base.{
  ℕ, ◌+◌, ◌≡◌, arith, refl, ap, ◌∙◌, str_eq, str_eq_refl, none, some, true, false, Bool, [], ◌∷◌,
  ◌++◌, find_where, find-update_where, find_where-and, find_where-append, find_where-holds,
}
use mail_otter.UserScope.{scope_for_anchor, user_scope_sql}
use mail_otter.Action.{ActionRow, ExecutionRow, Text, succeeded, failed, expired}
use mail_otter.Action.Store.{
  Tables, RecordExecutionInput, has_id, update, set_succeeded, set_status, clip_message,
  execution_row, count_executions, insert_execution, get_for_user, mark_succeeded, mark_failed,
  mark_expired,
}
use mail_otter.Action.Store.Statements.{
  record_attempt, perform, perform_all, all_claims, all_inserts,
}
use mail_otter.Action.Execution.{
  Surroundings, World, Run, ActionResult, wait, send, on_changes, on_thrown, read_back,
  record_execution, returning, expire_action, fail_action, succeed_action, has_execution,
  attempt_of,
}

module _ (e : Surroundings) (action : ActionRow) (alone : (k : ℕ) → e.others k ≡ []) where
  pub wait_alone : (k : ℕ) (w : World) → wait e action k w ≡ w
  unfolding wait perform_all all_claims all_inserts
  wait_alone k w = rw (alone k, add-zero, add-zero)

  -- The world with one more execution.
  abbrev pub recorded : ExecutionRow → World → World
  recorded x w = record w {
    tables = record { actions = w.tables.actions; executions = w.tables.executions ++ x ∷ [] };
  }

  read_back_alone :
      (k : ℕ) (x : ExecutionRow) (w : World)
      → x.execution_id ≡ e.execution_id k
      → read_back e action k (recorded x w) ≡ (recorded x w, none)
  unfolding read_back
  read_back_alone k x w h =
      let (y, found) =
        find_where-append (has_execution e action (e.execution_id k)) w.tables.executions x
          (rw h (str_eq_refl (e.execution_id k))) in
      rw (wait_alone k (recorded x w), found, read_back)
        (ap (λ v. (v, none)) (wait_alone k (recorded x w)))

  send_record :
      (x : ExecutionRow) (w : World) (row : ActionRow)
      → find_where (has_id x.action_id) w.tables.actions ≡ some row
      → send e action (record_attempt x) w ≡ (recorded x w, 1)
  unfolding send perform insert_execution
  send_record x w row found = ground arith

  record_execution_alone :
      (k : ℕ) (input : RecordExecutionInput) (w : World) (row : ActionRow)
      → find_where (has_id action.action_id) w.tables.actions ≡ some row
      → record_execution e action k input w ≡ (
        recorded
            (execution_row
              (e.clock k)
              (e.execution_id (k + 2))
              action.action_id
              (count_executions action.action_id w.tables)
              input)
            w,
        none,
      )
  unfolding record_execution on_changes execution_row
  record_execution_alone k input w row found =
      let x =
        execution_row (e.clock k) (e.execution_id (k + 2)) action.action_id
          (count_executions action.action_id w.tables) input in
      rw (wait_alone k w, wait_alone (k + 1) w, send_record x w row found, on_changes)
        (read_back_alone (k + 2) x w refl)

  -- What the run returns at its end: the row as it stands then.
  returning_alone :
      (k ops : ℕ) (default : ActionRow) (w : World) (row : ActionRow)
      → find_where (has_id action.action_id) w.tables.actions ≡ some row
      → row.user_email ≡ action.user_email
      → returning e action k default ops w
        ≡ record { world = w; returned = some row; operations = ops }
  unfolding returning get_for_user user_scope_sql scope_for_anchor
  returning_alone k ops default w row found email =
      let reloaded =
        find_where-and (has_id action.action_id)
          (λ r. user_scope_sql (scope_for_anchor action.user_email) r.user_id r.user_email)
          w.tables.actions row found (rw email (str_eq_refl action.user_email)) in
      rw (wait_alone k w, reloaded)

  -- The row of the action after an update that keeps the ids.
  pub find-update :
      (p : ActionRow → Bool) (f : ActionRow → ActionRow) (t : Tables) (row : ActionRow)
      → ((r : ActionRow) → (f r).action_id ≡ r.action_id)
      → find_where (has_id action.action_id) t.actions ≡ some row
      → p row ≡ true
      → find_where (has_id action.action_id) (update p f t).0.actions ≡ some (f row)
  unfolding update
  find-update p f t row same found hit =
      find-update_where (has_id action.action_id) p f
        (λ r. ap (λ id. str_eq id action.action_id) (same r)) t.actions
      ∙ rw (found, hit)

  -- The world after an update of the rows of the action.
  abbrev pub marked : (ActionRow → ActionRow) → World → World
  marked f w = record w { tables = (update (has_id action.action_id) f w.tables).0 }

  -- The end of a run that settled the action: the row as it is then, one more execution, and how
  -- often the operation was performed.
  abbrev pub settled :
      (ActionRow → ActionRow) → ℕ → RecordExecutionInput → ℕ → World → ActionRow → Run
  settled f k input ops w row = record {
    world =
        recorded
          (execution_row (e.clock k) (e.execution_id (k + 2)) action.action_id
            (count_executions action.action_id w.tables) input)
          (marked f w);
    returned = some (f row);
    operations = ops;
  }

  module _ (w : World) (row : ActionRow)
      (found : find_where (has_id action.action_id) w.tables.actions ≡ some row)
      (email : row.user_email ≡ action.user_email) where
    settle :
        (f : ActionRow → ActionRow) (k k' ops : ℕ) (input : RecordExecutionInput)
        (caught : Text → World → Run) (default : ActionRow)
        → ((r : ActionRow) → (f r).action_id ≡ r.action_id)
        → ((r : ActionRow) → (f r).user_email ≡ r.user_email)
        → on_thrown
            (record_execution e action k input (marked f w))
            caught
            (returning e action k' default ops)
          ≡ settled f k input ops w row
    unfolding on_thrown update
    settle f k k' ops input caught default same same_email =
        let hit =
          find-update (has_id action.action_id) f w.tables row same found
            (find_where-holds (has_id action.action_id) w.tables.actions row found) in
        rw (record_execution_alone k input (marked f w) (f row) hit)
          (returning_alone k' ops default _ (f row) hit (same_email row ∙ email))

    pub succeed_action_alone :
        (result : ActionResult)
        → succeed_action e action result w
          ≡ settled
              (set_succeeded (e.clock 2) (e.encrypt result))
              3
              (attempt_of e action succeeded result.provider_operation_id none)
              1
              w
              row
    unfolding succeed_action send perform mark_succeeded
    succeed_action_alone result =
        rw (wait_alone 2 w) (settle _ 3 10 1 _ _ action (λ r. refl) (λ r. refl))

    pub fail_action_alone :
        (message : Text)
        → fail_action e action message w
          ≡ settled
              (set_status (e.clock 6) failed (clip_message message) true)
              7
              (attempt_of e action failed none (some message))
              1
              w
              row
    unfolding fail_action send perform mark_failed
    fail_action_alone message =
        rw (wait_alone 6 w) (settle _ 7 10 1 _ _ action (λ r. refl) (λ r. refl))

    pub expire_action_alone :
        expire_action e action w
        ≡ settled
            (set_status (e.clock 1) expired none false)
            2
            (attempt_of e action expired none none)
            0
            w
            row
    unfolding expire_action send perform mark_expired
    expire_action_alone = rw (wait_alone 1 w) (settle _ 2 5 0 _ _ _ (λ r. refl) (λ r. refl))
