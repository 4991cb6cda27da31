-- ===== src/Action/Execution/Outcome.antt =====
-- The outcome of a run of `executeAction` with which no other worker interferes.
use mail_otter.Base.{
  ℕ, ◌≤◌, ◌<◌, ◌≡◌, refl, ap, none, some, true, false, [], ◌∷◌, ◌++◌, find_where, count_where-found,
  ne_zero_of_pos, str_eq_refl, lt→ltb, lt→leb, le→leb,
}
use mail_otter.Action.{
  ActionRow, ExecutionRow, is_finished, is_pending, pending, succeeded, failed, expired,
}
use mail_otter.Action.Store.{
  set_succeeded, set_status, Tables, has_id, is_claimable, claimed, update, clip_message,
  count_executions, claim_for_execution, execution_row,
}
use mail_otter.Action.Store.Statements.{perform}
use mail_otter.Action.Execution.{
  Surroundings, World, Run, Operation, done, raised, start, send, on_changes, operate_action,
  claim_action, execute_action, attempt_of,
}
use mail_otter.Action.Execution.Alone.{
  wait_alone, find-update, succeed_action_alone, fail_action_alone, expire_action_alone,
}

module _ (e : Surroundings) (action : ActionRow) where
  -- The row of the action after its operation, which gave a result or raised an error.
  abbrev pub final_row : Operation → ActionRow
  final_row (done result) = record action {
    status = succeeded;
    result = some (e.encrypt result);
    error_message = none;
    executed_at = some (e.clock 2);
    updated_at = e.clock 2;
  }
  final_row (raised message) = record action {
    status = failed;
    error_message = clip_message message;
    executed_at = some (e.clock 6);
    updated_at = e.clock 6;
  }

  -- The execution that is recorded for it, after `attempts` earlier ones.
  abbrev pub final_execution : Operation → ℕ → ExecutionRow
  final_execution (done result) attempts =
      execution_row (e.clock 3) (e.execution_id 5) action.action_id attempts
        (attempt_of e action succeeded result.provider_operation_id none)
  final_execution (raised message) attempts =
      execution_row (e.clock 7) (e.execution_id 9) action.action_id attempts
        (attempt_of e action failed none (some message))

  abbrev pub EndsWith : Run → Tables → ActionRow → ExecutionRow → ℕ → Type 0
  EndsWith r t row x ops =
      (r.returned ≡ some row)
      × (find_where (has_id action.action_id) r.world.tables.actions ≡ some row)
      × (r.world.tables.executions ≡ t.executions ++ x ∷ [])
      × (r.operations ≡ ops)

  module _ (alone : (k : ℕ) → e.others k ≡ []) (t : Tables)
      (found : find_where (has_id action.action_id) t.actions ≡ some action) where
    claimed_world : World
    claimed_world = record (start t) {
      tables = (claim_for_execution (e.clock 1) action.action_id t).0;
    }

    is_claimed :
        is_claimable (e.clock 1) action.action_id action ≡ true
        → find_where (has_id action.action_id) claimed_world.tables.actions
          ≡ some (claimed (e.clock 1) action)
    unfolding claimed_world claim_for_execution
    is_claimed h =
        find-update e action alone (is_claimable (e.clock 1) action.action_id) (claimed (e.clock 1))
          t action (λ r. refl) found h

    -- The row that an update of the claimed row leaves.
    is_settled :
        (f : ActionRow → ActionRow)
        → is_claimable (e.clock 1) action.action_id action ≡ true
        → ((r : ActionRow) → (f r).action_id ≡ r.action_id)
        → find_where
            (has_id action.action_id)
            (update (has_id action.action_id) f claimed_world.tables).0.actions
          ≡ some (f (claimed (e.clock 1) action))
    is_settled f h same =
        find-update e action alone (has_id action.action_id) f claimed_world.tables
          (claimed (e.clock 1) action) same (is_claimed h) (str_eq_refl action.action_id)

    operating :
        (o : Operation)
        → is_claimable (e.clock 1) action.action_id action ≡ true
        → e.operate action ≡ o
        → EndsWith
            (operate_action e action claimed_world)
            t
            (final_row o)
            (final_execution o (count_executions action.action_id t))
            1
    unfolding operate_action claimed_world claim_for_execution update
    operating (done result) h q =
        rw
          (
            q,
            operate_action,
            succeed_action_alone e action alone claimed_world (claimed (e.clock 1) action)
                (is_claimed h) refl result,
          )
          (
            refl,
            is_settled (set_succeeded (e.clock 2) (e.encrypt result)) h (λ r. refl),
            refl,
            refl,
          )
    operating (raised message) h q =
        rw
          (
            q,
            operate_action,
            fail_action_alone e action alone claimed_world (claimed (e.clock 1) action)
                (is_claimed h) refl message,
          )
          (
            refl,
            is_settled (set_status (e.clock 6) failed (clip_message message) true) h (λ r. refl),
            refl,
            refl,
          )

    -- The claim takes the row, and the run goes on to the operation.
    claiming :
        is_claimable (e.clock 1) action.action_id action ≡ true
        → claim_action e action (start t) ≡ operate_action e action claimed_world
    unfolding claim_action on_changes send perform claim_for_execution update claimed_world start
    claiming h =
        let hits =
          count_where-found (has_id action.action_id) (is_claimable (e.clock 1) action.action_id)
            t.actions action found h in
        let some_changed = ne_zero_of_pos _ hits in
        rw (wait_alone e action alone 1 (start t), some_changed)

    -- The tables hold the pending action that is to be executed, its time has not passed at the
    -- first reading of the clock nor at the claim, and no other worker interferes. Then the
    -- operation is performed once; the run returns and stores the row as succeeded with the result
    -- or as failed with the message cut to 1024 units, with the time of it, and appends one
    -- execution, numbered after the earlier ones.
    pub execute_action_performs :
        action.status ≡ pending
        → e.clock 0 < action.expires_at
        → e.clock 1 < action.expires_at
        → EndsWith
            (execute_action e action (start t))
            t
            (final_row (e.operate action))
            (final_execution (e.operate action) (count_executions action.action_id t))
            1
    unfolding execute_action
    execute_action_performs waits in_time in_time' =
        let h : is_claimable (e.clock 1) action.action_id action ≡ true =
          rw (ap is_pending waits, str_eq_refl action.action_id, lt→ltb _ _ in_time') in
        rw (ap is_finished waits, lt→leb _ _ in_time, claiming h)
          (operating (e.operate action) h refl)

    -- The tables hold the action that is to be executed, which is not finished, its time has passed,
    -- and no other worker interferes. Then the operation is not performed; the run returns and stores
    -- the row as expired, without a message, and appends one execution that says so.
    pub execute_action_expires :
        is_finished action.status ≡ false
        → action.expires_at ≤ e.clock 0
        → EndsWith
            (execute_action e action (start t))
            t
            (record action { status = expired; error_message = none; updated_at = e.clock 1 })
            (execution_row
              (e.clock 2)
              (e.execution_id 4)
              action.action_id
              (count_executions action.action_id t)
              (attempt_of e action expired none none))
            0
    unfolding execute_action update start
    execute_action_expires unfinished late =
        rw
          (
            unfinished,
            le→leb _ _ late,
            expire_action_alone e action alone (start t) action found refl,
          )
          (
            refl,
            find-update e action alone (has_id action.action_id)
                (set_status (e.clock 1) expired none false) t action (λ r. refl) found
                (str_eq_refl action.action_id),
            refl,
            refl,
          )
