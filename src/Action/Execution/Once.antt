-- ===== src/Action/Execution/Once.antt =====
-- How often the provider's operation of an action is performed among other workers.
use mail_otter.Base.{
  ℕ, ◌+◌, ◌≤◌, ◌≡◌, arith, refl, ◌==◌, Bool-cases, pos_of_ne_zero, Option-cases, inl, inr, none,
  some, Option, leb, find_where,
}
use mail_otter.Action.{ActionRow, Text, is_finished, expired}
use mail_otter.Action.Store.{Tables, RecordExecutionInput}
use mail_otter.Action.Store.Statements.{
  Statement, succeed, fail, expire, record_attempt, inserts_of,
}
use mail_otter.Action.Store.Statements.Claims.{
  pending_rows, perform-pending_rows, claims-le-pending_rows, claims-le-pending_row,
}
use mail_otter.Action.Execution.{
  standing, Surroundings, World, Run, ActionResult, Operation, done, raised, start, wait, send,
  on_changes, on_thrown, read_back, record_execution, returning, expire_action, fail_action,
  succeed_action, operate_action, claim_action, execute_action, has_execution,
}

module _ (e : Surroundings) (action : ActionRow) where
  -- What may still be claimed, together with the `c` claims of this run and those of the other
  -- workers, less what these have inserted: a number that no access increases.
  abbrev Within : ℕ → ℕ → World → Type 0
  Within c n w = c + w.rival_claims + pending_rows action.action_id w.tables ≤ n + w.inserts

  -- The same at the end of a run, its own operations counted with the claims.
  abbrev RunWithin : ℕ → Run → Type 0
  RunWithin n r = r.operations + r.world.rival_claims ≤ n + r.world.inserts

  wait-Within : (c n k : ℕ) (w : World) → Within c n w → Within c n (wait e action k w)
  unfolding wait
  wait-Within c n k w h =
      omega (arith, claims-le-pending_rows action.action_id (e.others k) w.tables)

  send-Within :
      (c n : ℕ) (s : Statement) (w : World)
      → inserts_of action.action_id s w.tables ≡ 0
      → Within c n w
      → Within c n (send e action s w).0
  unfolding send
  send-Within c n s w plain h = omega (arith, perform-pending_rows action.action_id s w.tables)

  read_back-Within : (c n k : ℕ) (w : World) → Within c n w → Within c n (read_back e action k w).0
  unfolding read_back
  read_back-Within c n k w h =
      elim (Option-cases (
        find_where (has_execution e action (e.execution_id k))
          (wait e action k w).tables.executions)) [
            | inl missing ↦ rw (missing, read_back) (wait-Within c n k w h)
            | inr (x, found) ↦ rw (found, read_back) (wait-Within c n k w h)
          ]

  on_changes-Within :
      (c n : ℕ) (p : World × ℕ) (message : Text) (next : World → World × Option Text)
      → Within c n p.0
      → ((w : World) → Within c n w → Within c n (next w).0)
      → Within c n (on_changes p (λ w. (w, some message)) next).0
  unfolding on_changes
  on_changes-Within c n (w, changes) message next h k = elim (Bool-cases (changes == 0)) [
    | inl none_changed ↦ rw none_changed h
    | inr changed ↦ rw changed (k w h)
  ]

  record_execution-Within :
      (c n k : ℕ) (input : RecordExecutionInput) (w : World)
      → Within c n w
      → Within c n (record_execution e action k input w).0
  unfolding record_execution inserts_of
  record_execution-Within c n k input w h =
      on_changes-Within c n _ _ _
        (send-Within c n (record_attempt _) _ refl
          (wait-Within c n (k + 1) _ (wait-Within c n k w h)))
        (read_back-Within c n (k + 2))

  returning-RunWithin :
      (c n k : ℕ) (default : ActionRow) (w : World)
      → Within c n w
      → RunWithin n (returning e action k default c w)
  unfolding returning
  returning-RunWithin c n k default w h = omega (arith, wait-Within c n k w h)

  on_thrown-RunWithin :
      (c n : ℕ) (p : World × Option Text) (caught : Text → World → Run) (next : World → Run)
      → Within c n p.0
      → ((message : Text) (w : World) → Within c n w → RunWithin n (caught message w))
      → ((w : World) → Within c n w → RunWithin n (next w))
      → RunWithin n (on_thrown p caught next)
  unfolding on_thrown
  on_thrown-RunWithin c n (w, some message) caught next h f g = f message w h
  on_thrown-RunWithin c n (w, none) caught next h f g = g w h

  expire_action-RunWithin :
      (n : ℕ) (w : World) → Within 0 n w → RunWithin n (expire_action e action w)
  unfolding expire_action inserts_of
  expire_action-RunWithin n w h =
      on_thrown-RunWithin 0 n _ _ _
        (record_execution-Within 0 n 2 _ _
          (send-Within 0 n (expire _ _) _ refl (wait-Within 0 n 1 w h)))
        (λ _ v k. omega arith) (returning-RunWithin 0 n 5 (record action { status = expired }))

  fail_action-RunWithin :
      (n : ℕ) (message : Text) (w : World)
      → Within 1 n w
      → RunWithin n (fail_action e action message w)
  unfolding fail_action inserts_of
  fail_action-RunWithin n message w h =
      on_thrown-RunWithin 1 n _ _ _
        (record_execution-Within 1 n 7 _ _
          (send-Within 1 n (fail _ _ _) _ refl (wait-Within 1 n 6 w h)))
        (λ _ v k. omega arith) (returning-RunWithin 1 n 10 action)

  succeed_action-RunWithin :
      (n : ℕ) (result : ActionResult) (w : World)
      → Within 1 n w
      → RunWithin n (succeed_action e action result w)
  unfolding succeed_action inserts_of
  succeed_action-RunWithin n result w h =
      on_thrown-RunWithin 1 n _ _ _
        (record_execution-Within 1 n 3 _ _
          (send-Within 1 n (succeed _ _ _) _ refl (wait-Within 1 n 2 w h)))
        (fail_action-RunWithin n) (returning-RunWithin 1 n 10 action)

  operate_action-RunWithin :
      (n : ℕ) (w : World) → Within 1 n w → RunWithin n (operate_action e action w)
  unfolding operate_action
  operate_action-RunWithin n w h = operating (e.operate action) refl
    where
      operating : (o : Operation) → e.operate action ≡ o → RunWithin n (operate_action e action w)
      operating (done result) q = rw (q, operate_action) (succeed_action-RunWithin n result w h)
      operating (raised message) q = rw (q, operate_action) (fail_action-RunWithin n message w h)

  claiming-RunWithin :
      (n : ℕ) (p : World × ℕ)
      → Within p.1 n p.0
      → RunWithin n (on_changes p (standing e action) (operate_action e action))
  unfolding on_changes
  claiming-RunWithin n (w, changes) h = elim (Bool-cases (changes == 0)) [
    | inl none_changed ↦ rw none_changed (omega arith)
    | inr some_changed ↦
        rw some_changed
          (operate_action-RunWithin n w (omega (arith, pos_of_ne_zero changes some_changed)))
  ]

  claim_action-RunWithin :
      (n : ℕ) (w : World) → Within 0 n w → RunWithin n (claim_action e action w)
  unfolding claim_action send
  claim_action-RunWithin n w h =
      let v = wait e action 1 w in
      claiming-RunWithin n _ (
        omega (
          arith,
          wait-Within 0 n 1 w h,
          claims-le-pending_row action.action_id (e.clock 1) v.tables,
        ))

  -- While a run of `executeAction` and the other workers interleave at each access to the database,
  -- the times that this run performs the provider's operation and the times that another worker
  -- claims the action number, together, at most the rows of the action that were pending when the run
  -- began and those that were inserted under its id meanwhile.
  pub execute_action_once :
      (t : Tables)
      → let r = execute_action e action (start t) in
        r.operations + r.world.rival_claims ≤ pending_rows action.action_id t + r.world.inserts
  unfolding execute_action start
  execute_action_once t =
      let n = pending_rows action.action_id t in
      elim (Bool-cases (is_finished action.status)) [
        | inl over ↦ rw over (omega arith)
        | inr open_still ↦ elim (Bool-cases (leb action.expires_at (e.clock 0))) [
          | inl late ↦ rw (open_still, late) (expire_action-RunWithin n (start t) (omega arith))
          | inr in_time ↦
              rw (open_still, in_time) (claim_action-RunWithin n (start t) (omega arith))
        ]
      ]
