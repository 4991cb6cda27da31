-- ===== src/Action/Execution.antt =====
-- packages/backend-services/src/action/ActionExecutionService.ts: `executeAction`. Between two of its
-- accesses to the database the other workers of the application run: `others k` are the statements
-- that they send before access number k of this run. The provider's operation, the encryption, the
-- clock and the random ids are parameters.
pub mod Once
pub mod Alone
pub mod Outcome
pub mod Entry
use mail_otter.Base.{
  ℕ, ◌+◌, String, str_eq, List, [], ◌∷◌, Bool, true, false, Option, none, some, if◌then◌else◌, leb,
  ◌==◌, or_else, find_where, codes, Option-cases,
}
use mail_otter.UserScope.{scope_for_anchor}
use mail_otter.Action.{
  ActionRow, ExecutionRow, ActionStatus, succeeded, failed, expired, Trigger, Sealed, Text,
  is_finished,
}
use mail_otter.Action.Store.{
  Tables, RecordExecutionInput, get_for_user, count_executions, execution_row,
}
use mail_otter.Action.Store.Statements.{
  Statement, claim, succeed, fail, expire, record_attempt, perform, perform_all, all_claims,
  all_inserts,
}

-- `EmailActionResult`
pub record ActionResult : Type 0 where
  pub summary : String
  pub provider_operation_id : Option String
  pub provider_url : Option String
  pub external_url : Option String

-- How `executeProviderOperation` ends: with a result, or by an error with its message.
pub data Operation : Type 0 where
  done : ActionResult → Operation
  raised : Text → Operation

-- What surrounds one run. `clock k` is the reading of the clock for statement number k, and
-- `constraint_message` is the database's message for an insertion that breaks a constraint.
pub record Surroundings : Type 0 where
  pub clock : ℕ → ℕ
  pub others : ℕ → List Statement
  pub operate : ActionRow → Operation
  pub encrypt : ActionResult → Sealed
  pub execution_id : ℕ → String
  pub constraint_message : Text
  pub user_agent_hash : Option String
  pub triggered_by : Trigger

-- The tables as this run meets them, and two counts that the code does not keep: the claims that the
-- other workers made of the action, and the rows that they inserted for it.
pub record World : Type 0 where
  pub tables : Tables
  pub rival_claims : ℕ
  pub inserts : ℕ

pub record Run : Type 0 where
  pub world : World
  -- The action that is returned; `none` if the call throws.
  pub returned : Option ActionRow
  -- How often the provider's operation was performed.
  pub operations : ℕ

unfoldable pub start : Tables → World
start t = record { tables = t; rival_claims = 0; inserts = 0 }

abbrev pub not_loaded : Text
not_loaded = codes "Failed to load email action execution after create."

-- The two ways on from a statement: no row was changed, or some were.
unfoldable pub on_changes {ℓ} : {A : Type ℓ} → World × ℕ → (World → A) → (World → A) → A
on_changes (w, changes) unchanged changed = if changes == 0 then unchanged w else changed w

-- The two ways on from a call that may throw.
unfoldable pub on_thrown : World × Option Text → (Text → World → Run) → (World → Run) → Run
on_thrown (w, some message) caught next = caught message w
on_thrown (w, none) caught next = next w

module _ (e : Surroundings) (action : ActionRow) where
  open e use {clock, others, operate, encrypt, execution_id, constraint_message}

  -- The other workers run before access number `k`.
  unfoldable pub wait : ℕ → World → World
  wait k w = record {
    tables = perform_all (others k) w.tables;
    rival_claims = w.rival_claims + all_claims action.action_id (others k) w.tables;
    inserts = w.inserts + all_inserts action.action_id (others k) w.tables;
  }

  -- A statement of this run.
  unfoldable pub send : Statement → World → World × ℕ
  send s w = let (t, changes) = perform s w.tables in (record w { tables = t }, changes)

  abbrev pub attempt_of : ActionStatus → Option String → Option Text → RecordExecutionInput
  attempt_of status operation_id message = record {
    triggered_by = e.triggered_by;
    status = status;
    provider_operation_id = operation_id;
    request_user_agent_hash = e.user_agent_hash;
    error_message = message;
  }

  abbrev pub has_execution : String → ExecutionRow → Bool
  has_execution id row = str_eq row.execution_id id

  -- The end of `recordExecution`: the new row is read back.
  unfoldable pub read_back : ℕ → World → World × Option Text
  read_back k w =
      let w' = wait k w in
      elim (find_where (has_execution (execution_id k)) w'.tables.executions) [
        | none ↦ (w', some not_loaded)
        | some _ ↦ (w', none)
      ]

  -- `recordExecution`, with its three accesses from number `k` on: how many executions there are, the
  -- insertion, and the reading of the new row. It returns the message of the error that it throws.
  unfoldable pub record_execution : ℕ → RecordExecutionInput → World → World × Option Text
  record_execution k input w =
      let counted = wait k w in
      let row =
        execution_row (clock k) (execution_id (k + 2)) action.action_id
          (count_executions action.action_id counted.tables) input in
      on_changes (send (record_attempt row) (wait (k + 1) counted))
        (λ inserted. (inserted, some constraint_message)) (read_back (k + 2))

  -- The action as `getForUser` finds it for the owner of the row.
  abbrev pub reload : World → Option ActionRow
  reload w = get_for_user action.action_id (scope_for_anchor action.user_email) w.tables

  unfoldable pub returning : ℕ → ActionRow → ℕ → World → Run
  returning k default operations w =
      let w' = wait k w in
      record { world = w'; returned = some (or_else (reload w') default); operations = operations }

  abbrev pub throwing : ℕ → World → Run
  throwing operations w = record { world = w; returned = none; operations = operations }

  -- The branch for an action whose time has passed.
  unfoldable pub expire_action : World → Run
  expire_action w =
      let marked = (send (expire (clock 1) action.action_id) (wait 1 w)).0 in
      on_thrown (record_execution 2 (attempt_of expired none none) marked) (λ _. throwing 0)
        (returning 5 (record action { status = expired }) 0)

  -- The `catch` block, and what follows it.
  unfoldable pub fail_action : Text → World → Run
  fail_action message w =
      let marked = (send (fail (clock 6) action.action_id message) (wait 6 w)).0 in
      on_thrown (record_execution 7 (attempt_of failed none (some message)) marked)
        (λ _. throwing 1) (returning 10 action 1)

  -- The `try` block after the operation has succeeded.
  unfoldable pub succeed_action : ActionResult → World → Run
  succeed_action result w =
      let marked = (send (succeed (clock 2) action.action_id (encrypt result)) (wait 2 w)).0 in
      on_thrown (record_execution 3 (attempt_of succeeded result.provider_operation_id none) marked)
        fail_action (returning 10 action 1)

  unfoldable pub operate_action : World → Run
  operate_action w = elim (operate action) [
    | done result ↦ succeed_action result w
    | raised message ↦ fail_action message w
  ]

  abbrev pub standing : World → Run
  standing w = record { world = w; returned = some action; operations = 0 }

  unfoldable pub claim_action : World → Run
  claim_action w =
      on_changes (send (claim (clock 1) action.action_id) (wait 1 w)) standing operate_action

  unfoldable pub execute_action : World → Run
  execute_action w =
      if is_finished action.status
      then standing w
      else if leb action.expires_at (clock 0)
      then expire_action w
      else claim_action w
