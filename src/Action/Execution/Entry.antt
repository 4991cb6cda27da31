-- ===== src/Action/Execution/Entry.antt =====
-- The entry points of packages/backend-services/src/action/ActionExecutionService.ts that execute an
-- action for a user and for the token of a link. The hash of a token is a parameter; nothing runs between
-- the reading of the action and its execution, other than `others` of the surroundings.
use mail_otter.Base.{
  ℕ, ◌≡◌, arith, String, true, ◌&&◌, Option, none, some, find_where-holds, Option-cases, inl, inr,
}
use mathlib.Core.Bool.{and-eq-true_iff}
use mail_otter.UserScope.{UserScope, user_scope_sql}
use mail_otter.Action.{ActionRow}
use mail_otter.Action.Store.{Tables, has_id, get_for_user, get_by_token_hash}
use mail_otter.Action.Execution.{Surroundings, Run, start, execute_action}

-- `executeActionForUser`; `none` is the error that the action was not found.
unfoldable pub execute_action_for_user : Surroundings → String → UserScope → Tables → Option Run
execute_action_for_user e id scope t = elim (get_for_user id scope t) [
  | none ↦ none
  | some action ↦ some (execute_action e action (start t))
]

-- `executeActionWithToken`: the status of the page, and the run where there is one.
unfoldable pub execute_action_with_token :
    Surroundings → (String → String → String) → String → String → Tables → ℕ × Option Run
execute_action_with_token e hash_token id token t =
    elim (get_by_token_hash id (hash_token id token) t) [
      | none ↦ (404, none)
      | some action ↦ (200, some (execute_action e action (start t)))
    ]

get_for_user_owned :
    (id : String) (scope : UserScope) (t : Tables) (action : ActionRow)
    → get_for_user id scope t ≡ some action
    → (has_id id action ≡ true) × (user_scope_sql scope action.user_id action.user_email ≡ true)
unfolding get_for_user
get_for_user_owned id scope t action found =
    (and-eq-true_iff (has_id id action) (user_scope_sql scope action.user_id action.user_email)).0 (
      find_where-holds (λ row. has_id id row && user_scope_sql scope row.user_id row.user_email)
        t.actions action found)

-- A run for a user executes the action that was asked for, and the action is the user's: its row
-- satisfies the predicate of his scope.
pub execute_action_for_user_owned :
    (e : Surroundings) (id : String) (scope : UserScope) (t : Tables) (run : Run)
    → execute_action_for_user e id scope t ≡ some run
    → (action : ActionRow) × (run ≡ execute_action e action (start t))
      × (has_id id action ≡ true)
      × (user_scope_sql scope action.user_id action.user_email ≡ true)
unfolding execute_action_for_user
execute_action_for_user_owned e id scope t run h = elim (Option-cases (get_for_user id scope t)) [
  | inl missing ↦ absurd (ground arith)
  | inr (action, found) ↦
      let (mine, owned) = get_for_user_owned id scope t action found in
      let same : run ≡ execute_action e action (start t) = ground arith in
      (action, same, mine, owned)
]
