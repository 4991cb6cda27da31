-- ===== src/Action/Store/Statements/Claims.antt =====
-- The claims of an action over sequences of statements.
use mail_otter.Base.{
  ℕ, ◌+◌, ◌≤◌, String, str_eq, str_eq_iff, List, [], ◌∷◌, ◌≡◌, Bool, true, false, none, str_eq_refl,
  Bool-cases, inl, inr, arith, count_where, delete_where, count-update_where-le,
  count-update_first-le, count-update_where_used, count-delete_where-le, count-delete_first-le,
  count-append,
}
use mail_otter.Action.{ActionRow, ExecutionRow, failed, expired}
use mail_otter.Action.Store.{
  Tables, clip_message, set_succeeded, set_status, set_expired, set_snooze, clear_snooze,
  set_schedule, clear_schedule, set_sync, is_pending_of, is_old, is_overdue, CreateEmailActionInput,
  has_id, is_claimable, claimed, is_pending_id, update, create, created_row, claim_for_execution,
  mark_succeeded, mark_failed, mark_expired, expire_pending_actions, snooze_action, cancel_snooze,
  schedule_action, cancel_schedule, update_sync_status, keep_actions,
  delete_by_processed_message_id, delete_older_than, insert_execution,
}
use mail_otter.Action.Store.Statements.{
  or_unchanged, Statement, create_action, claim, succeed, fail, expire, expire_overdue, snooze,
  unsnooze, schedule, unschedule, set_sync_status, delete_pending_of_message, prune, record_attempt,
  drop_message, drop_application, perform, perform_all, claims_of, inserts_of, all_claims,
  all_inserts,
}

-- How many rows of the action wait to be claimed.
abbrev pub pending_rows : String → Tables → ℕ
pending_rows id t = count_where (is_pending_id id) t.actions

update-pending_rows :
    (id : String) (p : ActionRow → Bool) (f : ActionRow → ActionRow)
    → ((row : ActionRow) → is_pending_id id (f row) ≡ true → is_pending_id id row ≡ true)
    → (t : Tables) → pending_rows id (update p f t).0 ≤ pending_rows id t
unfolding update
update-pending_rows id p f keep t = count-update_where-le (is_pending_id id) p f keep t.actions

claim-pending_rows :
    (id : String) (now : ℕ) (id' : String) (t : Tables)
    → claims_of id (claim now id') t + pending_rows id (perform (claim now id') t).0
      ≤ pending_rows id t
unfolding claims_of perform claim_for_execution update
claim-pending_rows id now id' t = elim (Bool-cases (str_eq id' id)) [
  | inl same ↦
      let e : id' ≡ id = (str_eq_iff id' id).0 same in
      rw (same, e)
        (omega (
          arith,
          count-update_where_used (is_pending_id id) (is_claimable now id) (claimed now)
              (λ row h. ground arith) (λ row. ground arith) t.actions,
        ))
  | inr other ↦ rw other (
      omega (
        arith,
        update-pending_rows id (is_claimable now id') (claimed now) (λ row h. ground arith) t,
      ))
]

create-pending_rows :
    (id : String) (now : ℕ) (input : CreateEmailActionInput) (t : Tables)
    → pending_rows id (perform (create_action now input) t).0
      ≤ pending_rows id t + inserts_of id (create_action now input) t
unfolding perform inserts_of create count_where
create-pending_rows id now input t =
    ground (arith, count-append (is_pending_id id) t.actions (created_row now input ∷ []))

-- Rows that are deleted wait no longer.
keep-pending_rows :
    (id : String) (p : ActionRow → Bool) (t : Tables)
    → pending_rows id (keep_actions (delete_where p t.actions) t) ≤ pending_rows id t
unfolding keep_actions
keep-pending_rows id p t = count-delete_where-le (is_pending_id id) p t.actions

insert_execution-actions :
    (e : ExecutionRow) (t : Tables) → (or_unchanged t (insert_execution e t)).0.actions ≡ t.actions
unfolding insert_execution
insert_execution-actions e t = ground arith

-- A statement other than a claim adds no row that waits to be claimed, but for the one it inserts.
pub perform-pending_rows :
    (id : String) (s : Statement) (t : Tables)
    → claims_of id s t + pending_rows id (perform s t).0 ≤ pending_rows id t + inserts_of id s t
unfolding perform inserts_of claims_of mark_succeeded mark_failed mark_expired
    expire_pending_actions snooze_action cancel_snooze schedule_action cancel_schedule
    update_sync_status delete_by_processed_message_id delete_older_than
perform-pending_rows id (create_action now input) t =
    omega (arith, create-pending_rows id now input t)
perform-pending_rows id (claim now id') t = omega (arith, claim-pending_rows id now id' t)
perform-pending_rows id (succeed now id' sealed) t = omega (
  arith,
  update-pending_rows id (has_id id') (set_succeeded now sealed) (λ row h. ground arith) t,
)
perform-pending_rows id (fail now id' message) t = omega (
  arith,
  update-pending_rows id (has_id id') (set_status now failed (clip_message message) true)
      (λ row h. ground arith) t,
)
perform-pending_rows id (expire now id') t = omega (
  arith,
  update-pending_rows id (has_id id') (set_status now expired none false) (λ row h. ground arith) t,
)
perform-pending_rows id (expire_overdue now limit) t = omega (
  arith,
  count-update_first-le (is_pending_id id) (is_overdue now) (set_expired now)
      (λ row h. ground arith) limit t.actions,
)
perform-pending_rows id (snooze now id' until new_expires_at) t = omega (
  arith,
  update-pending_rows id (is_pending_id id') (set_snooze now until new_expires_at) (λ row h. h) t,
)
perform-pending_rows id (unsnooze now id') t =
    omega (arith, update-pending_rows id (is_pending_id id') (clear_snooze now) (λ row h. h) t)
perform-pending_rows id (schedule now id' at_time new_expires_at) t = omega (
  arith,
  update-pending_rows id (is_pending_id id') (set_schedule now at_time new_expires_at) (λ row h. h)
      t,
)
perform-pending_rows id (unschedule now id') t =
    omega (arith, update-pending_rows id (is_pending_id id') (clear_schedule now) (λ row h. h) t)
perform-pending_rows id (set_sync_status now id' status) t =
    omega (arith, update-pending_rows id (has_id id') (set_sync now status) (λ row h. h) t)
perform-pending_rows id (delete_pending_of_message id') t =
    omega (arith, keep-pending_rows id (is_pending_of id') t)
perform-pending_rows id (prune older_than limit) t =
    omega (arith, count-delete_first-le (is_pending_id id) (is_old older_than) limit t.actions)
perform-pending_rows id (record_attempt e) t = rw (insert_execution-actions e t) (omega arith)
perform-pending_rows id (drop_message id') t =
    omega (arith, keep-pending_rows id (λ row. str_eq row.processed_message_id id') t)
perform-pending_rows id (drop_application id') t =
    omega (arith, keep-pending_rows id (λ row. str_eq row.application_id id') t)

pub claims-le-pending_row :
    (id : String) (now : ℕ) (t : Tables)
    → (perform (claim now id) t).1 + pending_rows id (perform (claim now id) t).0
      ≤ pending_rows id t
unfolding claims_of
claims-le-pending_row id now t = rw (str_eq_refl id) at (claim-pending_rows id now id t)

-- Whatever statements run, in whatever order, the rows claimed for an action number at most the
-- rows of the action that were pending at first and those inserted for it on the way. With one
-- pending row and no insertion under its id, at most one claim takes a row.
pub claims-le-pending_rows :
    (id : String) (ss : List Statement) (t : Tables)
    → all_claims id ss t + pending_rows id (perform_all ss t)
      ≤ pending_rows id t + all_inserts id ss t
unfolding all_claims all_inserts perform_all
claims-le-pending_rows id [] t = omega arith
claims-le-pending_rows id (s ∷ ss) t =
    omega (arith, perform-pending_rows id s t, claims-le-pending_rows id ss (perform s t).0)
