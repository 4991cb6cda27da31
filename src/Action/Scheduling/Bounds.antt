-- ===== src/Action/Scheduling/Bounds.antt =====
-- The times that the two services accept, and what they store.
use mail_otter.Base.{
  ℕ, ◌+◌, ◌-◌, ◌/◌, ◌≤◌, ◌<◌, max, ◌≡◌, arith, refl, String, List, [], some, true, Bool,
  Option-cases, inl, inr, find_where-holds, find-update_where, ◌∙◌, lt→leb, le→ltb, ◌&&◌,
}
use mathlib.Core.Bool.{and-eq-true_iff}
use mail_otter.UserScope.{UserScope, user_scope_sql}
use mail_otter.Action.{ActionRow, is_pending}
use mail_otter.Action.Store.{
  Tables, get_for_user, has_id, is_pending_id, set_snooze, set_schedule, update,
  snooze_action as dao_snooze, schedule_action as dao_schedule,
}
use mail_otter.Action.Store.Statements.{Statement, perform, perform_all}
use mail_otter.Action.Scheduling.{
  ok, max_snooze_seconds, is_auto_executable, snooze_action, schedule_action,
}

module _ (others : ℕ → List Statement) (now now' : ℕ) (id : String) (scope : UserScope)
    (t : Tables) where
  -- Whatever the other workers do: a time that is accepted for a snooze lies in the next 30 days, and
  -- the action that was read was pending.
  pub snooze_action_bounds :
      (date : ℕ) (row : ActionRow)
      → (snooze_action others now now' id scope t (some date)).1 ≡ ok row
      → (now < date / 1000)
        × (date / 1000 ≤ now + max_snooze_seconds)
        × ((action : ActionRow) × (get_for_user id scope t ≡ some action)
            × (is_pending action.status ≡ true))
  unfolding snooze_action
  snooze_action_bounds date row h = elim (Option-cases (get_for_user id scope t)) [
    | inl missing ↦ absurd (ground arith)
    | inr (action, found) ↦ (ground arith, ground arith, (action, found, ground arith))
  ]

  -- Whatever the other workers do: a time that is accepted for a schedule lies in the next 30 days, and
  -- the action that was read was pending, of a type that can be executed without a user.
  pub schedule_action_bounds :
      (date : ℕ) (row : ActionRow)
      → (schedule_action others now now' id scope t (some date)).1 ≡ ok row
      → (now < date / 1000)
        × (date / 1000 ≤ now + max_snooze_seconds)
        × ((action : ActionRow) × (get_for_user id scope t ≡ some action)
            × (is_pending action.status ≡ true)
            × (is_auto_executable action.action_type ≡ true))
  unfolding schedule_action
  schedule_action_bounds date row h = elim (Option-cases (get_for_user id scope t)) [
    | inl missing ↦ absurd (ground arith)
    | inr (action, found) ↦
        (ground arith, ground arith, (action, found, ground arith, ground arith))
  ]

  module _ (alone : (k : ℕ) → others k ≡ []) (action : ActionRow)
      (found : get_for_user id scope t ≡ some action)
      (waits : is_pending action.status ≡ true) where
    abbrev owned : ActionRow → Bool
    owned row = has_id id row && user_scope_sql scope row.user_id row.user_email

    reread :
        (f : ActionRow → ActionRow)
        → ((r : ActionRow) → owned (f r) ≡ owned r)
        → get_for_user id scope (update (is_pending_id id) f t).0 ≡ some (f action)
    unfolding get_for_user update
    reread f same =
        let mine = find_where-holds owned t.actions action found in
        find-update_where owned (is_pending_id id) f same t.actions
        ∙ let (mine_id, _) =
            (and-eq-true_iff (has_id id action)
                (user_scope_sql scope action.user_id action.user_email)).0
              mine in
          rw (found, waits, mine_id)

    -- The action is pending, and the time is in the future, at most 30 days ahead. Where no other worker
    -- interferes, the snooze stores the time, and moves the expiry to at least a day behind it, and never
    -- nearer; the row so stored is returned.
    pub snooze_action_stores :
        (date : ℕ)
        → now < date / 1000
        → date / 1000 ≤ now + max_snooze_seconds
        → let until = date / 1000 in
          let row : ActionRow = record action {
            snoozed_until = some until;
            expires_at = max action.expires_at (until + 86400);
            updated_at = now';
          } in
          let (t', answer) = snooze_action others now now' id scope t (some date) in
          (answer ≡ ok row) × (get_for_user id scope t' ≡ some row)
    unfolding snooze_action perform perform_all dao_snooze
    snooze_action_stores date future near =
        let until = date / 1000 in
        let stored = reread (set_snooze now' until (until + 86400)) (λ r. refl) in
        rw
          (
            found,
            snooze_action,
            waits,
            lt→leb now until future,
            le→ltb (until - now) max_snooze_seconds (omega arith),
            alone 0,
            alone 1,
            stored,
          )
          (refl, refl)

    -- The action is pending, and of a type that can be executed without a user; the time is in the
    -- future, at most 30 days ahead. Where no other worker interferes, the schedule stores the time, and
    -- moves the expiry to at least an hour behind it, and never nearer; the row so stored is returned.
    pub schedule_action_stores :
        (date : ℕ)
        → now < date / 1000
        → date / 1000 ≤ now + max_snooze_seconds
        → is_auto_executable action.action_type ≡ true
        → let at_time = date / 1000 in
          let row : ActionRow = record action {
            scheduled_for = some at_time;
            expires_at = max action.expires_at (at_time + 3600);
            updated_at = now';
          } in
          let (t', answer) = schedule_action others now now' id scope t (some date) in
          (answer ≡ ok row) × (get_for_user id scope t' ≡ some row)
    unfolding schedule_action perform perform_all dao_schedule
    schedule_action_stores date future near fit =
        let at_time = date / 1000 in
        let stored = reread (set_schedule now' at_time (at_time + 3600)) (λ r. refl) in
        rw
          (
            found,
            schedule_action,
            waits,
            fit,
            lt→leb now at_time future,
            le→ltb (at_time - now) max_snooze_seconds (omega arith),
            alone 0,
            alone 1,
            stored,
          )
          (refl, refl)
