-- ===== src/Action/Scheduling/Due.antt =====
-- What the background task executes, and how it counts.
use mail_otter.Base.{
  ℕ, suc, ◌+◌, ◌≤◌, ◌≡◌, arith, refl, ◌↔◌, and_iff, List, [], ◌∷◌, true, false, Bool-cases, inl,
  inr, length, length-take-le, IsPage, take-IsPage, Option, none, some, Option-cases,
}
use mail_otter.Action.{ActionRow, ActionStatus, pending, succeeded, is_pending}
use mail_otter.Action.Store.{Tables}
use mail_otter.Action.Execution.{Surroundings, execute_action, start}
use mail_otter.Action.Scheduling.{
  is_runnable, is_due, is_awake, is_succeeded, before, earlier, list_pending_scheduled_actions,
  run_succeeded, execute_each, execute_scheduled_actions,
}

abbrev pub Due : ℕ → Option ℕ → Type 0
Due now none = ⊥
Due now (some at_time) = at_time ≤ now

abbrev pub NotSnoozed : ℕ → Option ℕ → Type 0
NotSnoozed now none = Unit
NotSnoozed now (some until) = until ≤ now

-- Pending, scheduled for a time that has come, and not snoozed beyond it.
abbrev pub Runnable : ℕ → ActionRow → Type 0
Runnable now row =
    (row.status ≡ pending) × (Due now row.scheduled_for × NotSnoozed now row.snoozed_until)

abbrev pub NotLater : Option ℕ → Option ℕ → Type 0
NotLater none b = Unit
NotLater (some a) none = ⊥
NotLater (some a) (some b) = a ≤ b

abbrev pub Earlier : ActionRow → ActionRow → Type 0
Earlier a b = NotLater a.scheduled_for b.scheduled_for

is_pending_iff : (status : ActionStatus) → (is_pending status ≡ true) ↔ (status ≡ pending)
is_pending_iff status = (λ h. ground (arith, h), λ h. rw h refl)

is_due_iff : (now : ℕ) (t : Option ℕ) → (is_due now t ≡ true) ↔ Due now t
is_due_iff now none = (λ h. absurd (ground arith), λ h. absurd h)
is_due_iff now (some t) = (λ h. ground (arith, h), λ h. ground (arith, h))

is_awake_iff : (now : ℕ) (t : Option ℕ) → (is_awake now t ≡ true) ↔ NotSnoozed now t
is_awake_iff now none = (λ h. tt, λ h. refl)
is_awake_iff now (some t) = (λ h. ground (arith, h), λ h. ground (arith, h))

is_runnable_iff : (now : ℕ) (row : ActionRow) → (is_runnable now row ≡ true) ↔ Runnable now row
is_runnable_iff now row =
    and_iff _ _ (is_pending_iff row.status)
      (and_iff _ _ (is_due_iff now row.scheduled_for) (is_awake_iff now row.snoozed_until))

before-NotLater : (a b : Option ℕ) → before a b ≡ true → NotLater a b
before-NotLater none b h = tt
before-NotLater (some a) none h = absurd (ground arith)
before-NotLater (some a) (some b) h = ground (arith, h)

before_total : (a b : Option ℕ) → before a b ≡ false → before b a ≡ true
before_total none b h = cc
before_total (some a) none h = refl
before_total (some a) (some b) h = ground arith

before_trans : (a b c : Option ℕ) → before a b ≡ true → before b c ≡ true → before a c ≡ true
before_trans none b c h g = refl
before_trans (some a) none c h g = absurd (ground arith)
before_trans (some a) (some b) none h g = g
before_trans (some a) (some b) (some c) h g = ground (arith, h, g)

-- The actions listed for execution are what the query is to answer: of the actions that are pending,
-- scheduled for a time that has come and not snoozed beyond it, those with the earliest times, in the
-- order of their times, each as often as the table has it, and as many as there are up to the limit.
pub list_pending_scheduled_actions_lem :
    (now limit : ℕ) (t : Tables)
    → IsPage (Runnable now) Earlier limit t.actions (list_pending_scheduled_actions now limit t)
unfolding list_pending_scheduled_actions
list_pending_scheduled_actions_lem now limit t =
    take-IsPage (is_runnable now) (Runnable now) earlier Earlier (is_runnable_iff now)
      (λ a b. before-NotLater a.scheduled_for b.scheduled_for)
      (λ a b. before_total a.scheduled_for b.scheduled_for)
      (λ a b c. before_trans a.scheduled_for b.scheduled_for c.scheduled_for) limit t.actions

is_succeeded_iff : (status : ActionStatus) → (is_succeeded status ≡ true) ↔ (status ≡ succeeded)
is_succeeded_iff status = (λ h. ground (arith, h), λ h. rw h refl)

limited : (now : ℕ) (t : Tables) → length (list_pending_scheduled_actions now 50 t) ≤ 50
unfolding list_pending_scheduled_actions
limited now t = length-take-le 50 _

module _ (around : ℕ → Surroundings) where
  -- The run returns the row of the action as succeeded.
  abbrev pub Succeeds : ℕ → ActionRow → Tables → Type 0
  Succeeds k x t =
      (row : ActionRow) × ((execute_action (around k) x (start t)).returned ≡ some row)
      × (row.status ≡ succeeded)

  -- The run of a list of actions, each from the tables that the one before it leaves, with the numbers
  -- of runs that succeed, which return the action's row as succeeded, and of runs that do not.
  pub data Ran : ℕ → List ActionRow → Tables → ℕ → ℕ → Tables → Type 0 where
    all_run : {k : ℕ} {t : Tables} → Ran k [] t 0 0 t
    one_succeeds :
        {k good bad : ℕ} {x : ActionRow} {xs : List ActionRow} {t t' : Tables}
        → Succeeds k x t
        → Ran (k + 1) xs (execute_action (around k) x (start t)).world.tables good bad t'
        → Ran k (x ∷ xs) t (suc good) bad t'
    one_fails :
        {k good bad : ℕ} {x : ActionRow} {xs : List ActionRow} {t t' : Tables}
        → ¬ Succeeds k x t
        → Ran (k + 1) xs (execute_action (around k) x (start t)).world.tables good bad t'
        → Ran k (x ∷ xs) t good (suc bad) t'

  Succeeds-iff :
      (k : ℕ) (x : ActionRow) (t : Tables)
      → (run_succeeded (execute_action (around k) x (start t)).returned ≡ true) ↔ Succeeds k x t
  Succeeds-iff k x t = (
    λ h. elim (Option-cases (execute_action (around k) x (start t)).returned) [
      | inl threw ↦ absurd (ground (arith, h, threw))
      | inr (row, returned) ↦ (row, returned, (is_succeeded_iff row.status).0 (rw returned at h))
    ],
    λ (row, returned, good). rw returned ((is_succeeded_iff row.status).1 good),
  )

  -- What the loop adds to its two numbers, which start at `good` and `bad`.
  abbrev Added : ℕ → List ActionRow → Tables → ℕ → ℕ → Tables × ℕ × ℕ → Type 0
  Added k xs t good bad (t', good', bad') =
      (n : ℕ) × (m : ℕ) × Ran k xs t n m t' × (good' ≡ good + n) × (bad' ≡ bad + m)

  execute_each-Ran :
      (k : ℕ) (xs : List ActionRow) (t : Tables) (good bad : ℕ)
      → Added k xs t good bad (execute_each around k xs t good bad)
  unfolding execute_each
  execute_each-Ran k [] t good bad = (0, 0, all_run, omega arith, omega arith)
  execute_each-Ran k (x ∷ xs) t good bad =
      let run = execute_action (around k) x (start t) in
      let t1 = run.world.tables in
      elim (Bool-cases (run_succeeded run.returned)) [
        | inl yes_succeeded ↦
            let (n, m, ran, g, b) = execute_each-Ran (k + 1) xs t1 (good + 1) bad in
            rw (yes_succeeded, execute_each)
              (suc n, m, one_succeeds ((Succeeds-iff k x t).0 yes_succeeded) ran, omega arith, b)
        | inr no_success ↦
            let (n, m, ran, g, b) = execute_each-Ran (k + 1) xs t1 good (bad + 1) in
            rw (no_success, execute_each)
              (
                n,
                suc m,
                one_fails (λ s. absurd (ground (arith, no_success, (Succeeds-iff k x t).1 s))) ran,
                g,
                omega arith,
              )
      ]

  Ran-length :
      (k : ℕ) (xs : List ActionRow) (t t' : Tables) (good bad : ℕ)
      → Ran k xs t good bad t'
      → good + bad ≡ length xs
  Ran-length k [] t t' good bad all_run = refl
  Ran-length k (x ∷ xs) t t' good bad (one_succeeds s r) =
      omega (arith, Ran-length (k + 1) xs _ t' _ bad r)
  Ran-length k (x ∷ xs) t t' good bad (one_fails s r) =
      omega (arith, Ran-length (k + 1) xs _ t' good _ r)

  -- The background task runs the listed actions one after the other, each once and from the tables that
  -- the one before it left. It answers how many of these runs returned the action's row as succeeded and
  -- how many did not, those that threw included; together they are the attempts, at most fifty.
  pub execute_scheduled_actions_counts :
      (now : ℕ) (t : Tables)
      → let (t', r) = execute_scheduled_actions around now t in
        Ran 0 (list_pending_scheduled_actions now 50 t) t r.succeeded_count r.failed_count t'
        × (r.succeeded_count + r.failed_count ≡ r.attempted)
        × (r.attempted ≤ 50)
  unfolding execute_scheduled_actions
  execute_scheduled_actions_counts now t =
      let rows = list_pending_scheduled_actions now 50 t in
      let (n, m, ran, g, b) = execute_each-Ran 0 rows t 0 0 in
      let good : n ≡ (execute_each around 0 rows t 0 0).1 = omega arith in
      let bad : m ≡ (execute_each around 0 rows t 0 0).2 = omega arith in
      let counted = Ran-length 0 rows t _ n m ran in
      (rw (← good, ← bad) ran, omega (arith, counted), limited now t)
