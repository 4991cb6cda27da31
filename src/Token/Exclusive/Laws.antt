-- ===== src/Token/Exclusive/Laws.antt =====
-- How many operations of the chain run at a time.
use mail_otter.Base.{
  ℕ, suc, ◌+◌, ◌≤◌, ◌<◌, ◌≡◌, arith, refl, sym, ◌∙◌, ap, List, [], ◌∷◌, Bool, true, ◌&&◌, Option,
  none, some, length, All, update_where, count_where, Bool-cases, inl, inr,
}
use mail_otter.Token.Exclusive.{
  Phase, waiting, running, settled, Operation, Queue, is_waiting, is_running, is_settled, idle,
  first_phase, run_exclusive, is_settled_as, has_settled, predecessor_settled, can_begin, in_phase,
  begin, can_settle, settle, is_current, finish, Event, call, begins, settles, finishes, occur,
  occur_all,
}

abbrev pub AllSettled : List Operation → Type 0
AllSettled = All (λ o. is_settled o.phase ≡ true)

-- A waiting operation waits for the one before it; else all before it have settled.
abbrev pub Fits : Phase → Option ℕ → List Operation → Type 0
Fits waiting predecessor os = (p : ℕ) × (predecessor ≡ some p) × (p + 1 ≡ length os)
Fits _ predecessor os = AllSettled os

abbrev pub Ordered : List Operation → Type 0
Ordered [] = Unit
Ordered (o ∷ os) = (o.id ≡ length os) × Fits o.phase o.predecessor os × Ordered os

abbrev pub Tail : Option ℕ → List Operation → Type 0
Tail none os = AllSettled os
Tail (some id) os = id + 1 ≡ length os

abbrev pub Chained : Queue → Type 0
Chained q = Ordered q.operations × Tail q.current q.operations

-- The operations up to the one with this id have settled.
abbrev SettledTo : ℕ → List Operation → Type 0
SettledTo p = All (λ o. o.id ≤ p → is_settled o.phase ≡ true)

ids_below : (n : ℕ) (os : List Operation) → Ordered os → length os ≤ n → All (λ o. o.id < n) os
ids_below n [] h small = tt
ids_below n (o ∷ os) h small = (omega (arith, h.0), ids_below n os h.2 (omega arith))

settled-SettledTo : (p : ℕ) (os : List Operation) → AllSettled os → SettledTo p os
settled-SettledTo p [] h = tt
settled-SettledTo p (o ∷ os) h = ((λ _. h.0), settled-SettledTo p os h.1)

has_settled_below :
    (p : ℕ) (os : List Operation) → Ordered os → has_settled p os ≡ true → p < length os
unfolding has_settled
has_settled_below p [] h g = absurd (ground arith)
has_settled_below p (o ∷ os) h g = ground (arith, h.0, has_settled_below p os h.2)

settled-Fits :
    (phase : Phase) (q : Option ℕ) (os : List Operation)
    → is_settled phase ≡ true
    → Fits phase q os
    → AllSettled os
settled-Fits waiting q os h f = absurd (ground arith)
settled-Fits running q os h f = f
settled-Fits settled q os h f = f

has_settled-SettledTo :
    (p : ℕ) (os : List Operation) → Ordered os → has_settled p os ≡ true → SettledTo p os
unfolding has_settled
has_settled-SettledTo p [] h g = tt
has_settled-SettledTo p (o ∷ os) h g = elim (Bool-cases (is_settled_as p o)) [
  | inl here ↦
      let done : is_settled o.phase ≡ true = ground arith in
      ((λ _. done), settled-SettledTo p os (settled-Fits o.phase o.predecessor os done h.1))
  | inr later ↦
      let found : has_settled p os ≡ true = ground arith in
      let below = has_settled_below p os h.2 found in
      ((λ small. absurd (omega (arith, h.0))), has_settled-SettledTo p os h.2 found)
]

SettledTo-AllSettled :
    (p : ℕ) (os : List Operation) → SettledTo p os → All (λ o. o.id < p + 1) os → AllSettled os
SettledTo-AllSettled p [] h g = tt
SettledTo-AllSettled p (o ∷ os) h g = (h.0 (omega (arith, g.0)), SettledTo-AllSettled p os h.1 g.1)

-- What an update keeps.
abbrev Keeps : List Operation → List Operation → Type 0
Keeps os os' = (length os' ≡ length os) × (AllSettled os → AllSettled os') × Ordered os'

Keeps-Fits :
    (phase : Phase) (q : Option ℕ) (os os' : List Operation)
    → Keeps os os'
    → Fits phase q os
    → Fits phase q os'
Keeps-Fits waiting q os os' (same, _, _) (p, e, l) = (p, e, l ∙ sym same)
Keeps-Fits running q os os' (_, keep, _) f = keep f
Keeps-Fits settled q os os' (_, keep, _) f = keep f

running-Fits :
    (phase : Phase) (q : Option ℕ) (os : List Operation)
    → is_running phase ≡ true
    → Fits phase q os
    → AllSettled os
running-Fits waiting q os h f = absurd (ground arith)
running-Fits running q os h f = f
running-Fits settled q os h f = f

settle-Keeps :
    (id : ℕ) (os : List Operation)
    → Ordered os
    → Keeps os (update_where (can_settle id) (in_phase settled) os)
unfolding update_where
settle-Keeps id [] h = (refl, (λ _. tt), tt)
settle-Keeps id (o ∷ os) h =
    let ih = settle-Keeps id os h.2 in
    elim (Bool-cases (can_settle id o)) [
      | inl hit ↦
          let before = running-Fits o.phase o.predecessor os (ground arith) h.1 in
          rw hit (ap suc ih.0, (λ s. (refl, ih.1 s.1)), (h.0 ∙ sym ih.0, ih.1 before, ih.2))
      | inr miss ↦ rw miss (
        ap suc ih.0,
        (λ s. (s.0, ih.1 s.1)),
        (h.0 ∙ sym ih.0, Keeps-Fits o.phase o.predecessor os _ ih h.1, ih.2),
      )
    ]

-- A waiting operation whose predecessor has settled: all before it have.
waiting-Fits :
    (phase : Phase) (q : Option ℕ) (all os : List Operation)
    → ((p : ℕ) → has_settled p all ≡ true → SettledTo p os)
    → Ordered os
    → is_waiting phase ≡ true
    → predecessor_settled q all ≡ true
    → Fits phase q os
    → AllSettled os
waiting-Fits waiting none all os to h w s f = absurd (ground arith)
waiting-Fits waiting (some p) all os to h w s (p', e, l) =
    let same : p + 1 ≡ length os = ground arith in
    SettledTo-AllSettled p os (to p s) (ids_below (p + 1) os h (omega (arith, same)))
waiting-Fits running q all os to h w s f = absurd (ground arith)
waiting-Fits settled q all os to h w s f = absurd (ground arith)

begin-Keeps :
    (id : ℕ) (all os : List Operation)
    → ((p : ℕ) → has_settled p all ≡ true → SettledTo p os)
    → Ordered os
    → Keeps os (update_where (can_begin id all) (in_phase running) os)
unfolding update_where
begin-Keeps id all [] to h = (refl, (λ _. tt), tt)
begin-Keeps id all (o ∷ os) to h =
    let below : (p : ℕ) → has_settled p all ≡ true → SettledTo p os = λ p g. (to p g).1 in
    let ih = begin-Keeps id all os below h.2 in
    elim (Bool-cases (can_begin id all o)) [
      | inl hit ↦
          let waits : is_waiting o.phase ≡ true = ground arith in
          let ready : predecessor_settled o.predecessor all ≡ true = ground arith in
          let before = waiting-Fits o.phase o.predecessor all os below h.2 waits ready h.1 in
          rw hit (
            ap suc ih.0,
            (λ s. let done = s.0 in absurd (ground arith)),
            (h.0 ∙ sym ih.0, ih.1 before, ih.2),
          )
      | inr miss ↦ rw miss (
        ap suc ih.0,
        (λ s. (s.0, ih.1 s.1)),
        (h.0 ∙ sym ih.0, Keeps-Fits o.phase o.predecessor os _ ih h.1, ih.2),
      )
    ]

Keeps-Tail :
    (current : Option ℕ) (os os' : List Operation)
    → Keeps os os'
    → Tail current os
    → Tail current os'
Keeps-Tail none os os' (_, keep, _) t = keep t
Keeps-Tail (some id) os os' (same, _, _) t = t ∙ sym same

run_exclusive-Chained : (q : Queue) → Chained q → Chained (run_exclusive q)
unfolding run_exclusive
run_exclusive-Chained q h = ((refl, go q.current h.1, h.0), refl')
  where
    refl' : length q.operations + 1 ≡ suc (length q.operations)
    refl' = omega arith

    go :
        (current : Option ℕ)
        → Tail current q.operations
        → Fits (first_phase current) current q.operations
    go none t = t
    go (some id) t = (id, refl, t)

finished-AllSettled :
    (id : ℕ) (current : Option ℕ) (os : List Operation)
    → Ordered os
    → Tail current os
    → is_current id current ≡ true
    → has_settled id os ≡ true
    → AllSettled os
finished-AllSettled id none os h t c s = absurd (ground arith)
finished-AllSettled id (some n) os h t c s =
    let same : n ≡ id = ground arith in
    SettledTo-AllSettled id os (has_settled-SettledTo id os h s)
      (ids_below (id + 1) os h (omega (arith, same)))

finish-Chained : (id : ℕ) (q : Queue) → Chained q → Chained (finish id q)
unfolding finish
finish-Chained id q h = elim (Bool-cases (is_current id q.current && has_settled id q.operations)) [
  | inl done ↦
      rw done
        (h.0, finished-AllSettled id q.current q.operations h.0 h.1 (ground arith) (ground arith))
  | inr not_yet ↦ rw not_yet h
]

occur-Chained : (event : Event) (q : Queue) → Chained q → Chained (occur event q)
unfolding occur begin settle
occur-Chained call q h = run_exclusive-Chained q h
occur-Chained (begins id) q h =
    let kept =
      begin-Keeps id q.operations q.operations (λ p g. has_settled-SettledTo p q.operations h.0 g)
        h.0 in
    (kept.2, Keeps-Tail q.current q.operations _ kept h.1)
occur-Chained (settles id) q h =
    let kept = settle-Keeps id q.operations h.0 in
    (kept.2, Keeps-Tail q.current q.operations _ kept h.1)
occur-Chained (finishes id) q h = finish-Chained id q h

pub occur_all-Chained : (events : List Event) (q : Queue) → Chained q → Chained (occur_all events q)
unfolding occur_all
occur_all-Chained [] q h = h
occur_all-Chained (event ∷ events) q h =
    occur_all-Chained events (occur event q) (occur-Chained event q h)

abbrev pub runs : Operation → Bool
runs o = is_running o.phase

AllSettled-runs : (os : List Operation) → AllSettled os → count_where runs os ≡ 0
unfolding count_where
AllSettled-runs [] h = refl
AllSettled-runs (o ∷ os) h = ground (arith, h.0, AllSettled-runs os h.1)

Ordered-runs : (os : List Operation) → Ordered os → count_where runs os ≤ 1
unfolding count_where
Ordered-runs [] h = omega arith
Ordered-runs (o ∷ os) h = elim (Bool-cases (runs o)) [
  | inl running_now ↦
      let before = running-Fits o.phase o.predecessor os running_now h.1 in
      rw running_now (omega (arith, AllSettled-runs os before))
  | inr rests ↦ rw rests (omega (arith, Ordered-runs os h.2))
]

-- Whatever requests arrive, and in whatever order operations begin, settle and are finished with, at
-- most one operation of the object runs at any time.
pub run_exclusive_one :
    (events : List Event) → count_where runs (occur_all events idle).operations ≤ 1
run_exclusive_one events =
    Ordered-runs (occur_all events idle).operations (occur_all-Chained events idle (tt, tt)).0
