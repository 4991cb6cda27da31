-- ===== src/TaskRun/Order.antt =====
-- The order in which runs are listed: it is total where ids differ, and sorting commutes with selection.
use mail_otter.Base.{
  ◌≡◌, refl, ap, sym, ◌∙◌, arith, [], ◌∷◌, Bool, true, false, Bool-cases, inl, inr, All,
  select_where,
}
use mail_otter.Action.{Text}
use mail_otter.TaskRun.{RunRow, Runs, same_id, text_lt, behind, insert_run, sort_runs}

text_lt_total : (a b : Text) → text_lt a b ≡ false → same_id a b ≡ false → text_lt b a ≡ true
text_lt_total [] [] h n = absurd (ground arith)
text_lt_total (c ∷ cs) [] h n = refl
text_lt_total [] (d ∷ ds) h n = absurd (ground arith)
text_lt_total (c ∷ cs) (d ∷ ds) h n = ground (arith, text_lt_total cs ds)

text_lt_trans : (a b c : Text) → text_lt a b ≡ true → text_lt b c ≡ true → text_lt a c ≡ true
text_lt_trans [] [] c h g = g
text_lt_trans [] (y ∷ ys) [] h g = g
text_lt_trans [] (y ∷ ys) (z ∷ zs) h g = refl
text_lt_trans (x ∷ xs) [] c h g = absurd (ground arith)
text_lt_trans (x ∷ xs) (y ∷ ys) [] h g = g
text_lt_trans (x ∷ xs) (y ∷ ys) (z ∷ zs) h g = ground (arith, text_lt_trans xs ys zs)

text_lt_irreflexive : (a : Text) → text_lt a a ≡ false
text_lt_irreflexive [] = refl
text_lt_irreflexive (c ∷ cs) = ground (arith, text_lt_irreflexive cs)

pub behind_irreflexive : (a : RunRow) → behind a a ≡ false
behind_irreflexive a = ground (arith, text_lt_irreflexive a.run_id)

pub behind_trans : (a b c : RunRow) → behind a b ≡ true → behind b c ≡ true → behind a c ≡ true
behind_trans a b c h g = ground (arith, text_lt_trans a.run_id b.run_id c.run_id)

pub behind_asymmetric : (a b : RunRow) → behind a b ≡ true → behind b a ≡ false
behind_asymmetric a b h = elim (Bool-cases (behind b a)) [
  | inl g ↦ let bad = behind_trans a b a h g in absurd (ground (arith, bad, behind_irreflexive a))
  | inr g ↦ g
]

behind_total :
    (a b : RunRow) → behind a b ≡ false → same_id a.run_id b.run_id ≡ false → behind b a ≡ true
behind_total a b h n = ground (arith, text_lt_total a.run_id b.run_id)

-- Each row comes strictly before all later ones.
abbrev pub Sorted : Runs → Type 0
Sorted [] = Unit
Sorted (x ∷ xs) = All (λ y. behind y x ≡ true) xs × Sorted xs

-- No two rows have the same id: `run_id` is the primary key.
abbrev pub Distinct : Runs → Type 0
Distinct [] = Unit
Distinct (x ∷ xs) = All (λ (y : RunRow). same_id x.run_id y.run_id ≡ false) xs × Distinct xs

module _ (P : RunRow → Type 0) where
  All-insert : (row : RunRow) (xs : Runs) → P row → All P xs → All P (insert_run row xs)
  unfolding insert_run
  All-insert row [] h g = (h, tt)
  All-insert row (x ∷ xs) h g = elim (Bool-cases (behind row x)) [
    | inl later ↦ rw later (g.0, All-insert row xs h g.1)
    | inr first ↦ rw first (h, g)
  ]

  All-sort : (xs : Runs) → All P xs → All P (sort_runs xs)
  unfolding sort_runs
  All-sort [] h = tt
  All-sort (x ∷ xs) h = All-insert x (sort_runs xs) h.0 (All-sort xs h.1)

  All-select : (q : RunRow → Bool) (xs : Runs) → All P xs → All P (select_where q xs)
  unfolding select_where
  All-select q [] h = tt
  All-select q (x ∷ xs) h = elim (Bool-cases (q x)) [
    | inl kept ↦ rw (kept, select_where) (h.0, All-select q xs h.1)
    | inr dropped ↦ rw (dropped, select_where) (All-select q xs h.1)
  ]

  All-map : (Q : RunRow → Type 0) → ((x : RunRow) → P x → Q x) → (xs : Runs) → All P xs → All Q xs
  All-map Q f [] h = tt
  All-map Q f (x ∷ xs) h = (f x h.0, All-map Q f xs h.1)

insert-Sorted :
    (row : RunRow) (xs : Runs)
    → All (λ (y : RunRow). same_id row.run_id y.run_id ≡ false) xs
    → Sorted xs
    → Sorted (insert_run row xs)
unfolding insert_run
insert-Sorted row [] n h = (tt, tt)
insert-Sorted row (x ∷ xs) n h = elim (Bool-cases (behind row x)) [
  | inl later ↦
      rw later (All-insert (λ y. behind y x ≡ true) row xs later h.0, insert-Sorted row xs n.1 h.1)
  | inr first ↦
      let next = behind_total row x first n.0 in
      rw first (
        (
          next,
          All-map (λ y. behind y x ≡ true) (λ y. behind y row ≡ true)
              (λ y g. behind_trans y x row g next) xs h.0,
        ),
        h,
      )
]

pub sort-Sorted : (xs : Runs) → Distinct xs → Sorted (sort_runs xs)
unfolding sort_runs
sort-Sorted [] d = tt
sort-Sorted (x ∷ xs) d =
    insert-Sorted x (sort_runs xs)
      (All-sort (λ (y : RunRow). same_id x.run_id y.run_id ≡ false) xs d.0) (sort-Sorted xs d.1)

pub select-Distinct : (q : RunRow → Bool) (xs : Runs) → Distinct xs → Distinct (select_where q xs)
unfolding select_where
select-Distinct q [] d = tt
select-Distinct q (x ∷ xs) d = elim (Bool-cases (q x)) [
  | inl kept ↦
      rw (kept, select_where)
        (
          All-select (λ (y : RunRow). same_id x.run_id y.run_id ≡ false) q xs d.0,
          select-Distinct q xs d.1,
        )
  | inr dropped ↦ rw (dropped, select_where) (select-Distinct q xs d.1)
]

not_behind : (x row y : RunRow) → behind y x ≡ true → behind row x ≡ false → behind row y ≡ false
not_behind x row y g n = elim (Bool-cases (behind row y)) [
  | inl bad ↦ let worse = behind_trans row y x bad g in absurd (ground (arith, worse, n))
  | inr fine ↦ fine
]

-- A row that comes before all others is put first.
insert_first :
    (row : RunRow) (xs : Runs) → All (λ y. behind row y ≡ false) xs → insert_run row xs ≡ row ∷ xs
unfolding insert_run
insert_first row [] h = refl
insert_first row (x ∷ xs) h = rw h.0 refl

module _ (q : RunRow → Bool) where
  -- A row that is not behind one comes before all that are selected of those behind it.
  insert_before :
      (x row : RunRow) (xs : Runs)
      → All (λ y. behind y x ≡ true) xs
      → behind row x ≡ false
      → insert_run row (select_where q xs) ≡ row ∷ select_where q xs
  insert_before x row xs h n = insert_first row (select_where q xs) (
      All-select (λ y. behind row y ≡ false) q xs
        (All-map (λ y. behind y x ≡ true) (λ y. behind row y ≡ false)
          (λ y g. not_behind x row y g n) xs h))

  insert-select :
      (row : RunRow) (xs : Runs)
      → q row ≡ true
      → Sorted xs
      → select_where q (insert_run row xs) ≡ insert_run row (select_where q xs)
  unfolding select_where insert_run
  insert-select row [] kept h = rw kept refl
  insert-select row (x ∷ xs) kept h =
      ground (arith, insert-select row xs kept h.1, insert_before x row xs h.0)

  insert-select_dropped :
      (row : RunRow) (xs : Runs)
      → q row ≡ false
      → select_where q (insert_run row xs) ≡ select_where q xs
  unfolding select_where insert_run
  insert-select_dropped row [] dropped = rw dropped refl
  insert-select_dropped row (x ∷ xs) dropped = ground (arith, insert-select_dropped row xs dropped)

  -- Sorting what is selected is selecting from what is sorted.
  pub sort-select :
      (xs : Runs) → Distinct xs → sort_runs (select_where q xs) ≡ select_where q (sort_runs xs)
  unfolding select_where sort_runs
  sort-select [] d = refl
  sort-select (x ∷ xs) d = elim (Bool-cases (q x)) [
    | inl kept ↦
        rw (kept, select_where, sort_runs)
          (ap (insert_run x) (sort-select xs d.1)
            ∙ sym (insert-select x (sort_runs xs) kept (sort-Sorted xs d.1)))
    | inr dropped ↦
        rw (dropped, select_where)
          (sort-select xs d.1 ∙ sym (insert-select_dropped x (sort_runs xs) dropped))
  ]
