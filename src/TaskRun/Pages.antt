-- ===== src/TaskRun/Pages.antt =====
-- The pages of runs, followed from cursor to cursor.
use mail_otter.Base.{
  ℕ, zero, suc, ◌+◌, ◌≤◌, ◌≡◌, refl, ap, sym, ◌∙◌, arith, List, [], ◌∷◌, ◌++◌, Bool, true, false,
  Bool-cases, inl, inr, ◌&&◌, Option, none, some, All, if◌then◌else◌, select_where, length, take,
  drop, ltb, take-append-drop,
}
use mathlib.Core.Path.{subst}
use mathlib.Core.List.{append_assoc}
use mail_otter.UserScope.{UserScope}
use mail_otter.TaskRun.{
  RunRow, Runs, Owner, ListOptions, Cursor, is_selected, behind, behind_cursor, sort_runs,
  page_limit, cursor_of, asks_latest, list_for_user,
}
use mail_otter.TaskRun.Order.{
  Sorted, Distinct, sort-Sorted, select-Distinct, sort-select, behind_irreflexive,
  behind_asymmetric,
}

abbrev cursor_at : RunRow → Cursor
cursor_at x = record { started_at = x.started_at; run_id = x.run_id }

abbrev last_of : RunRow → Runs → RunRow
last_of x [] = x
last_of x (y ∷ ys) = last_of y ys

cursor_of-last : (x : RunRow) (xs : Runs) → cursor_of (x ∷ xs) ≡ some (cursor_at (last_of x xs))
cursor_of-last x [] = refl
cursor_of-last x (y ∷ ys) = cursor_of-last y ys

All-true : (xs : Runs) → All (λ x. true ≡ true) xs
All-true [] = tt
All-true (x ∷ xs) = (refl, All-true xs)

last-All :
    (P : RunRow → Type 0) (x : RunRow) (xs ys : Runs) → All P (x ∷ xs ++ ys) → P (last_of x xs)
last-All P x [] ys h = h.0
last-All P x (y ∷ xs) ys h = last-All P y xs ys h.1

select_every : (q : RunRow → Bool) (xs : Runs) → All (λ x. q x ≡ true) xs → select_where q xs ≡ xs
unfolding select_where
select_every q [] h = refl
select_every q (x ∷ xs) h = rw h.0 (ap (◌∷◌ x) (select_every q xs h.1))

-- Of a sorted list, the rows behind the last one of a beginning are the rest.
select_behind :
    (x : RunRow) (xs ys : Runs)
    → Sorted (x ∷ xs ++ ys)
    → select_where (behind_cursor (some (cursor_at (last_of x xs)))) (x ∷ xs ++ ys) ≡ ys
unfolding select_where
select_behind x [] ys h =
    let here = behind_irreflexive x in
    rw here (select_every (behind_cursor (some (cursor_at x))) ys h.0)
select_behind x (y ∷ xs) ys h =
    let before : behind x (last_of y xs) ≡ false =
      behind_asymmetric (last_of y xs) x (last-All (λ z. behind z x ≡ true) y xs ys h.0) in
    rw before (select_behind y xs ys h.1)

select-select :
    (p q : RunRow → Bool) (xs : Runs)
    → select_where (λ x. p x && q x) xs ≡ select_where q (select_where p xs)
unfolding select_where
select-select p q [] = refl
select-select p q (x ∷ xs) = ground (arith, select-select p q xs)

take-take-suc : (n : ℕ) (xs : Runs) → take n (take (suc n) xs) ≡ take n xs
take-take-suc zero xs = refl
take-take-suc (suc n) [] = refl
take-take-suc (suc n) (x ∷ xs) = ap (◌∷◌ x) (take-take-suc n xs)

ltb-length-take : (n : ℕ) (xs : Runs) → ltb n (length (take (suc n) xs)) ≡ ltb n (length xs)
ltb-length-take zero [] = refl
ltb-length-take zero (x ∷ xs) = ground arith
ltb-length-take (suc n) [] = refl
ltb-length-take (suc n) (x ∷ xs) = ground (arith, ltb-length-take n xs)

take_all : (n : ℕ) (xs : Runs) → ltb n (length xs) ≡ false → take n xs ≡ xs
take_all zero [] h = refl
take_all zero (x ∷ xs) h = absurd (ground arith)
take_all (suc n) [] h = refl
take_all (suc n) (x ∷ xs) h = ap (◌∷◌ x) (take_all n xs (ground (arith, h)))

length-drop-lt :
    (n : ℕ) (xs : Runs) → 1 ≤ n → ltb n (length xs) ≡ true → suc (length (drop n xs)) ≤ length xs
length-drop-lt zero xs h g = absurd (omega arith)
length-drop-lt (suc n) [] h g = absurd (ground arith)
length-drop-lt (suc zero) (x ∷ xs) h g = omega arith
length-drop-lt (suc (suc n)) (x ∷ xs) h g =
    omega (arith, length-drop-lt (suc n) xs (omega arith) (ground (arith, g)))

All-append_right : (P : RunRow → Type 0) (xs ys : Runs) → All P (xs ++ ys) → All P ys
All-append_right P [] ys h = h
All-append_right P (x ∷ xs) ys h = All-append_right P xs ys h.1

select_behind_prefix :
    (before : Runs) (x : RunRow) (xs ys : Runs)
    → Sorted (before ++ (x ∷ xs ++ ys))
    → select_where (behind_cursor (some (cursor_at (last_of x xs)))) (before ++ (x ∷ xs ++ ys)) ≡ ys
unfolding select_where
select_behind_prefix [] x xs ys h = select_behind x xs ys h
select_behind_prefix (a ∷ before) x xs ys h =
    let P = λ (z : RunRow). behind z a ≡ true in
    let earlier : behind a (last_of x xs) ≡ false =
      behind_asymmetric (last_of x xs) a
        (last-All P x xs ys (All-append_right P before (x ∷ xs ++ ys) h.0)) in
    rw earlier (select_behind_prefix before x xs ys h.1)

-- A page of a longer list is not empty.
take-cons :
    (n : ℕ) (xs : Runs)
    → 1 ≤ n
    → ltb n (length xs) ≡ true
    → (y : RunRow) × (ys : Runs) × (take n xs ≡ y ∷ ys)
take-cons zero xs h g = absurd (omega arith)
take-cons (suc n) [] h g = absurd (ground arith)
take-cons (suc n) (x ∷ xs) h g = (x, take n xs, refl)

-- A page, and where the next one begins.
abbrev page_of : ℕ → Runs → Runs × Option Cursor
page_of limit rest =
    (take limit rest, if ltb limit (length rest) then cursor_of (take limit rest) else none)

abbrev prepend : Runs → Option Runs → Option Runs
prepend page none = none
prepend page (some rest) = some (page ++ rest)

abbrev go_on : Runs × Option Cursor → (Cursor → Option Runs) → Option Runs
go_on (page, none) next = some page
go_on (page, some c) next = prepend page (next c)

module _ (scope : UserScope) (owners : List Owner) (options : ListOptions) (t : Runs) where
  -- All rows that a client gets which asks for the pages one after the other, `fuel` of them at most.
  abbrev pub follow : ℕ → Option Cursor → Option Runs
  follow zero cursor = none
  follow (suc fuel) cursor =
      go_on (list_for_user scope owners options cursor t) (λ c. follow fuel (some c))

  -- The whole list, as the query without a limit gives it.
  abbrev pub whole_list : Runs
  whole_list = sort_runs (select_where (is_selected scope owners options) t)

  list_for_user-page :
      (cursor : Option Cursor) (rest : Runs)
      → asks_latest options ≡ false
      → Distinct t
      → select_where (behind_cursor cursor) whole_list ≡ rest
      → list_for_user scope owners options cursor t ≡ page_of (page_limit options.limit) rest
  unfolding list_for_user
  list_for_user-page cursor rest plain d h =
      let selected = is_selected scope owners options in
      let limit = page_limit options.limit in
      let query : sort_runs (select_where (λ row. selected row && behind_cursor cursor row) t)
          ≡ rest =
        ap sort_runs (select-select selected (behind_cursor cursor) t)
        ∙ sort-select (behind_cursor cursor) (select_where selected t)
            (select-Distinct selected t d)
        ∙ h in
      let one_more : limit + 1 ≡ suc limit = omega arith in
      rw (plain, query, one_more, take-take-suc limit rest, ltb-length-take limit rest) refl

  -- From a point of the list on, the pages give the rest of it.
  follow-rest :
      (fuel : ℕ) (before rest : Runs) (cursor : Option Cursor)
      → asks_latest options ≡ false
      → Distinct t
      → whole_list ≡ before ++ rest
      → select_where (behind_cursor cursor) whole_list ≡ rest
      → suc (length rest) ≤ fuel
      → follow fuel cursor ≡ some rest
  follow-rest zero before rest cursor plain d whole h enough = absurd (omega arith)
  follow-rest (suc fuel) before rest cursor plain d whole h enough =
      let limit = page_limit options.limit in
      let page = list_for_user-page cursor rest plain d h in
      let sorted =
        sort-Sorted (select_where (is_selected scope owners options) t)
          (select-Distinct (is_selected scope owners options) t d) in
      elim (Bool-cases (ltb limit (length rest))) [
        | inr last ↦ rw (page, last, take_all limit rest last) refl
        | inl more ↦
            let (y, ys, first) = take-cons limit rest (omega arith) more in
            let after = drop limit rest in
            let split = take-append-drop limit rest in
            let next : cursor_of (take limit rest) ≡ some (cursor_at (last_of y ys)) =
              ap cursor_of first ∙ cursor_of-last y ys in
            let joined : whole_list ≡ before ++ (y ∷ ys ++ after) =
              whole ∙ ap (λ r. before ++ r) (sym split ∙ ap (λ r. r ++ after) first) in
            let behind_it =
              ap (select_where (behind_cursor (some (cursor_at (last_of y ys))))) joined
              ∙ select_behind_prefix before y ys after (subst Sorted joined sorted) in
            let shorter = length-drop-lt limit rest (omega arith) more in
            let later =
              follow-rest fuel (before ++ (y ∷ ys)) after (some (cursor_at (last_of y ys))) plain d
                (joined ∙ sym (append_assoc before (y ∷ ys) after)) behind_it (omega arith) in
            rw (page, more, next, later) (ap some split)
      ]

  -- Following the cursors from the first page on gives the whole list of the runs that the query
  -- selects, newest first, each once: no run is lost between two pages and none is shown twice. As
  -- many pages as there are runs, and one more, are enough. The ids of the runs are distinct, and the
  -- query does not ask for the latest run of each type.
  pub follow-whole :
      asks_latest options ≡ false
      → Distinct t
      → follow (suc (length whole_list)) none ≡ some whole_list
  follow-whole plain d =
      follow-rest (suc (length whole_list)) [] whole_list none plain d refl
        (select_every (behind_cursor none) whole_list (All-true whole_list)) (omega arith)
