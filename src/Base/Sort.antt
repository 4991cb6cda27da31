-- ===== src/Base/Sort.antt =====
-- `SELECT ... WHERE ... ORDER BY ... LIMIT`: sorting by insertion, and what a limited query answers.
use Prim.Native.Nat.{ℕ, zero, suc, min}
use mathlib.Core.Path.{◌≡◌, sym, ap, ◌∙◌, subst}
use mathlib.Core.Logic.{◌↔◌, ◌⊎◌, inl, inr}
use mathlib.Core.Bool.{Bool, true, false, ◌&&◌, ◌||◌}
use mathlib.Core.Option.{some}
use mathlib.Core.List.{List, [], ◌∷◌, ◌++◌, Perm, perm_middle}
use mathlib.Core.List.Perm
use native.Mathlib.Omega.{arith}
use mail_otter.Base.Tests.{if◌then◌else◌, Bool-cases}
use mail_otter.Base.Lists.{All, take, drop, take-append-drop, length, ◌∈◌}
use mail_otter.Base.Table.{select_where, find_where}

module _ {A : Type 0} (le : A → A → Bool) where
  unfoldable pub insert_by : A → List A → List A
  insert_by x [] = x ∷ []
  insert_by x (y ∷ ys) = if le x y then x ∷ y ∷ ys else y ∷ insert_by x ys

  -- `ORDER BY`
  unfoldable pub sort_by : List A → List A
  sort_by [] = []
  sort_by (x ∷ xs) = insert_by x (sort_by xs)

-- Each comes before all later ones.
abbrev pub Ordered : {A : Type 0} → (A → A → Type 0) → List A → Type 0
Ordered R [] = Unit
Ordered R (x ∷ xs) = All (R x) xs × Ordered R xs

-- The answer of a query for the first rows that satisfy P: the table is, but for its order, the answer,
-- the rest of the rows that satisfy P, and the rows that do not; the answer and the rest are in order;
-- and nothing is left out while there is room.
abbrev pub IsPage : {A : Type 0} → (A → Type 0) → (A → A → Type 0) → ℕ → List A → List A → Type 0
IsPage {A} P R limit table page =
    (rest : List A) × (others : List A) × Perm table ((page ++ rest) ++ others)
    × All P (page ++ rest)
    × All (λ row. ¬ P row) others
    × Ordered R (page ++ rest)
    × (length page ≡ min limit (length (page ++ rest)))

module _ {A : Type 0} (le : A → A → Bool) where
  abbrev Before : A → A → Type 0
  Before x y = le x y ≡ true

  insert-Perm : (x : A) (xs : List A) → Perm (x ∷ xs) (insert_by le x xs)
  unfolding insert_by
  insert-Perm x [] = Perm.refl (x ∷ [])
  insert-Perm x (y ∷ ys) = elim (Bool-cases (le x y)) [
    | inl first ↦ rw first (Perm.refl (x ∷ y ∷ ys))
    | inr later ↦ rw later (Perm.trans (Perm.swap y x ys) (Perm.cons y (insert-Perm x ys)))
  ]

  module _ (P : A → Type 0) where
    All-insert : (x : A) (xs : List A) → P x → All P xs → All P (insert_by le x xs)
    unfolding insert_by
    All-insert x [] p h = (p, tt)
    All-insert x (y ∷ ys) p h = elim (Bool-cases (le x y)) [
      | inl first ↦ rw first (p, h)
      | inr later ↦ rw later (h.0, All-insert x ys p h.1)
    ]

    All-sort : (xs : List A) → All P xs → All P (sort_by le xs)
    unfolding sort_by
    All-sort [] h = tt
    All-sort (x ∷ xs) h = All-insert x (sort_by le xs) h.0 (All-sort xs h.1)

  module _ (total : (x y : A) → le x y ≡ false → le y x ≡ true)
      (transitive : (x y z : A) → le x y ≡ true → le y z ≡ true → le x z ≡ true) where
    All-after : (x y : A) (ys : List A) → le x y ≡ true → All (Before y) ys → All (Before x) ys
    All-after x y [] h g = tt
    All-after x y (z ∷ zs) h g = (transitive x y z h g.0, All-after x y zs h g.1)

    insert-Ordered : (x : A) (xs : List A) → Ordered Before xs → Ordered Before (insert_by le x xs)
    unfolding insert_by
    insert-Ordered x [] h = (tt, tt)
    insert-Ordered x (y ∷ ys) h = elim (Bool-cases (le x y)) [
      | inl first ↦ rw first ((first, All-after x y ys first h.0), h)
      | inr later ↦
          rw later (All-insert (Before y) x ys (total x y later) h.0, insert-Ordered x ys h.1)
    ]

    sort-Ordered : (xs : List A) → Ordered Before (sort_by le xs)
    unfolding sort_by
    sort-Ordered [] = tt
    sort-Ordered (x ∷ xs) = insert-Ordered x (sort_by le xs) (sort-Ordered xs)

module _ {A : Type 0} (p : A → Bool) where
  abbrev rejects : A → Bool
  rejects x = if p x then false else true

  select-All :
      (P : A → Type 0) → ((x : A) → p x ≡ true → P x) → (xs : List A) → All P (select_where p xs)
  unfolding select_where
  select-All P f [] = tt
  select-All P f (x ∷ xs) = elim (Bool-cases (p x)) [
    | inl kept ↦ rw (kept, select_where) (f x kept, select-All P f xs)
    | inr dropped ↦ rw (dropped, select_where) (select-All P f xs)
  ]

  rejected-All :
      (P : A → Type 0)
      → ((x : A) → p x ≡ false → P x)
      → (xs : List A) → All P (select_where rejects xs)
  unfolding select_where
  rejected-All P f [] = tt
  rejected-All P f (x ∷ xs) = elim (Bool-cases (p x)) [
    | inl kept ↦ rw (kept, select_where) (rejected-All P f xs)
    | inr dropped ↦ rw (dropped, select_where) (f x dropped, rejected-All P f xs)
  ]

  sort-Perm :
      (le : A → A → Bool) (xs : List A)
      → Perm xs (sort_by le (select_where p xs) ++ select_where rejects xs)
  unfolding select_where sort_by
  sort-Perm le [] = Perm.nil
  sort-Perm le (x ∷ xs) =
      let sorted = sort_by le (select_where p xs) in
      let others = select_where rejects xs in
      let both : Perm (x ∷ xs) (x ∷ (sorted ++ others)) = Perm.cons x (sort-Perm le xs) in
      elim (Bool-cases (p x)) [
        | inl kept ↦
            rw (kept, select_where, sort_by)
              (Perm.trans both (Perm.append_right others (insert-Perm le x sorted)))
        | inr dropped ↦
            rw (dropped, select_where) (Perm.trans both (Perm.symm (perm_middle sorted others)))
      ]

pub and_iff :
    {P Q : Type 0} (a b : Bool) → (a ≡ true) ↔ P → (b ≡ true) ↔ Q → ((a && b) ≡ true) ↔ (P × Q)
and_iff a b f g = (
  λ h. (f.0 (ground (arith, h)), g.0 (ground (arith, h))),
  λ (p, q). let x = f.1 p in let y = g.1 q in ground (arith, x, y),
)

pub or_iff :
    {P Q : Type 0} (a b : Bool) → (a ≡ true) ↔ P → (b ≡ true) ↔ Q → ((a || b) ≡ true) ↔ (P ⊎ Q)
or_iff a b f g = (
  λ h. elim (Bool-cases a) [ inl x ↦ inl (f.0 x) | inr x ↦ inr (g.0 (ground (arith, h, x))) ],
  λ h. elim h [
    | inl p ↦ let x = f.1 p in ground (arith, x)
    | inr q ↦ let y = g.1 q in ground (arith, y)
  ],
)

pub find_where-In :
    {A : Type 0} (p : A → Bool) (xs : List A) (x : A) → find_where p xs ≡ some x → x ∈ xs
unfolding find_where
find_where-In p [] x h = cc
find_where-In p (y ∷ ys) x h = elim (Bool-cases (p y)) [
  | inl here ↦ let same : y ≡ x = ground (arith, h, here) in inl (sym same)
  | inr later ↦ inr (find_where-In p ys x (ground (arith, h, later)))
]

All-map :
    {A : Type 0} (P Q : A → Type 0) → ((x : A) → P x → Q x) → (xs : List A) → All P xs → All Q xs
All-map P Q f [] h = tt
All-map P Q f (x ∷ xs) h = (f x h.0, All-map P Q f xs h.1)

Ordered-map :
    {A : Type 0} (R S : A → A → Type 0)
    → ((x y : A) → R x y → S x y)
    → (xs : List A) → Ordered R xs
    → Ordered S xs
Ordered-map R S f [] h = tt
Ordered-map R S f (x ∷ xs) h = (All-map (R x) (S x) (f x) xs h.0, Ordered-map R S f xs h.1)

length-take-min : {A : Type 0} (n : ℕ) (xs : List A) → length (take n xs) ≡ min n (length xs)
length-take-min zero xs = omega arith
length-take-min (suc n) [] = omega arith
length-take-min (suc n) (x ∷ xs) = omega (arith, length-take-min n xs)

-- A sorted selection that is cut at a limit is the answer of the query, where the order is total.
pub take-IsPage :
    {A : Type 0} (p : A → Bool) (P : A → Type 0) (le : A → A → Bool) (R : A → A → Type 0)
    → ((x : A) → (p x ≡ true) ↔ P x)
    → ((x y : A) → le x y ≡ true → R x y)
    → ((x y : A) → le x y ≡ false → le y x ≡ true)
    → ((x y z : A) → le x y ≡ true → le y z ≡ true → le x z ≡ true)
    → (limit : ℕ) (table : List A)
    → IsPage P R limit table (take limit (sort_by le (select_where p table)))
take-IsPage p P le R decides orders total transitive limit table =
    let sorted = sort_by le (select_where p table) in
    let whole = take-append-drop limit sorted in
    let back = sym whole in
    (
      drop limit sorted,
      select_where (rejects p) table,
      subst (λ l. Perm table (l ++ select_where (rejects p) table)) back (sort-Perm p le table),
      subst (All P) back
          (All-sort le P (select_where p table) (select-All p P (λ x h. (decides x).0 h) table)),
      rejected-All p (λ x. ¬ P x)
          (λ x h yes_it_is. absurd (ground (arith, h, (decides x).1 yes_it_is))) table,
      subst (Ordered R) back (
          Ordered-map (Before le) R orders sorted
            (sort-Ordered le total transitive (select_where p table))),
      length-take-min limit sorted ∙ ap (λ l. min limit (length l)) back,
    )
