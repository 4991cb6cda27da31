-- ===== src/Base/Table.antt =====
-- A table of the database as a list of rows, and the statements that the DAOs run on it.
-- The rows stand in the order in which SQLite visits them; a `LIMIT` takes the first that match.
use Prim.Native.Nat.{ℕ, zero, suc, ◌+◌, ◌≤◌}
use mathlib.Core.Path.{◌≡◌, refl, ap}
use mathlib.Core.Bool.{Bool, true, false, ◌&&◌}
use mathlib.Core.Option
use mathlib.Core.Option.{Option, none, some}
use mathlib.Core.Logic.{inl, inr}
use mathlib.Core.List.{List, [], ◌∷◌, ◌++◌}
use native.Mathlib.Omega.{arith}
use mail_otter.Base.Tests.{if◌then◌else◌, Bool-cases}

module _ {ℓ} {A : Type ℓ} where
  -- `SELECT ... WHERE p`
  unfoldable pub select_where : (A → Bool) → List A → List A
  select_where p [] = []
  select_where p (x ∷ xs) = if p x then x ∷ select_where p xs else select_where p xs

  -- `SELECT ... WHERE p LIMIT 1`
  unfoldable pub find_where : (A → Bool) → List A → Option A
  find_where p [] = none
  find_where p (x ∷ xs) = if p x then some x else find_where p xs

  -- `SELECT COUNT(*) ... WHERE p`; also what `meta.changes` reports after an update of these rows.
  unfoldable pub count_where : (A → Bool) → List A → ℕ
  count_where p [] = 0
  count_where p (x ∷ xs) = (if p x then 1 else 0) + count_where p xs

  -- `UPDATE ... SET f WHERE p`
  unfoldable pub update_where : (A → Bool) → (A → A) → List A → List A
  update_where p f [] = []
  update_where p f (x ∷ xs) = (if p x then f x else x) ∷ update_where p f xs

  -- `DELETE ... WHERE p`
  unfoldable pub delete_where : (A → Bool) → List A → List A
  delete_where p [] = []
  delete_where p (x ∷ xs) = if p x then delete_where p xs else x ∷ delete_where p xs

  -- `UPDATE ... SET f WHERE key IN (SELECT key ... WHERE p LIMIT n)`, the keys being unique.
  unfoldable pub update_first : ℕ → (A → Bool) → (A → A) → List A → List A
  update_first n p f [] = []
  update_first zero p f (x ∷ xs) = x ∷ xs
  update_first (suc n) p f (x ∷ xs) = elim (p x) [
    | true ↦ f x ∷ update_first n p f xs
    | false ↦ x ∷ update_first (suc n) p f xs
  ]

  -- `DELETE ... WHERE key IN (SELECT key ... WHERE p LIMIT n)`
  unfoldable pub delete_first : ℕ → (A → Bool) → List A → List A
  delete_first n p [] = []
  delete_first zero p (x ∷ xs) = x ∷ xs
  delete_first (suc n) p (x ∷ xs) = elim (p x) [
    | true ↦ delete_first n p xs
    | false ↦ x ∷ delete_first (suc n) p xs
  ]

  module _ (p q : A → Bool) (f : A → A) where
    -- An update makes no row satisfy `p` that did not.
    pub count-update_where-le :
        ((x : A) → p (f x) ≡ true → p x ≡ true)
        → (xs : List A) → count_where p (update_where q f xs) ≤ count_where p xs
    unfolding count_where update_where
    count-update_where-le keep [] = omega arith
    count-update_where-le keep (x ∷ xs) = ground (arith, keep x, count-update_where-le keep xs)

    pub count-update_first-le :
        ((x : A) → p (f x) ≡ true → p x ≡ true)
        → (n : ℕ) (xs : List A) → count_where p (update_first n q f xs) ≤ count_where p xs
    unfolding count_where update_first
    count-update_first-le keep n [] = omega arith
    count-update_first-le keep zero (x ∷ xs) = omega arith
    count-update_first-le keep (suc n) (x ∷ xs) =
        ground
          (arith, keep x, count-update_first-le keep n xs, count-update_first-le keep (suc n) xs)

    -- An update of rows that satisfy `p`, after which they do not, uses them up.
    pub count-update_where_used :
        ((x : A) → q x ≡ true → p x ≡ true)
        → ((x : A) → p (f x) ≡ false)
        → (xs : List A) → count_where p (update_where q f xs) + count_where q xs ≡ count_where p xs
    unfolding count_where update_where
    count-update_where_used were gone [] = omega arith
    count-update_where_used were gone (x ∷ xs) =
        ground (arith, were x, gone x, count-update_where_used were gone xs)

  pub count-delete_where-le :
      (p q : A → Bool) (xs : List A) → count_where p (delete_where q xs) ≤ count_where p xs
  unfolding count_where delete_where
  count-delete_where-le p q [] = omega arith
  count-delete_where-le p q (x ∷ xs) = ground (arith, count-delete_where-le p q xs)

  pub count-delete_first-le :
      (p q : A → Bool) (n : ℕ) (xs : List A)
      → count_where p (delete_first n q xs) ≤ count_where p xs
  unfolding count_where delete_first
  count-delete_first-le p q n [] = omega arith
  count-delete_first-le p q zero (x ∷ xs) = omega arith
  count-delete_first-le p q (suc n) (x ∷ xs) =
      ground (arith, count-delete_first-le p q n xs, count-delete_first-le p q (suc n) xs)

  pub count-append :
      (p : A → Bool) (xs ys : List A)
      → count_where p (xs ++ ys) ≡ count_where p xs + count_where p ys
  unfolding count_where
  count-append p [] ys = omega arith
  count-append p (x ∷ xs) ys = omega (arith, count-append p xs ys)

  -- The first row that `p` finds is found again after an update that `p` does not see.
  pub find-update_where :
      (p q : A → Bool) (f : A → A)
      → ((x : A) → p (f x) ≡ p x)
      → (xs : List A)
      → find_where p (update_where q f xs)
        ≡ Option.map (λ x. if q x then f x else x) (find_where p xs)
  unfolding find_where update_where
  find-update_where p q f same [] = refl
  find-update_where p q f same (x ∷ xs) = elim (Bool-cases (q x)) [
    | inl hit ↦ elim (Bool-cases (p x)) [
      | inl here ↦ rw (hit, same x, here) (ap some (rw hit))
      | inr not_here ↦ rw (hit, same x, not_here) (find-update_where p q f same xs)
    ]
    | inr miss ↦ elim (Bool-cases (p x)) [
      | inl here ↦ rw (miss, here) (ap some (rw miss))
      | inr not_here ↦ rw (miss, not_here) (find-update_where p q f same xs)
    ]
  ]

  -- What is found satisfies the condition.
  pub find_where-holds :
      (p : A → Bool) (xs : List A) (x : A) → find_where p xs ≡ some x → p x ≡ true
  unfolding find_where
  find_where-holds p [] x h = cc
  find_where-holds p (y ∷ ys) x h = ground (arith, find_where-holds p ys x)

  -- A row that `p` finds first, and that satisfies `q`, is the first to satisfy both.
  pub find_where-and :
      (p q : A → Bool) (xs : List A) (x : A)
      → find_where p xs ≡ some x
      → q x ≡ true
      → find_where (λ y. p y && q y) xs ≡ some x
  unfolding find_where
  find_where-and p q [] x found holds = cc
  find_where-and p q (y ∷ ys) x found holds = ground (arith, find_where-and p q ys x)

  -- A row that is found counts.
  pub count_where-found :
      (p q : A → Bool) (xs : List A) (x : A)
      → find_where p xs ≡ some x
      → q x ≡ true
      → 1 ≤ count_where q xs
  unfolding find_where count_where
  count_where-found p q [] x found holds = cc
  count_where-found p q (y ∷ ys) x found holds = ground (arith, count_where-found p q ys x)

  -- A row that was just appended is found, if not one before it.
  pub find_where-append :
      (p : A → Bool) (xs : List A) (x : A)
      → p x ≡ true
      → (y : A) × (find_where p (xs ++ x ∷ []) ≡ some y)
  unfolding find_where
  find_where-append p [] x h = (x, rw h)
  find_where-append p (z ∷ zs) x h = elim (Bool-cases (p z)) [
    | inl here ↦ (z, rw here)
    | inr later ↦ rw later (find_where-append p zs x h)
  ]

  pub count_where_mono :
      (p q : A → Bool)
      → ((x : A) → q x ≡ true → p x ≡ true)
      → (xs : List A) → count_where q xs ≤ count_where p xs
  unfolding count_where
  count_where_mono p q h [] = omega arith
  count_where_mono p q h (x ∷ xs) = ground (arith, h x, count_where_mono p q h xs)
