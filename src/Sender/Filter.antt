-- ===== src/Sender/Filter.antt =====
-- Which senders a list of patterns lets through.
use mail_otter.Base.{
  ◌≡◌, ◌↔◌, ◌⊎◌, refl, ap, sym, ◌∙◌, arith, List, [], ◌∷◌, ◌++◌, ◌∈◌, inl, inr, Bool, true, false,
  Bool-cases, any, if◌then◌else◌, codes,
}
use mail_otter.Action.{Text}
use mail_otter.Sender.{
  trim, starts_with, matches_pattern, extract_email_address, should_skip, pass, skip, not_included,
}
use mail_otter.Sender.Laws.{matches_pattern-domain, matches_pattern-address}

passes_if : (b : Bool) → (if b then pass else skip not_included) ≡ pass → b ≡ true
passes_if true h = refl
passes_if false h = absurd (ground arith)

-- `f` holds of one of them.
pub any-∈ :
    {A : Type 0} (f : A → Bool) (xs : List A)
    → (any f xs ≡ true) ↔ ((x : A) × (x ∈ xs) × (f x ≡ true))
any-∈ {A = A} f xs = (find xs, λ (x, there, holds). put xs x there holds)
  where
    find : (ys : List A) → any f ys ≡ true → (x : A) × (x ∈ ys) × (f x ≡ true)
    find [] h = absurd (ground arith)
    find (y ∷ ys) h = elim (Bool-cases (f y)) [
      | inl here ↦ (y, inl refl, here)
      | inr not_here ↦ let (x, there, holds) = find ys (rw not_here at h) in (x, inr there, holds)
    ]

    put : (ys : List A) (x : A) → x ∈ ys → f x ≡ true → any f ys ≡ true
    put [] x bad holds = absurd bad
    put (y ∷ ys) x (inl e) holds = let here : f y ≡ true = sym (ap f e) ∙ holds in rw here refl
    put (y ∷ ys) x (inr there) holds = ground (arith, put ys x there holds)

module _ (to_lower_case : Text → Text) where
  -- A pattern, trimmed and in lower case, lets an address through: the address ends with it, if it
  -- begins with `@`, and else is the same.
  abbrev pub Admits : Text → Text → Type 0
  Admits address pattern_text =
      let p = trim (to_lower_case pattern_text) in
      ((starts_with p (codes "@") ≡ true) × (q : Text) × (address ≡ q ++ p))
      ⊎ ((starts_with p (codes "@") ≡ false) × (address ≡ p))

  begins_with_at : (p : Text) → starts_with p (codes "@") ≡ true → (d : Text) × (p ≡ b'@' ∷ d)
  unfolding starts_with
  begins_with_at [] h = absurd (ground arith)
  begins_with_at (c ∷ cs) h = (cs, ap (λ x. x ∷ cs) (ground (arith, h)))

  matches_pattern-Admits :
      (address p : Text) → (matches_pattern to_lower_case address p ≡ true) ↔ Admits address p
  matches_pattern-Admits address p =
      let t = trim (to_lower_case p) in
      elim (Bool-cases (starts_with t (codes "@"))) [
        | inl domain ↦
            let (d, e) = begins_with_at t domain in
            let both = matches_pattern-domain to_lower_case address p d e in
            (
              λ hit. let (q, a) = both.0 hit in inl (domain, q, a ∙ ap (λ r. q ++ r) (sym e)),
              λ admitted. elim admitted [
                | inl (s, q, a) ↦ both.1 (q, a ∙ ap (λ r. q ++ r) e)
                | inr (n, a) ↦ absurd (ground (arith, domain, n))
              ],
            )
        | inr whole ↦
            let both = matches_pattern-address to_lower_case address p whole in
            (
              λ hit. inr (whole, both.0 hit),
              λ admitted. elim admitted [
                | inl (s, q, a) ↦ absurd (ground (arith, whole, s))
                | inr (n, a) ↦ both.1 a
              ],
            )
      ]

  -- An application with patterns lets a sender through exactly if one of them admits the address that
  -- is extracted from the sender's line; one without patterns lets every sender through.
  pub should_skip-pass :
      (from : Text) (rules : List Text)
      → (should_skip to_lower_case from rules ≡ pass) ↔ (
          (rules ≡ [])
          ⊎ ((r : Text) × (r ∈ rules) × Admits (extract_email_address to_lower_case from) r))
  unfolding should_skip
  should_skip-pass from [] = (λ h. inl refl, λ h. refl)
  should_skip-pass from (r ∷ rs) =
      let address = extract_email_address to_lower_case from in
      let found = any-∈ (matches_pattern to_lower_case address) (r ∷ rs) in
      (
        λ h.
            let (x, there, holds) =
              found.0 (passes_if (any (matches_pattern to_lower_case address) (r ∷ rs)) h) in
            inr (x, there, (matches_pattern-Admits address x).0 holds),
        λ admitted. elim admitted [
          | inl e ↦ absurd (ground (arith, e))
          | inr (x, there, admits) ↦
              let hit = found.1 (x, there, (matches_pattern-Admits address x).1 admits) in
              rw hit refl
        ],
      )
