-- ===== src/Sender/Laws.antt =====
-- What the filter of senders reads off an address line, and what it lets through.
use mail_otter.Base.{
  ℕ, suc, ◌+◌, ◌-◌, ◌≡◌, ◌↔◌, ◌≢◌, arith, refl, ap, sym, ◌∙◌, [], ◌∷◌, ◌++◌, true, false, some, leb,
  length, take, drop, length-append, drop-length-append, take-length-append, take-append-drop, All,
}
use native.Mathlib.Numerals.{add-one}
use mail_otter.Action.{Text}
use mail_otter.Sender.{
  text_eq, starts_with, ends_with, index_of, index_of_from, slice, trim, extract_email_address,
  matches_pattern,
}

pub text_eq-eq : (s t : Text) → text_eq s t ≡ true → s ≡ t
unfolding text_eq
text_eq-eq [] [] h = refl
text_eq-eq [] (y ∷ ys) h = cc
text_eq-eq (x ∷ xs) [] h = cc
text_eq-eq (x ∷ xs) (y ∷ ys) h = ground (arith, text_eq-eq xs ys)

text_eq_refl : (s : Text) → text_eq s s ≡ true
unfolding text_eq
text_eq_refl [] = refl
text_eq_refl (x ∷ xs) = ground (arith, text_eq_refl xs)

text_eq_iff : (s t : Text) → (text_eq s t ≡ true) ↔ (s ≡ t)
text_eq_iff s t = (text_eq-eq s t, λ e. rw e (text_eq_refl t))

ends_with-append : (s p : Text) → ends_with (s ++ p) p ≡ true
unfolding ends_with
ends_with-append s p =
    let n : length (s ++ p) - length p ≡ length s = omega (arith, length-append s p) in
    let l : leb (length p) (length (s ++ p)) ≡ true = ground (arith, length-append s p) in
    rw (l, n, drop-length-append s p) (text_eq_refl p)

ends_with-split : (s p : Text) → ends_with s p ≡ true → (q : Text) × (s ≡ q ++ p)
unfolding ends_with
ends_with-split s p h =
    let k = length s - length p in
    let same = text_eq-eq (drop k s) p (ground arith) in
    (take k s, sym (take-append-drop k s) ∙ ap (◌++◌ (take k s)) same)

-- The code unit does not occur in the text.
abbrev pub NotIn : ℕ → Text → Type 0
NotIn c = All (λ x. x ≢ c)

index_of-append : (c : ℕ) (s t : Text) → NotIn c s → index_of c (s ++ c ∷ t) ≡ some (length s)
unfolding index_of
index_of-append c [] t h = ground arith
index_of-append c (x ∷ s) t (p, h) = ground (arith, index_of-append c s t h)

drop-past : (s : Text) (c : ℕ) (t : Text) → drop (length s + 1) (s ++ c ∷ t) ≡ t
drop-past s c t = rw add-one (skipping s)
  where
    skipping : (s : Text) → drop (suc (length s)) (s ++ c ∷ t) ≡ t
    skipping [] = refl
    skipping (x ∷ s) = skipping s

module _ (to_lower_case : Text → Text) where
  -- From an address line with angle brackets, a name without `<` before them and an address without
  -- `>` between them, the address is extracted, in lower case and trimmed, whatever follows.
  pub extract_email_address-brackets :
      (name address rest : Text)
      → NotIn b'<' name
      → NotIn b'>' address
      → extract_email_address to_lower_case (name ++ b'<' ∷ (address ++ b'>' ∷ rest))
        ≡ trim (to_lower_case address)
  unfolding extract_email_address index_of_from
  extract_email_address-brackets name address rest h g =
      let line = name ++ b'<' ∷ (address ++ b'>' ∷ rest) in
      let behind = drop-past name b'<' (address ++ b'>' ∷ rest) in
      let width : length name + 1 + length address - (length name + 1) ≡ length address =
        omega arith in
      let inside : slice (length name + 1) (length name + 1 + length address) line ≡ address =
        rw (behind, width) (take-length-append address (b'>' ∷ rest)) in
      rw
        (
          index_of-append b'<' name (address ++ b'>' ∷ rest) h,
          extract_email_address,
          behind,
          index_of-append b'>' address rest g,
          extract_email_address,
        )
        (ap (λ s. trim (to_lower_case s)) inside)

  -- A pattern that, in lower case and trimmed, begins with `@` matches exactly the addresses that end
  -- with it.
  pub matches_pattern-domain :
      (address p d : Text)
      → trim (to_lower_case p) ≡ b'@' ∷ d
      → (matches_pattern to_lower_case address p ≡ true) ↔ ((q : Text) × (address ≡ q ++ b'@' ∷ d))
  unfolding matches_pattern starts_with
  matches_pattern-domain address p d h = (
    (λ hit. ends_with-split address (b'@' ∷ d) (rw h at hit)),
    (λ found. rw (h, found.1) (ends_with-append found.0 (b'@' ∷ d))),
  )

  -- A pattern that, in lower case and trimmed, does not begin with `@` matches the one address that it
  -- then is.
  pub matches_pattern-address :
      (address p : Text)
      → starts_with (trim (to_lower_case p)) (b'@' ∷ []) ≡ false
      → (matches_pattern to_lower_case address p ≡ true) ↔ (address ≡ trim (to_lower_case p))
  unfolding matches_pattern
  matches_pattern-address address p h = (
    (λ hit. text_eq-eq address (trim (to_lower_case p)) (rw h at hit)),
    (λ same. rw h ((text_eq_iff address (trim (to_lower_case p))).1 same)),
  )
