-- ===== src/Sender.antt =====
-- packages/backend-services/src/email/SenderFilterUtil.ts: which senders an application lets through. A
-- text is the list of its UTF-16 code units; `to_lower_case` is the language's, whose Unicode tables
-- are not modelled.
pub mod Laws
pub mod Filter
use mail_otter.Base.{
  ℕ, zero, suc, ◌+◌, ◌-◌, List, [], ◌∷◌, ◌++◌, Bool, true, false, ◌&&◌, ◌||◌, Option, none, some,
  if◌then◌else◌, ◌==◌, leb, length, take, drop, any, reverse_text, codes,
}
use mail_otter.Action.{Text}

unfoldable pub text_eq : Text → Text → Bool
text_eq [] [] = true
text_eq (x ∷ xs) (y ∷ ys) = x == y && text_eq xs ys
text_eq _ _ = false

-- `s.startsWith(p)`
unfoldable pub starts_with : Text → Text → Bool
starts_with s [] = true
starts_with [] (p ∷ ps) = false
starts_with (x ∷ xs) (p ∷ ps) = x == p && starts_with xs ps

-- `s.endsWith(p)`
unfoldable pub ends_with : Text → Text → Bool
ends_with s p = leb (length p) (length s) && text_eq (drop (length s - length p) s) p

-- `s.includes(p)`
unfoldable pub includes : Text → Text → Bool
includes [] p = starts_with [] p
includes (x ∷ xs) p = starts_with (x ∷ xs) p || includes xs p

-- `s.indexOf(c)`, of one code unit; `none` is -1.
unfoldable pub index_of : ℕ → Text → Option ℕ
index_of c [] = none
index_of c (x ∷ xs) =
    if x == c then some 0 else elim (index_of c xs) [ none ↦ none | some i ↦ some (i + 1) ]

-- `s.indexOf(c, k)`
unfoldable pub index_of_from : ℕ → ℕ → Text → Option ℕ
index_of_from c k s = elim (index_of c (drop k s)) [ none ↦ none | some i ↦ some (k + i) ]

-- `s.slice(a, b)`, for a and b in range
abbrev pub slice : ℕ → ℕ → Text → Text
slice a b s = take (b - a) (drop a s)

-- What `trim` takes off: white space and line terminators.
abbrev pub is_space : ℕ → Bool
is_space c =
    (leb 9 c && leb c 13)
    || (c == 32
        || (c == 160
            || (c == 5760
                || ((leb 8192 c && leb c 8202)
                    || (c == 8232
                        || (c == 8233
                            || (c == 8239 || (c == 8287 || (c == 12288 || c == 65279)))))))))

unfoldable pub trim_start : Text → Text
trim_start [] = []
trim_start (x ∷ xs) = if is_space x then trim_start xs else x ∷ xs

unfoldable pub trim : Text → Text
unfolding trim_start
trim s = reverse_text (trim_start (reverse_text (trim_start s)))

pub data Decision : Type 0 where
  pass : Decision
  skip : Text → Decision

abbrev pub not_included : Text
not_included = codes "Sender does not match application include filter rules."

module _ (to_lower_case : Text → Text) where
  unfoldable pub extract_email_address : Text → Text
  extract_email_address from = elim (index_of b'<' from) [
    | none ↦ trim (to_lower_case from)
    | some lt ↦ elim (index_of_from b'>' (lt + 1) from) [
      | none ↦ trim (to_lower_case from)
      | some gt ↦ trim (to_lower_case (slice (lt + 1) gt from))
    ]
  ]

  unfoldable pub matches_pattern : Text → Text → Bool
  matches_pattern address pattern_text =
      let p = trim (to_lower_case pattern_text) in
      if starts_with p (codes "@") then ends_with address p else text_eq address p

  unfoldable pub should_skip : Text → List Text → Decision
  should_skip from [] = pass
  should_skip from (r ∷ rs) =
      if any (matches_pattern (extract_email_address from)) (r ∷ rs)
      then pass
      else skip not_included
