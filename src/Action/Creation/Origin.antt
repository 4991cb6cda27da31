-- ===== src/Action/Creation/Origin.antt =====
-- Where the addresses come from that are extracted from a body, and those that are allowed.
use mail_otter.Base.{
  codes, not, ◌&&◌, if◌then◌else◌, ℕ, ◌≡◌, refl, ap, sym, ◌∙◌, arith, List, [], ◌∷◌, ◌++◌, ◌∈◌, ◌⊎◌,
  inl, inr, Bool, true, false, Bool-cases, Option, none, some, any, reverse_text,
}
use mathlib.Core.List.{append_assoc, reverse-append, reverse-reverse, reverse-cons}
use mail_otter.Action.{Text}
use mail_otter.Sender.{text_eq, starts_with, trim}
use mail_otter.Sender.Laws.{text_eq-eq}
use mail_otter.Action.Creation.Urls.{
  drop_while, strip_end, is_punctuation, is_url_char, begins_url, match_all, add_url, add_matches,
  or_empty, extract_urls, find_without_slashes, find_allowed_url,
}

-- The text stands in the body as it is.
abbrev pub IsPart : Text → Text → Type 0
IsPart u body = (before : Text) × (after : Text) × (body ≡ before ++ (u ++ after))

drop_while-suffix : (p : ℕ → Bool) (s : Text) → (t : Text) × (s ≡ t ++ drop_while p s)
unfolding drop_while
drop_while-suffix p [] = ([], refl)
drop_while-suffix p (c ∷ cs) = elim (Bool-cases (p c)) [
  | inl dropped ↦
      let (t, e) = drop_while-suffix p cs in (c ∷ t, rw (dropped, drop_while) (ap (◌∷◌ c) e))
  | inr kept ↦ ([], rw (kept, drop_while) refl)
]

-- What is left of a text without its end is its beginning.
strip_end-prefix : (p : ℕ → Bool) (s : Text) → (t : Text) × (s ≡ strip_end p s ++ t)
unfolding strip_end
strip_end-prefix p s =
    let (t, e) = drop_while-suffix p (reverse_text s) in
    (reverse_text t, cc (reverse-reverse s, e, reverse-append t (drop_while p (reverse_text s))))

IsPart-prefix : (u v t body : Text) → u ≡ v ++ t → IsPart u body → IsPart v body
IsPart-prefix u v t body e (before, after, h) = (before, t ++ after, cc (append_assoc v t after))

IsPart-cons : (c : ℕ) (u body : Text) → IsPart u body → IsPart u (c ∷ body)
IsPart-cons c u body (before, after, h) = (c ∷ before, after, ap (◌∷◌ c) h)

IsPart-append : (s u body : Text) → IsPart u body → IsPart u (s ++ body)
IsPart-append [] u body h = h
IsPart-append (c ∷ s) u body h = IsPart-cons c u (s ++ body) (IsPart-append s u body h)

reverse-cons-append :
    (c : ℕ) (found cs : Text) → reverse_text (c ∷ found) ++ cs ≡ reverse_text found ++ (c ∷ cs)
reverse-cons-append c found cs =
    rw (reverse-cons c found) (append_assoc (reverse_text found) (c ∷ []) cs)

-- A match that ends here stands before what is searched next.
ends-IsPart :
    (found : Text) (c : ℕ) (cs u : Text)
    → u ∈ reverse_text found ∷ match_all none cs
    → (u ∈ match_all none cs → IsPart u cs)
    → IsPart u (reverse_text found ++ c ∷ cs)
ends-IsPart found c cs u (inl e) later = ([], c ∷ cs, rw e refl)
ends-IsPart found c cs u (inr there) later =
    IsPart-append (reverse_text found) u (c ∷ cs) (IsPart-cons c u cs (later there))

-- Every match stands in the text that is searched, behind what was found of a match before.
match_all-IsPart :
    (found : Option Text) (text u : Text)
    → u ∈ match_all found text
    → IsPart u (reverse_text (or_empty found) ++ text)
unfolding match_all
match_all-IsPart none [] u h = absurd h
match_all-IsPart none (c ∷ cs) u h = elim (Bool-cases (begins_url (c ∷ cs))) [
  | inl begins ↦ match_all-IsPart (some (c ∷ [])) cs u (rw (begins, match_all) at h)
  | inr not_here ↦ IsPart-cons c u cs (match_all-IsPart none cs u (rw (not_here, match_all) at h))
]
match_all-IsPart (some found) [] u (inl e) = ([], [], rw e refl)
match_all-IsPart (some found) [] u (inr bad) = absurd bad
match_all-IsPart (some found) (c ∷ cs) u h = elim (Bool-cases (is_url_char c)) [
  | inl more ↦
      let (before, after, e) =
        match_all-IsPart (some (c ∷ found)) cs u (rw (more, match_all) at h) in
      (before, after, sym (reverse-cons-append c found cs) ∙ e)
  | inr ends ↦ ends-IsPart found c cs u (rw (ends, match_all) at h) (match_all-IsPart none cs u)
]

any_text_eq : (u : Text) (urls : List Text) → any (text_eq u) urls ≡ true → u ∈ urls
any_text_eq u [] h = absurd (ground arith)
any_text_eq u (v ∷ urls) h = elim (Bool-cases (text_eq u v)) [
  | inl same ↦ inl (text_eq-eq u v same)
  | inr other ↦ inr (any_text_eq u urls (rw other at h))
]

∈-append_one : (u v : Text) (urls : List Text) → u ∈ urls ++ v ∷ [] → (u ∈ urls) ⊎ (u ≡ v)
∈-append_one u v [] (inl e) = inr e
∈-append_one u v [] (inr bad) = absurd bad
∈-append_one u v (w ∷ urls) (inl e) = inl (inl e)
∈-append_one u v (w ∷ urls) (inr there) = elim (∈-append_one u v urls there) [
  | inl before ↦ inl (inr before)
  | inr last ↦ inr last
]

∈-add_url : (u v : Text) (urls : List Text) → u ∈ add_url v urls → (u ∈ urls) ⊎ (u ≡ v)
unfolding add_url
∈-add_url u v urls h = elim (Bool-cases (any (text_eq v) urls)) [
  | inl present ↦ inl (rw present at h)
  | inr new ↦ ∈-append_one u v urls (rw new at h)
]

-- An address of the set stands in the body, if the matches and the addresses before do.
add_matches-IsPart :
    (body : Text) (raws urls : List Text)
    → ((v : Text) → v ∈ raws → IsPart v body)
    → ((v : Text) → v ∈ urls → IsPart v body)
    → (u : Text) → u ∈ add_matches raws urls
    → IsPart u body
unfolding add_matches
add_matches-IsPart body [] urls found before u h = before u h
add_matches-IsPart body (raw ∷ raws) urls found before u h =
    let v = strip_end is_punctuation raw in
    add_matches-IsPart body raws (add_url v urls) (λ w there. found w (inr there))
      (λ w there. elim (∈-add_url w v urls there) [
        | inl old ↦ before w old
        | inr e ↦
            let (t, whole) = strip_end-prefix is_punctuation raw in
            IsPart-prefix raw w t body (cc (whole, e)) (found raw (inl refl))
      ])
      u h

-- Every address that is extracted from a body stands in it.
pub extract_urls-IsPart : (body u : Text) → u ∈ extract_urls body → IsPart u body
unfolding extract_urls
extract_urls-IsPart body u h =
    add_matches-IsPart body (match_all none body) [] (λ v. match_all-IsPart none body v)
      (λ v bad. absurd bad) u h

find_without_slashes-∈ :
    (candidate : Text) (urls : List Text) (u : Text)
    → find_without_slashes candidate urls ≡ some u
    → u ∈ urls
unfolding find_without_slashes
find_without_slashes-∈ candidate [] u h = absurd (ground arith)
find_without_slashes-∈ candidate (v ∷ urls) u h =
    ground (arith, find_without_slashes-∈ candidate urls u)

chosen-∈ :
    (outside present : Bool) (c u : Text) (later : Option Text) (urls : List Text)
    → (present ≡ true → c ∈ urls)
    → (later ≡ some u → u ∈ urls)
    → (if outside then none else if present then some c else later) ≡ some u
    → u ∈ urls
chosen-∈ true present c u later urls here there h = absurd (ground arith)
chosen-∈ false true c u later urls here there h = let same : c ≡ u = cc in rw (← same) (here refl)
chosen-∈ false false c u later urls here there h = there h

-- An address that is allowed is one of those that are.
pub find_allowed_url-∈ :
    (url : Text) (urls : List Text) (u : Text) → find_allowed_url url urls ≡ some u → u ∈ urls
unfolding find_allowed_url
find_allowed_url-∈ url urls u h =
    let c = strip_end is_punctuation (trim url) in
    chosen-∈ (not (starts_with c (codes "http://")) && not (starts_with c (codes "https://")))
      (any (text_eq c) urls) c u (find_without_slashes c urls) urls (any_text_eq c urls)
      (find_without_slashes-∈ c urls u) h
