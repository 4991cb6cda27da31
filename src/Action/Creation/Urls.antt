-- ===== src/Action/Creation/Urls.antt =====
-- The texts and addresses of packages/backend-services/src/action/ActionCreationService.ts: cleaning a
-- text, finding the addresses of a message's body, and matching an address against them. Code units
-- of ASCII are compared without regard to case where the pattern of the code has the flag `i`.
use mail_otter.Base.{
  starts_with_ignoring_case, ℕ, List, [], ◌∷◌, ◌++◌, Bool, true, false, not, ◌&&◌, ◌||◌, Option,
  none, some, if◌then◌else◌, ◌==◌, take, drop, any, reverse_text, codes,
}
use mail_otter.Action.{Text}
use mail_otter.Sender.{text_eq, starts_with, is_space, trim}

-- `replaceAll(/\s+/g, ' ')`, after a code unit that is white space or is not
unfoldable pub collapse_spaces : (after_space : Bool) → Text → Text
collapse_spaces after_space [] = []
collapse_spaces after_space (c ∷ cs) = elim (is_space c) [
  | true ↦ elim after_space [
    | true ↦ collapse_spaces true cs
    | false ↦ 32 ∷ collapse_spaces true cs
  ]
  | false ↦ c ∷ collapse_spaces false cs
]

-- `cleanText`
unfoldable pub clean_text : Text → Text
clean_text value = take 1000 (trim (collapse_spaces false value))

-- `a || b` on texts
abbrev pub non_empty_or : Text → Text → Text
non_empty_or [] b = b
non_empty_or (c ∷ cs) b = c ∷ cs

-- A text that is `undefined` when it is empty
abbrev pub non_empty : Text → Option Text
non_empty [] = none
non_empty (c ∷ cs) = some (c ∷ cs)

abbrev pub or_empty : Option Text → Text
or_empty none = []
or_empty (some text) = text

-- `cleanOptionalText`
unfoldable pub clean_optional_text : Option Text → Option Text
clean_optional_text value = non_empty (clean_text (or_empty value))

unfoldable pub drop_while : (ℕ → Bool) → Text → Text
drop_while p [] = []
drop_while p (c ∷ cs) = elim (p c) [ true ↦ drop_while p cs | false ↦ c ∷ cs ]

-- `while (...) text = text.slice(0, -1)`, as long as the last code unit satisfies `p`
unfoldable pub strip_end : (ℕ → Bool) → Text → Text
strip_end p text = reverse_text (drop_while p (reverse_text text))

-- `'),.;!?'.includes`
abbrev pub is_punctuation : ℕ → Bool
is_punctuation c = any (λ d. c == d) (codes "),.;!?")

abbrev pub is_slash : ℕ → Bool
is_slash c = c == 47

-- `[^\s<>"]`
abbrev pub is_url_char : ℕ → Bool
is_url_char c = not (is_space c || (c == 60 || (c == 62 || c == 34)))

abbrev pub head_is : (ℕ → Bool) → Text → Bool
head_is p [] = false
head_is p (c ∷ cs) = p c

-- A match of the pattern `https?:\/\/[^\s<>"]+` begins here.
unfoldable pub begins_url : Text → Bool
begins_url text =
    (starts_with_ignoring_case (codes "http://") text && head_is is_url_char (drop 7 text))
    || (starts_with_ignoring_case (codes "https://") text && head_is is_url_char (drop 8 text))

-- `matchAll`: the matches from here on; inside a match, with its code units so far, the last first.
unfoldable pub match_all : Option Text → Text → List Text
match_all none [] = []
match_all none (c ∷ cs) = elim (begins_url (c ∷ cs)) [
  | true ↦ match_all (some (c ∷ [])) cs
  | false ↦ match_all none cs
]
match_all (some found) [] = reverse_text found ∷ []
match_all (some found) (c ∷ cs) = elim (is_url_char c) [
  | true ↦ match_all (some (c ∷ found)) cs
  | false ↦ reverse_text found ∷ match_all none cs
]

-- `urls.add`, in the order of insertion
unfoldable pub add_url : Text → List Text → List Text
add_url url urls = if any (text_eq url) urls then urls else urls ++ url ∷ []

unfoldable pub add_matches : List Text → List Text → List Text
add_matches [] urls = urls
add_matches (raw ∷ raws) urls = add_matches raws (add_url (strip_end is_punctuation raw) urls)

-- `extractUrls`
unfoldable pub extract_urls : Text → List Text
extract_urls body = add_matches (match_all none body) []

-- The first allowed address that is equal but for slashes at the end
unfoldable pub find_without_slashes : Text → List Text → Option Text
find_without_slashes candidate [] = none
find_without_slashes candidate (allowed ∷ urls) =
    if text_eq (strip_end is_slash allowed) (strip_end is_slash candidate)
    then some allowed
    else find_without_slashes candidate urls

-- `findAllowedUrl`
unfoldable pub find_allowed_url : Text → List Text → Option Text
find_allowed_url url allowed_urls =
    let candidate = strip_end is_punctuation (trim url) in
    if not (starts_with candidate (codes "http://"))
      && not (starts_with candidate (codes "https://"))
    then none
    else if any (text_eq candidate) allowed_urls
    then some candidate
    else find_without_slashes candidate allowed_urls
