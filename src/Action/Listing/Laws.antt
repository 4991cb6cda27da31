-- ===== src/Action/Listing/Laws.antt =====
-- What a page of actions holds.
use mail_otter.Base.{
  ℕ, zero, suc, ◌+◌, ◌≤◌, ◌<◌, ◌≡◌, arith, refl, ◌⊎◌, String, str_eq, str_eq_iff, List, [], ◌∷◌,
  Bool, true, false, Option, none, some, take, select_where, sort_by, IsPage, take-IsPage, ap,
  and_iff, or_iff, ltb, leb, ◌==◌, ◌&&◌, ◌↔◌,
}
use mail_otter.UserScope.{UserScope, truthy, user_scope_sql, owned_by, column_is, is_null}
use mail_otter.Action.{
  ActionRow, ActionStatus, pending, executing, succeeded, failed, expired, cancelled,
}
use mail_otter.Action.Scheduling.{is_awake}
use mail_otter.Action.Listing.{
  Cursor, ListInput, is_listed, newer, page_limit, list_actions_for_user, status_eq, in_application,
  in_status, behind,
}

-- A row of the user: of the account, or of its address where the row names no account. A user without
-- an account has the rows of the address.
abbrev pub Owned : Option String → String → ActionRow → Type 0
Owned none email row = row.user_email ≡ email
Owned (some id) email row =
    (row.user_id ≡ some id) ⊎ ((row.user_id ≡ none) × (row.user_email ≡ email))

abbrev pub InApplication : Option String → ActionRow → Type 0
InApplication none row = Unit
InApplication (some id) row = row.application_id ≡ id

abbrev pub InStatus : Option ActionStatus → ActionRow → Type 0
InStatus none row = Unit
InStatus (some status) row = row.status ≡ status

abbrev pub Awake : ℕ → Option ℕ → Type 0
Awake now none = Unit
Awake now (some until) = until ≤ now

-- Older than the last row of the page before.
abbrev pub Behind : Option Cursor → ActionRow → Type 0
Behind none row = Unit
Behind (some c) row =
    (row.updated_at < c.updated_at)
    ⊎ ((row.updated_at ≡ c.updated_at) × (row.created_at < c.created_at))

-- What the listing is to show.
abbrev pub Listed : ℕ → UserScope → ListInput → ActionRow → Type 0
Listed now scope input row =
    Owned (truthy scope.id) scope.anchor_email row
    × (InApplication (truthy input.application_id) row
        × (InStatus input.status row
            × (((input.show_snoozed ≡ true) ⊎ Awake now row.snoozed_until)
                × Behind input.cursor row)))

column_is_iff : (c : Option String) (id : String) → (column_is c id ≡ true) ↔ (c ≡ some id)
column_is_iff none id = (λ h. absurd (ground arith), λ h. absurd (ground arith))
column_is_iff (some s) id = (
  λ h. ap (λ t. some t) ((str_eq_iff s id).0 h),
  λ h. let same : s ≡ id = ground (arith, h) in (str_eq_iff s id).1 same,
)

is_null_iff : (c : Option String) → (is_null c ≡ true) ↔ (c ≡ none)
is_null_iff none = (λ h. refl, λ h. refl)
is_null_iff (some s) = (λ h. absurd (ground arith), λ h. absurd (ground arith))

Owned-iff :
    (id : Option String) (email : String) (row : ActionRow)
    → (owned_by id email row.user_id row.user_email ≡ true) ↔ Owned id email row
unfolding owned_by
Owned-iff none email row = str_eq_iff row.user_email email
Owned-iff (some id) email row =
    or_iff (column_is row.user_id id) (is_null row.user_id && str_eq row.user_email email)
      (column_is_iff row.user_id id)
      (and_iff (is_null row.user_id) (str_eq row.user_email email) (is_null_iff row.user_id)
        (str_eq_iff row.user_email email))

in_application_iff :
    (id : Option String) (row : ActionRow) → (in_application id row ≡ true) ↔ InApplication id row
in_application_iff none row = (λ h. tt, λ h. refl)
in_application_iff (some id) row = str_eq_iff row.application_id id

status_eq_refl : (a : ActionStatus) → status_eq a a ≡ true
status_eq_refl pending = refl
status_eq_refl executing = refl
status_eq_refl succeeded = refl
status_eq_refl failed = refl
status_eq_refl expired = refl
status_eq_refl cancelled = refl

status_eq_same : (a b : ActionStatus) → status_eq a b ≡ true → a ≡ b
status_eq_same a b h = ground (arith, h)

status_eq_iff : (a b : ActionStatus) → (status_eq a b ≡ true) ↔ (a ≡ b)
status_eq_iff a b = (status_eq_same a b, λ h. rw (← h) (status_eq_refl a))

in_status_iff :
    (status : Option ActionStatus) (row : ActionRow)
    → (in_status status row ≡ true) ↔ InStatus status row
in_status_iff none row = (λ h. tt, λ h. refl)
in_status_iff (some status) row = status_eq_iff row.status status

pub is_awake_iff : (now : ℕ) (until : Option ℕ) → (is_awake now until ≡ true) ↔ Awake now until
is_awake_iff now none = (λ h. tt, λ h. refl)
is_awake_iff now (some until) = (λ h. ground (arith, h), λ h. ground (arith, h))

behind_iff : (c : Option Cursor) (row : ActionRow) → (behind c row ≡ true) ↔ Behind c row
behind_iff none row = (λ h. tt, λ h. refl)
behind_iff (some c) row =
    or_iff (ltb row.updated_at c.updated_at)
      (row.updated_at == c.updated_at && ltb row.created_at c.created_at)
      (λ h. ground (arith, h), λ h. ground (arith, h))
      (and_iff (row.updated_at == c.updated_at) (ltb row.created_at c.created_at)
        (λ h. ground (arith, h), λ h. ground (arith, h))
        (λ h. ground (arith, h), λ h. ground (arith, h)))

id_iff : (b : Bool) → (b ≡ true) ↔ (b ≡ true)
id_iff b = (λ h. h, λ h. h)

is_listed_iff :
    (now : ℕ) (scope : UserScope) (input : ListInput) (row : ActionRow)
    → (is_listed now scope input row ≡ true) ↔ Listed now scope input row
unfolding is_listed user_scope_sql
is_listed_iff now scope input row =
    and_iff _ _ (Owned-iff (truthy scope.id) scope.anchor_email row) (
      and_iff _ _ (in_application_iff (truthy input.application_id) row) (
        and_iff _ _ (in_status_iff input.status row) (
          and_iff _ _ (or_iff _ _ (id_iff input.show_snoozed) (is_awake_iff now row.snoozed_until))
            (behind_iff input.cursor row))))

-- Updated later, or at the same time and created no earlier.
abbrev pub Newer : ActionRow → ActionRow → Type 0
Newer a b =
    (b.updated_at < a.updated_at) ⊎ ((a.updated_at ≡ b.updated_at) × (b.created_at ≤ a.created_at))

newer_iff : (a b : ActionRow) → (newer a b ≡ true) ↔ Newer a b
newer_iff a b =
    or_iff _ _ (λ h. ground (arith, h), λ h. ground (arith, h))
      (and_iff (a.updated_at == b.updated_at) (leb b.created_at a.created_at)
        (λ h. ground (arith, h), λ h. ground (arith, h))
        (λ h. ground (arith, h), λ h. ground (arith, h)))

newer_total : (a b : ActionRow) → newer a b ≡ false → newer b a ≡ true
newer_total a b h = ground arith

newer_trans : (a b c : ActionRow) → newer a b ≡ true → newer b c ≡ true → newer a c ≡ true
newer_trans a b c h g = ground (arith, h, g)

take-take-suc : (n : ℕ) (xs : List ActionRow) → take n (take (suc n) xs) ≡ take n xs
take-take-suc zero xs = refl
take-take-suc (suc n) [] = refl
take-take-suc (suc n) (x ∷ xs) = ap (◌∷◌ x) (take-take-suc n xs)

-- A page is what the query is to answer: the rows of the user that are asked for, awake where the snoozed
-- ones are not to be shown, and behind the cursor; of these the newest, newest first, each as often as
-- the table has it, and as many as there are up to a limit, which is between 1 and 100.
pub list_actions_for_user_lem :
    (now : ℕ) (scope : UserScope) (input : ListInput) (actions : List ActionRow)
    → IsPage
        (Listed now scope input)
        Newer
        (page_limit input.limit)
        actions
        (list_actions_for_user now scope input actions).0
      × (1 ≤ page_limit input.limit)
      × (page_limit input.limit ≤ 100)
unfolding list_actions_for_user
list_actions_for_user_lem now scope input actions =
    let p = is_listed now scope input in
    let limit = page_limit input.limit in
    let sorted = sort_by newer (select_where p actions) in
    let one_more : limit + 1 ≡ suc limit = omega arith in
    (
      rw (one_more, take-take-suc limit sorted)
          (take-IsPage p (Listed now scope input) newer Newer (is_listed_iff now scope input)
            (λ a b. (newer_iff a b).0) newer_total newer_trans limit actions),
      omega arith,
      omega arith,
    )
