-- ===== src/Action/Listing.antt =====
-- `listActionsForUser` of packages/backend-data/src/dao/EmailActionDAO.ts: the pages of a user's actions. A
-- cursor stands as the two times that it encodes; the codec is a library's.
pub mod Laws
use mail_otter.Base.{
  ℕ, zero, suc, ◌+◌, min, max, String, str_eq, List, [], ◌∷◌, Bool, true, false, ◌&&◌, ◌||◌, Option,
  none, some, if◌then◌else◌, leb, ltb, ◌==◌, take, length, or_else, select_where, sort_by,
}
use mail_otter.UserScope.{UserScope, user_scope_sql, truthy}
use mail_otter.Action.{
  ActionRow, ActionStatus, pending, executing, succeeded, failed, expired, cancelled,
}
use mail_otter.Action.Scheduling.{is_awake}

pub record Cursor : Type 0 where
  pub updated_at : ℕ
  pub created_at : ℕ

-- `ListEmailActionsInput`
pub record ListInput : Type 0 where
  pub application_id : Option String
  pub status : Option ActionStatus
  pub cursor : Option Cursor
  pub limit : Option ℕ
  pub show_snoozed : Bool

abbrev pub status_eq : ActionStatus → ActionStatus → Bool
status_eq pending pending = true
status_eq executing executing = true
status_eq succeeded succeeded = true
status_eq failed failed = true
status_eq expired expired = true
status_eq cancelled cancelled = true
status_eq _ _ = false

abbrev pub in_application : Option String → ActionRow → Bool
in_application none row = true
in_application (some id) row = str_eq row.application_id id

abbrev pub in_status : Option ActionStatus → ActionRow → Bool
in_status none row = true
in_status (some status) row = status_eq row.status status

abbrev pub behind : Option Cursor → ActionRow → Bool
behind none row = true
behind (some c) row =
    ltb row.updated_at c.updated_at
    || (row.updated_at == c.updated_at && ltb row.created_at c.created_at)

-- The conditions of the query.
unfoldable pub is_listed : ℕ → UserScope → ListInput → ActionRow → Bool
is_listed now scope input row =
    user_scope_sql scope row.user_id row.user_email
    && (in_application (truthy input.application_id) row
        && (in_status input.status row
            && ((input.show_snoozed || is_awake now row.snoozed_until) && behind input.cursor row)))

-- `a` stands before `b` in `ORDER BY updated_at DESC, created_at DESC`.
abbrev pub newer : ActionRow → ActionRow → Bool
newer a b =
    ltb b.updated_at a.updated_at || (a.updated_at == b.updated_at && leb b.created_at a.created_at)

abbrev pub page_limit : Option ℕ → ℕ
page_limit limit = min (max (or_else limit 25) 1) 100

abbrev pub cursor_of : List ActionRow → Option Cursor
cursor_of [] = none
cursor_of (x ∷ []) = some (record { updated_at = x.updated_at; created_at = x.created_at })
cursor_of (x ∷ y ∷ ys) = cursor_of (y ∷ ys)

unfoldable pub list_actions_for_user :
    ℕ → UserScope → ListInput → List ActionRow → List ActionRow × Option Cursor
list_actions_for_user now scope input actions =
    let limit = page_limit input.limit in
    let rows =
      take (limit + 1) (sort_by newer (select_where (is_listed now scope input) actions)) in
    let page = take limit rows in (page, if ltb limit (length rows) then cursor_of page else none)
