-- ===== src/UserScope.antt =====
-- packages/backend-data/src/dao/userScope.ts: which rows a user may see.
use mail_otter.Base.{
  String, str_eq, Bool, true, false, ◌&&◌, ◌||◌, Option, none, some, if◌then◌else◌,
}

pub record UserScope : Type 0 where
  pub id : Option String
  pub anchor_email : String

-- `scope.id` is falsy when it is null and when it is the empty text.
abbrev pub truthy : Option String → Option String
truthy none = none
truthy (some s) = if str_eq s "" then none else some s

-- `column = ?` in SQL: false on a null column.
abbrev pub column_is : Option String → String → Bool
column_is none value = false
column_is (some s) value = str_eq s value

abbrev pub is_null : Option String → Bool
is_null none = true
is_null (some _) = false

-- The predicate that `userScopeSql` writes, on the two columns that it reads.
unfoldable pub owned_by : Option String → String → Option String → String → Bool
owned_by none anchor user_id user_email = str_eq user_email anchor
owned_by (some id) anchor user_id user_email =
    column_is user_id id || (is_null user_id && str_eq user_email anchor)

unfoldable pub user_scope_sql : UserScope → Option String → String → Bool
unfolding owned_by
user_scope_sql scope user_id user_email =
    owned_by (truthy scope.id) scope.anchor_email user_id user_email

unfoldable pub scope_for_anchor : String → UserScope
scope_for_anchor anchor = record { id = none; anchor_email = anchor }
