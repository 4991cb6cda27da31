-- ===== src/Token.antt =====
-- The access tokens of connected applications: the rows that
-- packages/backend-data/src/dao/OAuth2AccessTokenRefreshStatusDAO.ts and the OAuth2 methods of
-- ConnectedApplicationDAO.ts keep. The columns of an application that these do not read are left out,
-- and its credentials stand in the clear.
pub mod Cache
pub mod Worker
pub mod Laws
pub mod Connected
pub mod Exclusive
pub mod Session
pub mod Service
use mail_otter.Base.{
  ℕ, String, str_eq, List, [], ◌∷◌, ◌++◌, Bool, true, false, ◌&&◌, Option, none, some,
  if◌then◌else◌, take, find_where, update_where, is_none,
}
use mail_otter.Action.{ProviderId, Text}

pub data ConnectionMethod : Type 0 where
  oauth2 imap_password : ConnectionMethod

pub data ApplicationStatus : Type 0 where
  draft connected error : ApplicationStatus

-- `OAuth2Credentials`
pub record Credentials : Type 0 where
  pub client_id : String
  pub client_secret : String
  pub refresh_token : Option String

pub record Application : Type 0 where
  pub application_id : String
  pub user_email : String
  pub provider_id : ProviderId
  pub provider_email : Option String
  pub connection_method : ConnectionMethod
  pub status : ApplicationStatus
  pub credentials : Credentials
  pub updated_at : ℕ

abbrev pub is_oauth2 : ConnectionMethod → Bool
is_oauth2 oauth2 = true
is_oauth2 imap_password = false

abbrev pub is_connected : ApplicationStatus → Bool
is_connected connected = true
is_connected _ = false

abbrev pub is_application : String → Application → Bool
is_application id app = str_eq app.application_id id

-- `getById`
unfoldable pub get_application : String → List Application → Option Application
get_application id apps = find_where (is_application id) apps

abbrev pub with_refresh_token : String → Application → Application
with_refresh_token token app = record app {
  credentials = record app.credentials { refresh_token = some token };
}

abbrev pub update_if_oauth2 :
    Option Application
    → String
    → (Application → Application)
    → List Application
    → Option (List Application)
update_if_oauth2 none id f apps = none
update_if_oauth2 (some app) id f apps =
    if is_oauth2 app.connection_method then some (update_where (is_application id) f apps) else none

-- `updateOAuth2RefreshToken`, which does nothing where the application is gone.
unfoldable pub update_refresh_token : String → String → List Application → List Application
update_refresh_token id token apps =
    elim (update_if_oauth2 (get_application id apps) id (with_refresh_token token) apps) [
      | none ↦ apps
      | some apps' ↦ apps'
    ]

abbrev pub as_connected : ℕ → String → String → Application → Application
as_connected now token email app = record (with_refresh_token token app) {
  provider_email = some email;
  status = connected;
  updated_at = now;
}

-- `markOAuth2Connected`, which throws where the application is gone.
unfoldable pub mark_connected :
    ℕ → String → String → String → List Application → Option (List Application)
mark_connected now id token email apps =
    update_if_oauth2 (get_application id apps) id (as_connected now token email) apps

-- `OAuth2AccessTokenRefreshStatusInternal`
pub record StatusRow : Type 0 where
  pub application_id : String
  pub access_token_expires_at : Option ℕ
  pub last_refresh_started_at : Option ℕ
  pub last_refresh_succeeded_at : Option ℕ
  pub last_refresh_failed_at : Option ℕ
  pub last_error : Option Text
  pub created_at : ℕ
  pub updated_at : ℕ

abbrev pub is_status_of : String → StatusRow → Bool
is_status_of id row = str_eq row.application_id id

abbrev pub fresh_status : ℕ → String → StatusRow
fresh_status now id = record {
  application_id = id;
  access_token_expires_at = none;
  last_refresh_started_at = none;
  last_refresh_succeeded_at = none;
  last_refresh_failed_at = none;
  last_error = none;
  created_at = now;
  updated_at = now;
}

-- `INSERT ... ON CONFLICT(application_id) DO UPDATE`
unfoldable pub upsert :
    String → StatusRow → (StatusRow → StatusRow) → List StatusRow → List StatusRow
upsert id new f rows = elim (find_where (is_status_of id) rows) [
  | none ↦ rows ++ new ∷ []
  | some _ ↦ update_where (is_status_of id) f rows
]

abbrev pub set_started : ℕ → StatusRow → StatusRow
set_started now row = record row { last_refresh_started_at = some now; updated_at = now }

-- `recordRefreshStarted`, which throws where a row is to be inserted for an application that is gone: the
-- row's application is a foreign key. The later statements of a run find this row.
unfoldable pub record_refresh_started :
    ℕ → String → List Application → List StatusRow → Option (List StatusRow)
record_refresh_started now id apps rows =
    if is_none (find_where (is_status_of id) rows) && is_none (get_application id apps)
    then none
    else some (upsert id (set_started now (fresh_status now id)) (set_started now) rows)

abbrev pub set_refreshed : ℕ → ℕ → StatusRow → StatusRow
set_refreshed now expires_at row = record row {
  access_token_expires_at = some expires_at;
  last_refresh_succeeded_at = some now;
  last_error = none;
  updated_at = now;
}

unfoldable pub record_refresh_success : ℕ → String → ℕ → List StatusRow → List StatusRow
record_refresh_success now id expires_at =
    upsert id (set_refreshed now expires_at (fresh_status now id)) (set_refreshed now expires_at)

abbrev pub set_refused : ℕ → Text → StatusRow → StatusRow
set_refused now message row = record row {
  last_refresh_failed_at = some now;
  last_error = some (take 1024 message);
  updated_at = now;
}

unfoldable pub record_refresh_failure : ℕ → String → Text → List StatusRow → List StatusRow
record_refresh_failure now id message =
    upsert id (set_refused now message (fresh_status now id)) (set_refused now message)
