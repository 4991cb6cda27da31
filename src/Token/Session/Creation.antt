-- ===== src/Token/Session/Creation.antt =====
-- `createAuthorization` of packages/backend-services/src/oauth2/OAuth2AuthorizationService.ts, with
-- `buildAuthorizationUrl` of packages/provider-clients/src/OAuth2ProviderUtil.ts. Hashes, random
-- texts, the base of the request's address and `addMinutes` are parameters. An address is an endpoint
-- with its search parameters, before they are written as one text.
use Prim.Native.String.{◌++◌ as ◌<>◌}
use mail_otter.Base.{
  ℕ, String, str_eq, List, [], ◌∷◌, ◌++◌, ◌&&◌, Option, none, some, if◌then◌else◌, find_where,
}
use mail_otter.UserScope.{UserScope, user_scope_sql}
use mail_otter.Action.{ProviderId}
use mail_otter.Token.{Application, is_application, is_oauth2}
use mail_otter.Token.Session.{Session, create}

abbrev pub Params : Type 0
Params = List (String × String)

-- `searchParams.set`, where no key stands twice.
unfoldable pub set_param : String → String → Params → Params
set_param key value [] = (key, value) ∷ []
set_param key value ((k, v) ∷ params) =
    if str_eq k key then (key, value) ∷ params else (k, v) ∷ set_param key value params

-- `OAuth2Strategy`
pub record Strategy : Type 0 where
  pub authorization_endpoint : String
  pub token_endpoint : String
  pub required_scopes : String
  pub extra_auth_params : Params

-- `getOAuth2Strategy`; `none` is its error.
unfoldable pub get_strategy : ProviderId → Option Strategy
get_strategy ProviderId.google_gmail = some (record {
  authorization_endpoint = "https://accounts.google.com/o/oauth2/v2/auth";
  token_endpoint = "https://oauth2.googleapis.com/token";
  required_scopes =
      "https://www.googleapis.com/auth/gmail.readonly https://www.googleapis.com/auth/gmail.send https://www.googleapis.com/auth/gmail.compose";
  extra_auth_params = ("access_type", "offline") ∷ ("prompt", "consent") ∷ [];
})
get_strategy ProviderId.microsoft_outlook = some (record {
  authorization_endpoint = "https://login.microsoftonline.com/consumers/oauth2/v2.0/authorize";
  token_endpoint = "https://login.microsoftonline.com/consumers/oauth2/v2.0/token";
  required_scopes =
      "https://graph.microsoft.com/User.Read https://graph.microsoft.com/Mail.Read https://graph.microsoft.com/Mail.ReadWrite https://graph.microsoft.com/Mail.Send offline_access";
  extra_auth_params = ("response_mode", "query") ∷ [];
})
get_strategy ProviderId.fastmail_jmap = some (record {
  authorization_endpoint = "https://api.fastmail.com/oauth/authorize";
  token_endpoint = "https://api.fastmail.com/oauth/token";
  required_scopes =
      "urn:ietf:params:jmap:core urn:ietf:params:jmap:mail urn:ietf:params:jmap:submission";
  extra_auth_params = [];
})
get_strategy ProviderId.yahoo_mail = some (record {
  authorization_endpoint = "https://api.login.yahoo.com/oauth2/request_auth";
  token_endpoint = "https://api.login.yahoo.com/oauth2/get_token";
  required_scopes = "mail-r mail-w";
  extra_auth_params = ("response_mode", "query") ∷ [];
})
get_strategy ProviderId.custom_imap = none
get_strategy ProviderId.apple_icloud = none

abbrev pub calendar_scopes : ProviderId → List String
calendar_scopes ProviderId.google_gmail = "https://www.googleapis.com/auth/calendar.events" ∷ []
calendar_scopes ProviderId.microsoft_outlook =
    "https://graph.microsoft.com/Calendars.ReadWrite" ∷ []
calendar_scopes ProviderId.fastmail_jmap = "urn:ietf:params:jmap:calendars" ∷ []
calendar_scopes _ = []

abbrev pub google_drive_scopes : ProviderId → List String
google_drive_scopes ProviderId.google_gmail = "https://www.googleapis.com/auth/drive.readonly" ∷ []
google_drive_scopes _ = []

abbrev pub onedrive_scopes : ProviderId → List String
onedrive_scopes ProviderId.microsoft_outlook = "https://graph.microsoft.com/Files.Read" ∷ []
onedrive_scopes _ = []

-- `OAUTH2_FEATURE_SCOPES`
unfoldable pub feature_scopes : ProviderId → String → List String
feature_scopes provider feature =
    if str_eq feature "calendar"
    then calendar_scopes provider
    else if str_eq feature "google_drive"
    then google_drive_scopes provider
    else if str_eq feature "onedrive"
    then onedrive_scopes provider
    else []

abbrev pub all_scopes : ProviderId → List String → List String
all_scopes provider [] = []
all_scopes provider (feature ∷ features) =
    feature_scopes provider feature ++ all_scopes provider features

-- `join(' ')` on a list that is not empty.
unfoldable pub join_spaces : String → List String → String
join_spaces s [] = s
join_spaces s (t ∷ ts) = s <> (" " <> join_spaces t ts)

abbrev pub set_all : Params → Params → Params
set_all [] params = params
set_all ((key, value) ∷ extra) params = set_all extra (set_param key value params)

pub record Url : Type 0 where
  pub endpoint : String
  pub search_params : Params

-- `OAuth2AuthorizationInput`
pub record AuthorizationInput : Type 0 where
  pub provider_id : ProviderId
  pub client_id : String
  pub redirect_uri : String
  pub state : String
  pub code_challenge : String
  pub enabled_features : Option (List String)

abbrev pub features_or_empty : Option (List String) → List String
features_or_empty none = []
features_or_empty (some features) = features

abbrev pub url_at : AuthorizationInput → Strategy → Url
url_at i config = record {
  endpoint = config.authorization_endpoint;
  search_params = set_all config.extra_auth_params (
      set_param "code_challenge_method" "S256" (
        set_param "code_challenge" i.code_challenge (
          set_param "state" i.state (
            set_param "scope"
              (join_spaces config.required_scopes
                (all_scopes i.provider_id (features_or_empty i.enabled_features)))
              (set_param "response_type" "code" (
                set_param "redirect_uri" i.redirect_uri
                  (set_param "client_id" i.client_id [])))))));
}

-- `buildAuthorizationUrl`; `none` is the error of a provider without OAuth2.
unfoldable pub build_authorization_url : AuthorizationInput → Option Url
build_authorization_url i = elim (get_strategy i.provider_id) [
  | none ↦ none
  | some config ↦ some (url_at i config)
]

-- What a run of `createAuthorization` reads: the random texts, the clock and the configuration.
pub record AuthorizationSources : Type 0 where
  pub random_state : String
  pub random_verifier : String
  pub random_id : String
  pub hash : String → String
  pub challenge : String → String
  pub base_url : String
  pub now : ℕ
  pub created_at : ℕ
  pub expiry_minutes : ℕ
  pub add_minutes : ℕ → ℕ → ℕ

-- `OAuth2AuthorizationResult`
pub record AuthorizationResult : Type 0 where
  pub authorization_url : Url
  pub redirect_uri : String
  pub expires_at : ℕ

pub data AuthorizationOutcome : Type 0 where
  created : AuthorizationResult → AuthorizationOutcome
  application_not_found not_oauth2 state_taken unsupported_provider : AuthorizationOutcome

-- `getByIdForUser`; `user_id` is the column of an application's row.
unfoldable pub get_application_for_user :
    (Application → Option String) → String → UserScope → List Application → Option Application
get_application_for_user user_id id scope apps =
    find_where (λ app. is_application id app && user_scope_sql scope (user_id app) app.user_email)
      apps

module _ (q : AuthorizationSources) where
  unfoldable pub redirect_to : Application → String
  redirect_to app = q.base_url <> ("/api/oauth2/callback/" <> app.application_id)

  unfoldable pub new_session : Application → Session
  new_session app = record {
    session_id = q.random_id;
    application_id = app.application_id;
    state_hash = q.hash q.random_state;
    code_verifier = q.random_verifier;
    redirect_uri = redirect_to app;
    created_at = q.created_at;
    expires_at = q.add_minutes q.now q.expiry_minutes;
    consumed_at = none;
  }

  abbrev pub input_for : Application → Option (List String) → AuthorizationInput
  input_for app features = record {
    provider_id = app.provider_id;
    client_id = app.credentials.client_id;
    redirect_uri = redirect_to app;
    state = q.random_state;
    code_challenge = q.challenge q.random_verifier;
    enabled_features = some (features_or_empty features);
  }

  abbrev pub answer_for : Application → Option Url → AuthorizationOutcome
  answer_for app none = unsupported_provider
  answer_for app (some url) = created (record {
    authorization_url = url;
    redirect_uri = redirect_to app;
    expires_at = q.add_minutes q.now q.expiry_minutes;
  })

  abbrev pub create_for :
      Application → Option (List String) → List Session → List Session × AuthorizationOutcome
  create_for app features sessions = elim (create (new_session app) sessions) [
    | none ↦ (sessions, state_taken)
    | some sessions' ↦
        (sessions', answer_for app (build_authorization_url (input_for app features)))
  ]

  -- `createAuthorization`; `features` reads the features that are enabled for an application.
  unfoldable pub create_authorization :
      (user_id : Application → Option String) (features : Application → Option (List String))
      → UserScope
      → String
      → List Application
      → List Session
      → List Session × AuthorizationOutcome
  create_authorization user_id features scope id apps sessions =
      elim (get_application_for_user user_id id scope apps) [
        | none ↦ (sessions, application_not_found)
        | some app ↦
            if is_oauth2 app.connection_method
            then create_for app (features app) sessions
            else (sessions, not_oauth2)
      ]
