-- ===== src/Token/Worker.antt =====
-- apps/background/src/OAuth2TokenRefreshWorker.ts: the operations of the object that owns the tokens of
-- one application. `runExclusive` chains them (Token.Exclusive), so the model lets nothing run between
-- the steps of one. The providers, the encryption, the clock and the configuration are parameters; a JSON value of
-- another type than the expected is `none`.
use mail_otter.Base.{
  ℕ, zero, suc, ◌+◌, String, List, ◌++◌, Bool, not, Option, none, some, if◌then◌else◌, codes,
}
use mail_otter.UserScope.{truthy}
use mail_otter.Action.{ProviderId, google_gmail, microsoft_outlook, Text}
use mail_otter.Token.{
  Credentials, Application, StatusRow, is_oauth2, is_connected, get_application,
  update_refresh_token, mark_connected, record_refresh_started, record_refresh_success,
  record_refresh_failure,
}
use mail_otter.Token.Cache.{Namespace, AccessToken, get_cached_access_token, store_access_token}

-- The classes of error that `onRequest` tells apart, with the message.
pub data TokenError : Type 0 where
  not_found bad_request provider_non_retryable other : Text → TokenError

abbrev pub message_of : TokenError → Text
message_of (not_found m) = m
message_of (bad_request m) = m
message_of (provider_non_retryable m) = m
message_of (other m) = m

-- The status of the response to an error.
unfoldable pub status_of : TokenError → ℕ
status_of (not_found m) = 404
status_of (bad_request m) = 400
status_of (provider_non_retryable m) = 400
status_of (other m) = 500

pub data Result {ℓ} (A : Type ℓ) : Type ℓ where
  ok : A → Result A
  err : TokenError → Result A

-- `OAuth2TokenResult`
pub record TokenResult : Type 0 where
  pub access_token : String
  pub refresh_token : Option String
  pub expires_in : Option ℕ

-- `OAuth2TokenWorkerResponse`
pub record Response : Type 0 where
  pub access_token : String
  pub expires_at : ℕ
  pub provider_email : Option String

pub record RefreshRequest : Type 0 where
  pub application_id : Option String
  pub force_refresh : Bool
  pub min_valid_seconds : Option ℕ

pub record ExchangeRequest : Type 0 where
  pub application_id : Option String
  pub redirect_uri : Option String
  pub code : Option String
  pub code_verifier : Option String

-- What surrounds an operation. `clock k` is the clock as it is read at place
-- k of the code; `store_error` is the
-- error, if any, with which the namespace refuses to store; `seen` is what a read sees of the namespace,
-- and `foreign_key_error` the message of the database's error.
pub record Surroundings : Type 0 where
  pub clock : ℕ → ℕ
  pub encrypt : String → String × String
  pub decrypt : String → String → String
  pub min_valid_seconds : ℕ
  pub fallback_ttl_seconds : ℕ
  pub refresh : ProviderId → Credentials → Result TokenResult
  pub exchange : ProviderId → Credentials → String → String → String → Result TokenResult
  pub profile_email : ProviderId → String → Result String
  pub store_error : Option TokenError
  pub seen : Namespace → Namespace
  pub foreign_key_error : Text

pub record World : Type 0 where
  pub cache : Namespace
  pub statuses : List StatusRow
  pub applications : List Application

abbrev pub Answer : Type 0
Answer = World × Result Response

-- The path of a request, with the fields of its body.
pub data Route : Type 0 where
  unknown : Route
  refreshes : RefreshRequest → Route
  exchanges : ExchangeRequest → Route

abbrev pub respond : Answer → World × ℕ × Option (Result Response)
respond (w, ok response) = (w, 200, some (ok response))
respond (w, err error) = (w, status_of error, some (err error))

-- `readPositiveNumber`
unfoldable pub read_positive_number : Option ℕ → ℕ → ℕ
read_positive_number none fallback = fallback
read_positive_number (some zero) fallback = fallback
read_positive_number (some (suc n)) fallback = suc n

-- `OAuth2ProviderUtil.getExpiresInSeconds`
unfoldable pub get_expires_in_seconds : TokenResult → ℕ → ℕ
get_expires_in_seconds result fallback = read_positive_number result.expires_in fallback

-- `readRequiredString`
unfoldable pub required : Option String → Text → Result String
required value field = elim (truthy value) [
  | none ↦ err (bad_request (codes "OAuth2 token request is missing " ++ field ++ codes "."))
  | some text ↦ ok text
]

abbrev pub and_then {ℓ} : {A B : Type ℓ} → Result A → (A → Result B) → Result B
and_then (ok x) next = next x
and_then (err error) next = err error

-- The four texts that an exchange demands, in the order in which they are read.
unfoldable pub required_texts : ExchangeRequest → Result (String × String × String × String)
required_texts request = and_then (required request.application_id (codes "applicationId")) (λ id.
    and_then (required request.redirect_uri (codes "redirectUri")) (λ uri.
      and_then (required request.code (codes "code")) (λ code.
        and_then (required request.code_verifier (codes "codeVerifier"))
          (λ verifier. ok (id, uri, code, verifier)))))

abbrev pub application_not_found : Text
application_not_found = codes "OAuth2 application was not found."

abbrev pub not_authorized : Text
not_authorized = codes "Connected application is not authorized."

abbrev pub no_refresh_token : Text
no_refresh_token =
    codes "Provider returned no refresh token and none was stored. Re-authorization is required."

-- `getRefreshableApplication`
unfoldable pub refreshable : Option Application → Result Application
refreshable none = err (not_found application_not_found)
refreshable (some app) =
    if not (is_oauth2 app.connection_method)
    then err (not_found application_not_found)
    else if not (is_connected app.status)
    then err (bad_request not_authorized)
    else ok app

abbrev pub exchangeable : Option Application → Result Application
exchangeable none = err (not_found application_not_found)
exchangeable (some app) =
    if is_oauth2 app.connection_method then ok app else err (not_found application_not_found)

-- `tokenResult.refreshToken ?? stored`
abbrev pub either_token : Option String → Option String → Option String
either_token none stored = stored
either_token (some token) stored = some token

module _ (e : Surroundings) where
  open e use {clock, encrypt, decrypt}

  -- The `catch` block of both operations.
  unfoldable pub failing : String → World → TokenError → Answer
  failing id w error = (
    record w { statuses = record_refresh_failure (clock 5) id (message_of error) w.statuses },
    err error,
  )

  -- What follows `recordRefreshStarted`, whose error is not caught.
  unfoldable pub starting : String → World → (World → Answer) → Answer
  starting id w next = elim (record_refresh_started (clock 1) id w.applications w.statuses) [
    | none ↦ (w, err (other e.foreign_key_error))
    | some rows ↦ next (record w { statuses = rows })
  ]

  -- `storeSuccessfulToken`; what it throws is not caught by the operation, which returns its promise.
  unfoldable pub store_successful_token : String → TokenResult → Option String → World → Answer
  store_successful_token id result email w =
      let expires_at = clock 2 + get_expires_in_seconds result e.fallback_ttl_seconds in
      elim e.store_error [
        | some error ↦ (w, err error)
        | none ↦ (
          record w {
            cache =
                store_access_token encrypt decrypt (clock 3) id result.access_token expires_at
                  w.cache;
            statuses = record_refresh_success (clock 4) id expires_at w.statuses;
          },
          ok (record {
            access_token = result.access_token;
            expires_at = expires_at;
            provider_email = email;
          }),
        )
      ]

  abbrev pub rotate : String → Option String → World → World
  rotate id none w = w
  rotate id (some token) w = record w {
    applications = update_refresh_token id token w.applications;
  }

  unfoldable pub after_refresh : String → World → Result TokenResult → Answer
  after_refresh id w (err error) = failing id w error
  after_refresh id w (ok result) =
      store_successful_token id result none (rotate id (truthy result.refresh_token) w)

  unfoldable pub refresh_application : String → World → Result Application → Answer
  refresh_application id w (err error) = failing id w error
  refresh_application id w (ok app) = after_refresh id w (e.refresh app.provider_id app.credentials)

  unfoldable pub refresh_now : String → World → Answer
  refresh_now id w =
      starting id w
        (λ w'. refresh_application id w' (refreshable (get_application id w'.applications)))

  abbrev pub answer_cached : String → World × Option AccessToken → Answer
  answer_cached id (w, none) = refresh_now id w
  answer_cached id (w, some token) = (
    w,
    ok (record {
      access_token = token.access_token;
      expires_at = token.expires_at;
      provider_email = none;
    }),
  )

  unfoldable pub look_up : ℕ → String → World → World × Option AccessToken
  look_up min_valid_seconds id w =
      let (cache, found) =
        get_cached_access_token encrypt decrypt (clock 0) min_valid_seconds id (e.seen w.cache)
          w.cache in
      (record w { cache = cache }, found)

  -- `refreshAccessToken`
  unfoldable pub refresh_access_token : RefreshRequest → World → Answer
  refresh_access_token request w = elim (required request.application_id (codes "applicationId")) [
    | err error ↦ (w, err error)
    | ok id ↦
        if request.force_refresh
        then refresh_now id w
        else answer_cached id
            (look_up (read_positive_number request.min_valid_seconds e.min_valid_seconds) id w)
  ]

  -- `getProviderEmail`
  unfoldable pub get_provider_email : Application → String → Result String
  get_provider_email app token = elim app.provider_id [
    | google_gmail ↦ e.profile_email google_gmail token
    | microsoft_outlook ↦ e.profile_email microsoft_outlook token
    | _ ↦ ok app.user_email
  ]

  unfoldable pub connect : String → TokenResult → String → World → Option String → Answer
  connect id result email w none = failing id w (bad_request no_refresh_token)
  connect id result email w (some token) =
      elim (mark_connected (clock 6) id token email w.applications) [
        | none ↦ failing id w (other application_not_found)
        | some apps ↦
            store_successful_token id result (some email) (record w { applications = apps })
      ]

  unfoldable pub after_profile : String → Application → TokenResult → World → Result String → Answer
  after_profile id app result w (err error) = failing id w error
  after_profile id app result w (ok email) =
      connect id result email w
        (truthy (either_token result.refresh_token app.credentials.refresh_token))

  unfoldable pub after_exchange : String → Application → World → Result TokenResult → Answer
  after_exchange id app w (err error) = failing id w error
  after_exchange id app w (ok result) =
      after_profile id app result w (get_provider_email app result.access_token)

  unfoldable pub exchange_application :
      String → String → String → String → World → Result Application → Answer
  exchange_application id redirect_uri code verifier w (err error) = failing id w error
  exchange_application id redirect_uri code verifier w (ok app) =
      after_exchange id app w
        (e.exchange app.provider_id app.credentials redirect_uri code verifier)

  -- `exchangeCode`
  unfoldable pub exchange_code : ExchangeRequest → World → Answer
  exchange_code request w = elim (required_texts request) [
    | err error ↦ (w, err error)
    | ok (id, redirect_uri, code, verifier) ↦ starting id w (λ w'.
        exchange_application id redirect_uri code verifier w'
          (exchangeable (get_application id w'.applications)))
  ]

  -- `onRequest`: the status of the response, and its body where the operation was run. A body that is
  -- no JSON is read as one without fields.
  unfoldable pub on_request : Route → Bool → World → World × ℕ × Option (Result Response)
  on_request unknown is_post w = (w, 404, none)
  on_request (refreshes request) is_post w =
      if is_post then respond (refresh_access_token request w) else (w, 405, none)
  on_request (exchanges request) is_post w =
      if is_post then respond (exchange_code request w) else (w, 405, none)
