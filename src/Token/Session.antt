-- ===== src/Token/Session.antt =====
-- packages/backend-data/src/dao/OAuth2AuthorizationSessionDAO.ts and `completeCallback` of
-- packages/backend-services/src/oauth2/OAuth2AuthorizationService.ts, with
-- OAuth2AccessTokenService.completeAuthorization, which calls the worker's exchange. The hash of a state
-- is a parameter. `others` are the statements that other requests send to the sessions between the
-- first access of a callback to them and its last.
pub mod Spent
pub mod Laws
pub mod Creation
pub mod Opened
use mail_otter.Base.{
  ℕ, zero, suc, min, String, str_eq, List, [], ◌∷◌, ◌++◌, Bool, true, false, ◌&&◌, ◌||◌, not,
  Option, none, some, if◌then◌else◌, ltb, leb, ◌==◌, is_none, find_where, count_where, update_where,
  delete_first, or_else,
}
use mail_otter.UserScope.{truthy}
use mail_otter.Token.{get_application}
use mail_otter.Token.Worker.{
  Surroundings, World, TokenError, Result, ok, err, Response, status_of, exchange_code,
}

-- `OAuth2AuthorizationSessionInternal`
pub record Session : Type 0 where
  pub session_id : String
  pub application_id : String
  pub state_hash : String
  pub code_verifier : String
  pub redirect_uri : String
  pub created_at : ℕ
  pub expires_at : ℕ
  pub consumed_at : Option ℕ

abbrev pub has_state : String → Session → Bool
has_state hash s = str_eq s.state_hash hash

abbrev pub conflicts : Session → Session → Bool
conflicts new s = str_eq s.session_id new.session_id || has_state new.state_hash s

-- `create`; state_hash is unique, and `none` is the error of the database.
unfoldable pub create : Session → List Session → Option (List Session)
create new sessions = elim (find_where (conflicts new) sessions) [
  | some _ ↦ none
  | none ↦ some (sessions ++ new ∷ [])
]

abbrev pub is_active : ℕ → String → String → Session → Bool
is_active now id hash s =
    str_eq s.application_id id
    && (has_state hash s && (ltb now s.expires_at && is_none s.consumed_at))

-- `getActive`
unfoldable pub get_active : ℕ → String → String → List Session → Option Session
get_active now id hash sessions = find_where (is_active now id hash) sessions

abbrev pub is_open : String → Session → Bool
is_open session_id s = str_eq s.session_id session_id && is_none s.consumed_at

abbrev pub set_consumed : ℕ → Session → Session
set_consumed now s = record s { consumed_at = some now }

unfoldable pub consume : ℕ → String → List Session → List Session
consume now session_id sessions = update_where (is_open session_id) (set_consumed now) sessions

abbrev pub is_over : ℕ → Session → Bool
is_over now s = ltb s.expires_at now || not (is_none s.consumed_at)

-- `deleteExpiredSessions`
unfoldable pub delete_expired_sessions : ℕ → ℕ → List Session → List Session × ℕ
delete_expired_sessions now limit sessions =
    (delete_first limit (is_over now) sessions, min limit (count_where (is_over now) sessions))

-- A statement of another request that changes the sessions.
pub data SessionStatement : Type 0 where
  opens : Session → SessionStatement
  consumes : ℕ → String → SessionStatement
  deletes_expired : ℕ → ℕ → SessionStatement

-- An insertion that breaks the index changes nothing.
unfoldable pub perform_session : SessionStatement → List Session → List Session
perform_session (opens s) sessions = or_else (create s sessions) sessions
perform_session (consumes now session_id) sessions = consume now session_id sessions
perform_session (deletes_expired now limit) sessions =
    (delete_expired_sessions now limit sessions).0

unfoldable pub perform_sessions : List SessionStatement → List Session → List Session
perform_sessions [] sessions = sessions
perform_sessions (x ∷ xs) sessions = perform_sessions xs (perform_session x sessions)

pub data CallbackError : Type 0 where
  session_invalid application_missing worker_non_retryable worker_retryable : CallbackError

abbrev pub is_usable : Response → Bool
is_usable response =
    not (is_none (truthy (some response.access_token))) && not (response.expires_at == 0)

abbrev pub is_refusal : ℕ → Bool
is_refusal status = leb 400 status && ltb status 500

-- How `invokeTokenWorker` reads the worker's response.
unfoldable pub read_response : Result Response → Option CallbackError
read_response (ok response) = if is_usable response then none else some worker_retryable
read_response (err error) =
    if is_refusal (status_of error) then some worker_non_retryable else some worker_retryable

module _ (e : Surroundings) (now now' : ℕ) (id hash code : String)
    (others : List SessionStatement) where
  abbrev pub after_exchange :
      Session
      → World × Result Response
      → List Session
      → (World × List Session) × Option CallbackError
  after_exchange s (w, answer) sessions = elim (read_response answer) [
    | some error ↦ ((w, sessions), some error)
    | none ↦ ((w, consume now' s.session_id (perform_sessions others sessions)), none)
  ]

  abbrev pub with_session :
      World → List Session → Session → (World × List Session) × Option CallbackError
  with_session w sessions s = elim (get_application id w.applications) [
    | none ↦ ((w, sessions), some application_missing)
    | some app ↦
        after_exchange s
          (exchange_code e
            (record {
              application_id = some id;
              redirect_uri = some s.redirect_uri;
              code = some code;
              code_verifier = some s.code_verifier;
            })
            w)
          sessions
  ]

  -- `completeCallback`; `none` is success.
  unfoldable pub complete_callback :
      World → List Session → (World × List Session) × Option CallbackError
  complete_callback w sessions = elim (get_active now id hash sessions) [
    | none ↦ ((w, sessions), some session_invalid)
    | some s ↦ with_session w sessions s
  ]
