-- ===== src/Tests/Sessions.antt =====
-- A run of the callback of an authorization.
use mail_otter.Base.{
  false, ◌≡◌, ◌≤◌, ◌⊎◌, arith, refl, str_eq, List, [], ◌∷◌, none, some, find_where, count_where,
}
use mail_otter.Token.{get_application, mark_connected, record_refresh_started}
use mail_otter.Token.Worker.{
  World, Result, exchange_code, required_texts, required, starting, exchange_application,
  after_exchange, after_profile, get_provider_email, connect, store_successful_token,
  get_expires_in_seconds, read_positive_number,
}
use mail_otter.Token.Session.{
  Session, SessionStatement, perform_sessions, has_state, get_active, read_response,
  complete_callback, session_invalid,
}
use mail_otter.Token.Session.Laws.{complete_callback-refused}
use mail_otter.Token.Cache.{store_access_token}
use mail_otter.Token.Service.{FromCache, FromWorker, get_access_token, get_access_token_origin}
use mail_otter.Tests.Tokens.{veil, unveil, provider, grant, world}

abbrev session : Session
session = record {
  session_id = "s1";
  application_id = "app";
  state_hash = "h";
  code_verifier = "v";
  redirect_uri = "u";
  created_at = 100;
  expires_at = 700;
  consumed_at = none;
}

one_session : count_where (has_state "h") (session ∷ []) ≤ 1
unfolding count_where str_eq
one_session = omega arith

abbrev others : List SessionStatement
others = SessionStatement.consumes 200 "s1" ∷ []

abbrev later : List SessionStatement
later = SessionStatement.deletes_expired 800 1 ∷ []

callback_run :
    (complete_callback
      (provider (Result.ok grant))
      200
      201
      "app"
      "h"
      "k"
      others
      world
      (session ∷ [])).1
    ≡ none
unfolding str_eq complete_callback get_active find_where get_application exchange_code
    required_texts required starting record_refresh_started exchange_application after_exchange
    after_profile get_provider_email connect mark_connected store_successful_token
    get_expires_in_seconds read_positive_number read_response
callback_run = refl

complete_callback-refused_example :
    let left =
      perform_sessions later
        (complete_callback
          (provider (Result.ok grant))
          200
          201
          "app"
          "h"
          "k"
          others
          world
          (session ∷ [])).0.1 in
    complete_callback (provider (Result.ok grant)) 202 203 "app" "h" "k" [] world left
    ≡ ((world, left), some session_invalid)
complete_callback-refused_example =
    complete_callback-refused (provider (Result.ok grant)) 200 201 "app" "h" "k" others world
      (session ∷ []) later (provider (Result.ok grant)) 202 203 "app" "k" [] world one_session
      (tt, tt) (tt, tt) callback_run

abbrev warm : World
warm = record world { cache = store_access_token veil unveil 100 "app" "t" 3700 [] }

get_access_token_origin_example :
    let o = get_access_token (provider (Result.ok grant)) "app" 200 false none warm in
    FromCache (provider (Result.ok grant)) "app" 200 none warm o
    ⊎ FromWorker (provider (Result.ok grant)) "app" none warm o
get_access_token_origin_example =
    get_access_token_origin (provider (Result.ok grant)) "app" 200 none warm
