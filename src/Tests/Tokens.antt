-- ===== src/Tests/Tokens.antt =====
-- Runs of the operations on tokens.
use mail_otter.Base.{
  List, count_where, ◌⊎◌, ◌≤◌, ◌≡◌, arith, refl, String, str_eq, str_eq_refl, [], ◌∷◌, none, some,
  true, find_where, codes,
}
use mail_otter.UserScope.{truthy}
use mail_otter.Action.{ProviderId}
use mail_otter.Token.{
  Application, ConnectionMethod, ApplicationStatus, get_application, mark_connected,
  record_refresh_started,
}
use mail_otter.Token.Cache.{get_cached_access_token}
use mail_otter.Token.Worker.{
  TokenError, Result, Response, Surroundings, World, RefreshRequest, ExchangeRequest, TokenResult,
  refresh_access_token, exchange_code, refreshable, get_expires_in_seconds, read_positive_number,
  required, required_texts, refresh_now, refresh_application, after_refresh, failing, starting,
  exchange_application, after_exchange, after_profile, get_provider_email, connect,
  store_successful_token,
}
use mail_otter.Token.Laws.{
  Status, IsRefreshed, IsRefused, NotBegun, refresh_access_token_stores,
  refresh_access_token-IsRefused,
}
use mail_otter.Token.Exclusive.{Event, idle, occur_all}
use mail_otter.Token.Exclusive.Laws.{AllSettled, runs, run_exclusive_one}
use mail_otter.Token.Exclusive.Progress.{can_go_on, run_exclusive_goes_on}
use mail_otter.Token.Connected.{IsConnected, exchange_code-IsConnected}

-- A cipher that only marks its texts.
abbrev pub veil : String → String × String
veil text = (text, "iv")

abbrev pub unveil : String → String → String
unveil text iv = text

abbrev pub grant : TokenResult
grant = record { access_token = "t"; refresh_token = none; expires_in = some 3600 }

abbrev pub mailbox : Application
mailbox = record {
  application_id = "app";
  user_email = "ann@x.org";
  provider_id = ProviderId.fastmail_jmap;
  provider_email = none;
  connection_method = ConnectionMethod.oauth2;
  status = ApplicationStatus.connected;
  credentials = record { client_id = "c"; client_secret = "s"; refresh_token = some "r" };
  updated_at = 10;
}

abbrev pub provider : Result TokenResult → Surroundings
provider answer = record {
  clock = λ k. 100;
  encrypt = veil;
  decrypt = unveil;
  min_valid_seconds = 60;
  fallback_ttl_seconds = 3000;
  refresh = λ id credentials. answer;
  exchange = λ id credentials uri code verifier. answer;
  profile_email = λ id token. Result.ok "ann@x.org";
  store_error = none;
  seen = λ kv. kv;
  foreign_key_error = codes "FOREIGN KEY constraint failed";
}

abbrev pub world : World
world = record { cache = []; statuses = []; applications = mailbox ∷ [] }

abbrev forced : RefreshRequest
forced = record { application_id = some "app"; force_refresh = true; min_valid_seconds = none }

abbrev refusal : TokenError
refusal = TokenError.provider_non_retryable (codes "invalid_grant")

app_named : truthy (some "app") ≡ some "app"
unfolding str_eq
app_named = refl

mailbox_found : get_application "app" (mailbox ∷ []) ≡ some mailbox
unfolding get_application find_where
mailbox_found = rw (str_eq_refl "app") refl

refresh_access_token_stores_example :
    let (w', answer) = refresh_access_token (provider (Result.ok grant)) forced world in
    (answer ≡ Result.ok (record { access_token = "t"; expires_at = 3700; provider_email = none }))
    × Status "app" (IsRefreshed 3700) w'.statuses
    × ((get_cached_access_token veil unveil 150 60 "app" w'.cache w'.cache).1
        ≡ some (record { access_token = "t"; expires_at = 3700 }))
unfolding refreshable get_expires_in_seconds read_positive_number
refresh_access_token_stores_example =
    refresh_access_token_stores (provider (Result.ok grant)) "app" refl forced world mailbox grant
      app_named refl mailbox_found refl refl 150 60 (λ text. refl) (omega arith) (omega arith)

refused_run :
    (refresh_access_token (provider (Result.err refusal)) forced world).1 ≡ Result.err refusal
unfolding str_eq refresh_access_token required refresh_now starting record_refresh_started
    refresh_application refreshable get_application find_where after_refresh failing
refused_run = refl

refresh_access_token-IsRefused_example :
    let (w', _) = refresh_access_token (provider (Result.err refusal)) forced world in
    Status "app" (IsRefused (codes "invalid_grant")) w'.statuses
    ⊎ NotBegun (provider (Result.err refusal)) "app" refl world w' refusal
refresh_access_token-IsRefused_example =
    refresh_access_token-IsRefused (provider (Result.err refusal)) "app" refl forced world refusal
      app_named refused_run

abbrev callback : ExchangeRequest
callback = record {
  application_id = some "app";
  redirect_uri = some "u";
  code = some "k";
  code_verifier = some "v";
}

abbrev connected_response : Response
connected_response = record {
  access_token = "t";
  expires_at = 3700;
  provider_email = some "ann@x.org";
}

callback_texts : required_texts callback ≡ Result.ok ("app", "u", "k", "v")
unfolding str_eq required_texts required
callback_texts = refl

connected_run :
    (exchange_code (provider (Result.ok grant)) callback world).1 ≡ Result.ok connected_response
unfolding str_eq required_texts required exchange_code starting record_refresh_started
    exchange_application get_application find_where after_exchange after_profile get_provider_email
    connect mark_connected store_successful_token get_expires_in_seconds read_positive_number
connected_run = refl

exchange_code-IsConnected_example :
    IsConnected "app" (exchange_code (provider (Result.ok grant)) callback world).0.applications
exchange_code-IsConnected_example =
    exchange_code-IsConnected (provider (Result.ok grant)) "app" connected_response callback world
      "u" "k" "v" callback_texts connected_run

-- Three requests, the second of which arrives while the first still runs.
abbrev traffic : List Event
traffic =
    Event.call
    ∷ Event.call
    ∷ Event.begins 1
    ∷ Event.settles 0
    ∷ Event.begins 1
    ∷ Event.finishes 0
    ∷ Event.call
    ∷ []

run_exclusive_one_example : count_where runs (occur_all traffic idle).operations ≤ 1
run_exclusive_one_example = run_exclusive_one traffic

run_exclusive_goes_on_example :
    let os = (occur_all traffic idle).operations in AllSettled os ⊎ (can_go_on os os ≡ true)
run_exclusive_goes_on_example = run_exclusive_goes_on traffic
