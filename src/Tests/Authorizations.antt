-- ===== src/Tests/Authorizations.antt =====
-- A run of the creation of an authorization.
use mail_otter.Base.{
  ◌+◌, ◌*◌, ◌≡◌, arith, refl, true, String, str_eq, List, [], ◌∷◌, ◌∈◌, Option, none, find_where,
}
use mail_otter.UserScope.{scope_for_anchor, user_scope_sql}
use mail_otter.Token.{Application}
use mail_otter.Token.Worker.{Result}
use mail_otter.Token.Session.{Session, create, complete_callback, with_session}
use mail_otter.Token.Session.Creation.{
  AuthorizationSources, AuthorizationResult, created, create_authorization,
  get_application_for_user, new_session, redirect_to, build_authorization_url, get_strategy, url_at,
  input_for,
}
use mail_otter.Token.Session.Opened.{Matches, create_authorization-complete_callback}
use mail_otter.Tests.Tokens.{provider, grant, world, mailbox}

abbrev sources : AuthorizationSources
sources = record {
  random_state = "state";
  random_verifier = "verifier";
  random_id = "s1";
  hash = λ text. text;
  challenge = λ text. text;
  base_url = "https://otter.example";
  now = 100;
  created_at = 101;
  expiry_minutes = 15;
  add_minutes = λ t m. t + 60 * m;
}

abbrev no_id : Application → Option String
no_id app = none

abbrev no_features : Application → Option (List String)
no_features app = none

abbrev opened : AuthorizationResult
opened = record {
  authorization_url = url_at (input_for sources mailbox none) (record {
    authorization_endpoint = "https://api.fastmail.com/oauth/authorize";
    token_endpoint = "https://api.fastmail.com/oauth/token";
    required_scopes =
        "urn:ietf:params:jmap:core urn:ietf:params:jmap:mail urn:ietf:params:jmap:submission";
    extra_auth_params = [];
  });
  redirect_uri = "https://otter.example/api/oauth2/callback/app";
  expires_at = 1000;
}

opening :
    create_authorization sources no_id no_features
      (scope_for_anchor "ann@x.org")
      "app"
      (mailbox ∷ [])
      []
    ≡ (new_session sources mailbox ∷ [], created opened)
unfolding create_authorization get_application_for_user find_where user_scope_sql scope_for_anchor
    str_eq create new_session redirect_to build_authorization_url get_strategy
opening = refl

create_authorization-complete_callback_example :
    let after : List Session = new_session sources mailbox ∷ [] in
    (app : Application) × (s : Session) × (app ∈ (mailbox ∷ []))
    × (app.application_id ≡ "app")
    × (user_scope_sql (scope_for_anchor "ann@x.org") (no_id app) app.user_email ≡ true)
    × (after ≡ s ∷ [])
    × (s.application_id ≡ "app")
    × (s.consumed_at ≡ none)
    × Matches sources s opened
    × (complete_callback (provider (Result.ok grant)) 200 201 "app" "state" "k" [] world after
        ≡ with_session (provider (Result.ok grant)) 200 201 "app" "state" "k" [] world after s)
create_authorization-complete_callback_example =
    create_authorization-complete_callback sources no_id no_features (scope_for_anchor "ann@x.org")
      "app" (mailbox ∷ []) [] (new_session sources mailbox ∷ []) opened (provider (Result.ok grant))
      200 201 "k" [] world opening (omega arith)
