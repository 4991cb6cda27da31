-- ===== src/Token/Session/Opened.antt =====
-- What `createAuthorization` leaves for the callback that follows it.
use mail_otter.Base.{
  ℕ, ◌<◌, ◌≡◌, arith, refl, String, str_eq, str_eq_refl, str_eq_iff, List, [], ◌∷◌, ◌++◌, Bool,
  true, Option, none, some, find_where, find_where-holds, find_where-In, ◌∈◌, ◌&&◌, Option-cases,
  Bool-cases, inl, inr, if◌then◌else◌,
}
use mail_otter.UserScope.{UserScope, user_scope_sql}
use mail_otter.Action.{ProviderId}
use mail_otter.Token.{Application, is_application}
use mail_otter.Token.Session.{
  Session, create, conflicts, is_active, get_active, SessionStatement, complete_callback,
  with_session,
}
use mail_otter.Token.Worker.{Surroundings, World}
use mail_otter.Token.Session.Creation.{
  Params, set_param, Strategy, get_strategy, AuthorizationInput, Url, url_at,
  build_authorization_url, AuthorizationSources, AuthorizationResult, created,
  get_application_for_user, new_session, redirect_to, input_for, create_for, create_authorization,
}

-- The value that a provider reads under a key.
unfoldable pub get_param : String → Params → Option String
get_param key [] = none
get_param key ((k, v) ∷ params) = if str_eq k key then some v else get_param key params

-- A row that was just appended is the one found, if the test only admits rows that a stricter search
-- missed.
module _ {A : Type 0} (p q : A → Bool) where
  find_where-appended :
      (xs : List A) (x : A)
      → ((y : A) → p y ≡ true → q y ≡ true)
      → find_where q xs ≡ none
      → p x ≡ true
      → find_where p (xs ++ x ∷ []) ≡ some x
  unfolding find_where
  find_where-appended [] x weaker missing h = rw h refl
  find_where-appended (y ∷ ys) x weaker missing h = elim (Bool-cases (p y)) [
    | inl here ↦ absurd (ground (arith, missing, weaker y here))
    | inr later ↦ rw later (find_where-appended ys x weaker (ground (arith, missing)) h)
  ]

some_eq : {A : Type 0} → {x y : A} → some x ≡ some y → x ≡ y
some_eq h = ground (arith, h)

-- The address carries what was asked for, whatever the provider adds.
CarriesInput : AuthorizationInput → Url → Type 0
CarriesInput i url =
    (get_param "state" url.search_params ≡ some i.state)
    × ((get_param "code_challenge" url.search_params ≡ some i.code_challenge)
        × (get_param "redirect_uri" url.search_params ≡ some i.redirect_uri))

-- With any strategy whose own parameters keep off these keys.
url_at-CarriesInput :
    (provider : ProviderId) (i : AuthorizationInput) (config : Strategy)
    → get_strategy provider ≡ some config
    → CarriesInput i (url_at i config)
unfolding get_strategy get_param set_param str_eq CarriesInput
url_at-CarriesInput ProviderId.google_gmail i config h = rw (← some_eq h) (refl, (refl, refl))
url_at-CarriesInput ProviderId.microsoft_outlook i config h = rw (← some_eq h) (refl, (refl, refl))
url_at-CarriesInput ProviderId.fastmail_jmap i config h = rw (← some_eq h) (refl, (refl, refl))
url_at-CarriesInput ProviderId.yahoo_mail i config h = rw (← some_eq h) (refl, (refl, refl))
url_at-CarriesInput ProviderId.custom_imap i config h = absurd (ground (arith, h))
url_at-CarriesInput ProviderId.apple_icloud i config h = absurd (ground (arith, h))

build_authorization_url-CarriesInput :
    (i : AuthorizationInput) (url : Url) → build_authorization_url i ≡ some url → CarriesInput i url
unfolding build_authorization_url
build_authorization_url-CarriesInput i url h = elim (Option-cases (get_strategy i.provider_id)) [
  | inl missing ↦ absurd (ground (arith, missing, h))
  | inr (config, known) ↦
      let same : url_at i config ≡ url = ground (arith, known, h) in
      rw (← same) (url_at-CarriesInput i.provider_id i config known)
]

create-appends :
    (new : Session) (sessions after : List Session)
    → create new sessions ≡ some after
    → after ≡ sessions ++ new ∷ []
unfolding create
create-appends new sessions after h = elim (Option-cases (find_where (conflicts new) sessions)) [
  | inl free ↦ ground (arith, free, h)
  | inr (s, taken) ↦ absurd (ground (arith, taken, h))
]

-- A session that `create` inserts is the one that its state finds until it expires.
create-get_active :
    (now : ℕ) (new : Session) (sessions after : List Session)
    → create new sessions ≡ some after
    → new.consumed_at ≡ none
    → now < new.expires_at
    → get_active now new.application_id new.state_hash after ≡ some new
unfolding create get_active
create-get_active now new sessions after h fresh early =
    elim (Option-cases (find_where (conflicts new) sessions)) [
      | inr (s, taken) ↦ absurd (ground (arith, taken, h))
      | inl missing ↦
          let added : sessions ++ new ∷ [] ≡ after = ground (arith, missing, h) in
          rw (← added) (
            find_where-appended (is_active now new.application_id new.state_hash) (conflicts new)
              sessions new (λ y active. ground (arith, active)) missing
              (ground
                (arith, fresh, early, str_eq_refl new.application_id, str_eq_refl new.state_hash)))
    ]

-- The address of a result carries the state, the challenge of the session's verifier, and the address
-- to which the provider is to come back, which is the session's.
pub Matches : AuthorizationSources → Session → AuthorizationResult → Type 0
Matches q s result =
    (get_param "state" result.authorization_url.search_params ≡ some q.random_state)
    × ((get_param "code_challenge" result.authorization_url.search_params
          ≡ some (q.challenge s.code_verifier))
        × ((get_param "redirect_uri" result.authorization_url.search_params ≡ some s.redirect_uri)
            × (result.redirect_uri ≡ s.redirect_uri)))

module _ (q : AuthorizationSources) where
  -- What a creation that succeeds has inserted and answered.
  create_for_created :
      (app : Application) (features : Option (List String)) (sessions after : List Session)
      (result : AuthorizationResult)
      → create_for q app features sessions ≡ (after, created result)
      → (create (new_session q app) sessions ≡ some after)
        × ((build_authorization_url (input_for q app features) ≡ some result.authorization_url)
            × ((result.redirect_uri ≡ redirect_to q app)
                × (result.expires_at ≡ q.add_minutes q.now q.expiry_minutes)))
  create_for_created app features sessions after result h =
      elim (Option-cases (create (new_session q app) sessions)) [
        | inl taken ↦ absurd (ground (arith, taken, h))
        | inr (rows, inserted) ↦
            elim (Option-cases (build_authorization_url (input_for q app features))) [
              | inl none_built ↦ absurd (ground (arith, inserted, none_built, h))
              | inr (url, built) ↦ (
                ground (arith, inserted, built, h),
                (
                  ground (arith, inserted, built, h),
                  (ground (arith, inserted, built, h), ground (arith, inserted, built, h)),
                ),
              )
            ]
      ]

  create_for-session :
      (app : Application) (features : Option (List String)) (sessions after : List Session)
      (result : AuthorizationResult) (now : ℕ)
      → create_for q app features sessions ≡ (after, created result)
      → now < result.expires_at
      → (get_active now app.application_id (q.hash q.random_state) after ≡ some (new_session q app))
        × Matches q (new_session q app) result
  unfolding new_session Matches CarriesInput
  create_for-session app features sessions after result now h early =
      let (inserted, (built, (uri, until))) =
        create_for_created app features sessions after result h in
      let (state, (challenge, back)) =
        build_authorization_url-CarriesInput (input_for q app features) result.authorization_url
          built in
      (
        create-get_active now (new_session q app) sessions after inserted refl
            (ground (arith, until, early)),
        (state, (challenge, (back, uri))),
      )

  -- A creation of an authorization that succeeds is one for an application with the id that was asked for,
  -- which is in the table and which the predicate of the user's scope admits. It adds one session to the
  -- table, that of this application, which is not consumed. Up to the answered expiry, a callback for this
  -- application with the hash of the state goes on with this session. The address that the user is sent to
  -- carries that state, the challenge of the session's verifier, and the session's redirect address.
  pub create_authorization-complete_callback :
      (user_id : Application → Option String) (features : Application → Option (List String))
      (scope : UserScope) (id : String) (apps : List Application) (sessions after : List Session)
      (result : AuthorizationResult) (e : Surroundings) (now now' : ℕ) (code : String)
      (others : List SessionStatement) (w : World)
      → create_authorization q user_id features scope id apps sessions ≡ (after, created result)
      → now < result.expires_at
      → (app : Application) × (s : Session) × (app ∈ apps)
        × (app.application_id ≡ id)
        × (user_scope_sql scope (user_id app) app.user_email ≡ true)
        × (after ≡ sessions ++ s ∷ [])
        × (s.application_id ≡ id)
        × (s.consumed_at ≡ none)
        × Matches q s result
        × (complete_callback e now now' id (q.hash q.random_state) code others w after
            ≡ with_session e now now' id (q.hash q.random_state) code others w after s)
  unfolding create_authorization get_application_for_user complete_callback new_session create
  create_authorization-complete_callback user_id features scope id apps sessions after result e now
        now' code others w h early =
      let mine : Application → Bool =
        λ app. is_application id app && user_scope_sql scope (user_id app) app.user_email in
      elim (Option-cases (find_where mine apps)) [
        | inl missing ↦ absurd (ground (arith, missing, h))
        | inr (app, known) ↦
            let held = find_where-holds mine apps app known in
            let same : app.application_id ≡ id =
              (str_eq_iff app.application_id id).0 (ground (arith, held)) in
            let run : create_for q app (features app) sessions ≡ (after, created result) =
              ground (arith, known, h) in
            let (inserted, _) = create_for_created app (features app) sessions after result run in
            let (found, matches) =
              create_for-session app (features app) sessions after result now run early in
            let found' : get_active now id (q.hash q.random_state) after
                ≡ some (new_session q app) =
              rw (← same) found in
            (
              app,
              new_session q app,
              find_where-In mine apps app known,
              same,
              ground (arith, held),
              create-appends (new_session q app) sessions after inserted,
              same,
              refl,
              matches,
              rw (complete_callback, found') refl,
            )
      ]
