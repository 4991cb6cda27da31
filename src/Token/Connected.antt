-- ===== src/Token/Connected.antt =====
-- What an exchange of a code leaves of the application.
use mail_otter.Base.{
  ℕ, ◌≡◌, arith, refl, ◌∙◌, String, str_eq, List, true, Option, none, some, find_where,
  update_where, find-update_where, find_where-holds, Option-cases, Bool-cases, inl, inr,
}
use mail_otter.UserScope.{truthy}
use mail_otter.Token.{
  Application, is_connected, is_application, get_application, mark_connected, as_connected,
  record_refresh_started,
}
use mail_otter.Token.Worker.{
  TokenResult, Result, ok, err, Response, Surroundings, World, Answer, ExchangeRequest,
  required_texts, failing, starting, store_successful_token, connect, after_profile, after_exchange,
  exchange_application, exchange_code, exchangeable, get_provider_email, either_token,
}

truthy-truthy : (o : Option String) (s : String) → truthy o ≡ some s → truthy (some s) ≡ some s
truthy-truthy none s h = absurd (ground arith)
truthy-truthy (some t) s h = elim (Bool-cases (str_eq t "")) [
  | inl empty ↦ absurd (ground arith)
  | inr full ↦ let same : t ≡ s = ground arith in rw (← same) (rw full refl)
]

-- The application is connected, and holds a refresh token that is not empty.
abbrev pub IsConnected : String → List Application → Type 0
IsConnected id apps =
    (app : Application) × (token : String) × (get_application id apps ≡ some app)
    × (is_connected app.status ≡ true)
    × (app.credentials.refresh_token ≡ some token)
    × (truthy (some token) ≡ some token)

mark_connected-IsConnected :
    (now : ℕ) (id token email : String) (apps apps' : List Application)
    → truthy (some token) ≡ some token
    → mark_connected now id token email apps ≡ some apps'
    → IsConnected id apps'
unfolding mark_connected get_application
mark_connected-IsConnected now id token email apps apps' full h =
    elim (Option-cases (find_where (is_application id) apps)) [
      | inl missing ↦ absurd (ground arith)
      | inr (app, found) ↦
          let f = as_connected now token email in
          let same : update_where (is_application id) f apps ≡ apps' = ground arith in
          let hit = find_where-holds (is_application id) apps app found in
          let now_found : find_where (is_application id) (update_where (is_application id) f apps)
              ≡ some (f app) =
            find-update_where (is_application id) (is_application id) f (λ row. refl) apps
            ∙ rw (found, hit) refl in
          (f app, token, rw (← same) now_found, refl, refl, full)
    ]

module _ (e : Surroundings) (id : String) (response : Response) where
  store-IsConnected :
      (result : TokenResult) (email : Option String) (w : World)
      → IsConnected id w.applications
      → IsConnected id (store_successful_token e id result email w).0.applications
  unfolding store_successful_token
  store-IsConnected result email w held = elim (Option-cases e.store_error) [
    | inl stored ↦ rw (stored, store_successful_token) held
    | inr (error, refused) ↦ rw (refused, store_successful_token) held
  ]

  connect-IsConnected :
      (result : TokenResult) (email : String) (w : World) (token : Option String)
      → (connect e id result email w (truthy token)).1 ≡ ok response
      → IsConnected id (connect e id result email w (truthy token)).0.applications
  unfolding connect failing
  connect-IsConnected result email w token h = elim (Option-cases (truthy token)) [
    | inl absent ↦ absurd (ground (arith, absent, h))
    | inr (text, present) ↦
        elim (Option-cases (mark_connected (e.clock 6) id text email w.applications)) [
          | inl gone ↦ let bad = rw (present, connect, gone) at h in absurd (ground (arith, bad))
          | inr (apps, marked) ↦
              rw (present, connect, marked)
                (store-IsConnected result (some email) (record w { applications = apps })
                  (mark_connected-IsConnected (e.clock 6) id text email w.applications apps
                    (truthy-truthy token text present) marked))
        ]
  ]

  after_profile-IsConnected :
      (app : Application) (result : TokenResult) (w : World) (r : Result String)
      → (after_profile e id app result w r).1 ≡ ok response
      → IsConnected id (after_profile e id app result w r).0.applications
  unfolding after_profile failing
  after_profile-IsConnected app result w (err error) h = absurd (ground arith)
  after_profile-IsConnected app result w (ok email) h =
      connect-IsConnected result email w
        (either_token result.refresh_token app.credentials.refresh_token) h

  after_exchange-IsConnected :
      (app : Application) (w : World) (r : Result TokenResult)
      → (after_exchange e id app w r).1 ≡ ok response
      → IsConnected id (after_exchange e id app w r).0.applications
  unfolding after_exchange failing
  after_exchange-IsConnected app w (err error) h = absurd (ground arith)
  after_exchange-IsConnected app w (ok result) h =
      after_profile-IsConnected app result w (get_provider_email e app result.access_token) h

  exchange_application-IsConnected :
      (redirect_uri code verifier : String) (w : World) (r : Result Application)
      → (exchange_application e id redirect_uri code verifier w r).1 ≡ ok response
      → IsConnected id (exchange_application e id redirect_uri code verifier w r).0.applications
  unfolding exchange_application failing
  exchange_application-IsConnected redirect_uri code verifier w (err error) h =
      absurd (ground arith)
  exchange_application-IsConnected redirect_uri code verifier w (ok app) h =
      after_exchange-IsConnected app w
        (e.exchange app.provider_id app.credentials redirect_uri code verifier) h

  starting-IsConnected :
      (w : World) (next : World → Answer)
      → ((w' : World) → (next w').1 ≡ ok response → IsConnected id (next w').0.applications)
      → (starting e id w next).1 ≡ ok response
      → IsConnected id (starting e id w next).0.applications
  unfolding starting
  starting-IsConnected w next connects h =
      elim (Option-cases (record_refresh_started (e.clock 1) id w.applications w.statuses)) [
        | inl threw ↦ absurd (ground (arith, threw, h))
        | inr (rows, started) ↦
            rw (started, starting)
              (connects (record w { statuses = rows }) (rw (started, starting) at h))
      ]

  -- An exchange of a code that answers with a token leaves the application connected, with a refresh
  -- token that is not empty: whether the provider issued one or an earlier one was kept.
  pub exchange_code-IsConnected :
      (request : ExchangeRequest) (w : World) (redirect_uri code verifier : String)
      → required_texts request ≡ ok (id, redirect_uri, code, verifier)
      → (exchange_code e request w).1 ≡ ok response
      → IsConnected id (exchange_code e request w).0.applications
  unfolding exchange_code
  exchange_code-IsConnected request w redirect_uri code verifier named h =
      rw (named, exchange_code)
        (starting-IsConnected w
          (λ w'.
            exchange_application e id redirect_uri code verifier w'
              (exchangeable (get_application id w'.applications)))
          (λ w'.
            exchange_application-IsConnected redirect_uri code verifier w'
              (exchangeable (get_application id w'.applications)))
          (rw (named, exchange_code) at h))
