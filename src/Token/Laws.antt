-- ===== src/Token/Laws.antt =====
-- What the operations on tokens leave behind.
use mail_otter.Base.{
  ℕ, ◌+◌, ◌<◌, ◌≡◌, ◌⊎◌, arith, refl, sym, ◌∙◌, String, str_eq_refl, List, [], ◌∷◌, ◌++◌, Bool,
  true, Option, none, some, take, find_where, update_where, find-update_where, find_where-holds,
  Option-cases, Bool-cases, inl, inr, is_none,
}
use mail_otter.UserScope.{truthy}
use mail_otter.Action.{Text}
use mail_otter.Token.{
  Application, StatusRow, is_status_of, get_application, upsert, fresh_status, set_started,
  set_refreshed, set_refused, record_refresh_started, record_refresh_success,
  record_refresh_failure,
}
use mail_otter.Token.Cache.{AccessToken, get_cached_access_token, get_cached_access_token-store}
use mail_otter.Token.Worker.{
  TokenError, TokenResult, Result, ok, err, Surroundings, World, Answer, RefreshRequest, message_of,
  required, failing, starting, store_successful_token, rotate, after_refresh, refresh_application,
  refresh_now, refreshable, refresh_access_token, get_expires_in_seconds, answer_cached, look_up,
  read_positive_number,
}

find_where_last :
    {A : Type 0} (p : A → Bool) (xs : List A) (x : A)
    → find_where p xs ≡ none
    → p x ≡ true
    → find_where p (xs ++ x ∷ []) ≡ some x
unfolding find_where
find_where_last p [] x h g = rw g refl
find_where_last p (y ∷ ys) x h g = ground (arith, find_where_last p ys x)

-- The row of the application is there, and satisfies P.
abbrev pub Status : String → (StatusRow → Type 0) → List StatusRow → Type 0
Status id P rows = (row : StatusRow) × (find_where (is_status_of id) rows ≡ some row) × P row

upsert-Status :
    (id : String) (new : StatusRow) (f : StatusRow → StatusRow) (rows : List StatusRow)
    (P : StatusRow → Type 0)
    → is_status_of id new ≡ true
    → ((row : StatusRow) → is_status_of id (f row) ≡ is_status_of id row)
    → P new
    → ((row : StatusRow) → P (f row))
    → Status id P (upsert id new f rows)
unfolding upsert
upsert-Status id new f rows P mine same at_first later =
    elim (Option-cases (find_where (is_status_of id) rows)) [
      | inl missing ↦
          rw (missing, upsert)
            (new, find_where_last (is_status_of id) rows new missing mine, at_first)
      | inr (row, found) ↦
          let hit = find_where-holds (is_status_of id) rows row found in
          let now_found : find_where (is_status_of id) (update_where (is_status_of id) f rows)
              ≡ some (f row) =
            find-update_where (is_status_of id) (is_status_of id) f same rows
            ∙ rw (found, hit) refl in
          rw (found, upsert) (f row, now_found, later row)
    ]

abbrev pub IsRefreshed : ℕ → StatusRow → Type 0
IsRefreshed expires_at row =
    (row.access_token_expires_at ≡ some expires_at) × (row.last_error ≡ none)

abbrev pub IsRefused : Text → StatusRow → Type 0
IsRefused message row = row.last_error ≡ some (take 1024 message)

success-Status :
    (now expires_at : ℕ) (id : String) (rows : List StatusRow)
    → Status id (IsRefreshed expires_at) (record_refresh_success now id expires_at rows)
unfolding record_refresh_success
success-Status now expires_at id rows =
    upsert-Status id (set_refreshed now expires_at (fresh_status now id))
      (set_refreshed now expires_at) rows (IsRefreshed expires_at) (str_eq_refl id) (λ row. refl)
      (refl, refl) (λ row. (refl, refl))

failure-Status :
    (now : ℕ) (id : String) (message : Text) (rows : List StatusRow)
    → Status id (IsRefused message) (record_refresh_failure now id message rows)
unfolding record_refresh_failure
failure-Status now id message rows =
    upsert-Status id (set_refused now message (fresh_status now id)) (set_refused now message) rows
      (IsRefused message) (str_eq_refl id) (λ row. refl) refl (λ row. refl)

-- For an application that is there, the beginning of a run is recorded.
started_known :
    (now : ℕ) (id : String) (apps : List Application) (rows : List StatusRow) (app : Application)
    → get_application id apps ≡ some app
    → (rows' : List StatusRow) × (record_refresh_started now id apps rows ≡ some rows')
unfolding record_refresh_started
started_known now id apps rows app found = (
  upsert id (set_started now (fresh_status now id)) (set_started now) rows,
  elim (Bool-cases (is_none (find_where (is_status_of id) rows))) [
    | inl missing ↦ rw (found, missing) refl
    | inr there ↦ rw (found, there) refl
  ],
)

module _ (e : Surroundings) (id : String) (stores : e.store_error ≡ none) where
  -- An error is recorded as the last one of the application, or the run ended before it began.
  abbrev pub Refused : Answer → Type 0
  Refused answer =
      (error : TokenError)
      → answer.1 ≡ err error
      → Status id (IsRefused (message_of error)) answer.0.statuses

  failing-Refused : (w : World) (error : TokenError) → Refused (failing e id w error)
  unfolding failing
  failing-Refused w error error' h =
      let same : error ≡ error' = cc in
      rw (← same) (failure-Status (e.clock 5) id (message_of error) w.statuses)

  store-Refused :
      (result : TokenResult) (email : Option String) (w : World)
      → Refused (store_successful_token e id result email w)
  unfolding store_successful_token
  store-Refused result email w error h = absurd (ground (arith, stores))

  after_refresh-Refused : (w : World) (r : Result TokenResult) → Refused (after_refresh e id w r)
  unfolding after_refresh
  after_refresh-Refused w (err error) = failing-Refused w error
  after_refresh-Refused w (ok result) =
      store-Refused result none (rotate e id (truthy result.refresh_token) w)

  refresh_application-Refused :
      (w : World) (r : Result Application) → Refused (refresh_application e id w r)
  unfolding refresh_application
  refresh_application-Refused w (err error) = failing-Refused w error
  refresh_application-Refused w (ok app) =
      after_refresh-Refused w (e.refresh app.provider_id app.credentials)

  -- The database refused to record that the run began, since the application is gone.
  abbrev pub NotBegun : World → World → TokenError → Type 0
  NotBegun w w' error =
      (get_application id w.applications ≡ none)
      × (w'.statuses ≡ w.statuses)
      × (error ≡ TokenError.other e.foreign_key_error)

  abbrev pub Recorded : World → Answer → Type 0
  Recorded w answer =
      (error : TokenError)
      → answer.1 ≡ err error
      → Status id (IsRefused (message_of error)) answer.0.statuses ⊎ NotBegun w answer.0 error

  refresh_now-Recorded : (w : World) → Recorded w (refresh_now e id w)
  unfolding refresh_now starting record_refresh_started
  refresh_now-Recorded w error h =
      elim (Option-cases (record_refresh_started (e.clock 1) id w.applications w.statuses)) [
        | inl threw ↦
            let gone : get_application id w.applications ≡ none = ground (arith, threw) in
            let same : TokenError.other e.foreign_key_error ≡ error = ground (arith, threw, h) in
            rw (threw, refresh_now, starting) (inr (gone, refl, sym same))
        | inr (rows, started) ↦
            let w' = record w { statuses = rows } in
            rw (started, refresh_now, starting)
              (inl (
                refresh_application-Refused w' (refreshable (get_application id w'.applications))
                  error (rw (started, refresh_now, starting) at h)))
      ]

  answer_cached-Recorded :
      (w : World) (looked : World × Option AccessToken)
      → looked.0.applications ≡ w.applications
      → looked.0.statuses ≡ w.statuses
      → Recorded w (answer_cached e id looked)
  answer_cached-Recorded w (w', none) apps rows error h = elim (refresh_now-Recorded w' error h) [
    | inl recorded ↦ inl recorded
    | inr (gone, same, e') ↦ inr (rw (← apps) gone, same ∙ rows, e')
  ]
  answer_cached-Recorded w (w', some token) apps rows error h = absurd (ground (arith, h))

  -- A refresh for an application that is named, while the namespace stores and no other request runs:
  -- every error with which it ends, of the application or of the provider, is recorded as the last error
  -- of the application, cut to 1024 units; or else the application is gone, the error is that of the
  -- database, and the rows of the refresh status are as they were.
  pub refresh_access_token-IsRefused :
      (request : RefreshRequest) (w : World) (error : TokenError)
      → truthy request.application_id ≡ some id
      → (refresh_access_token e request w).1 ≡ err error
      → Status id (IsRefused (message_of error)) (refresh_access_token e request w).0.statuses
        ⊎ NotBegun w (refresh_access_token e request w).0 error
  unfolding refresh_access_token required look_up
  refresh_access_token-IsRefused request w error named h = elim (Bool-cases request.force_refresh) [
    | inl forced ↦
        rw (named, refresh_access_token, forced)
          (refresh_now-Recorded w error (rw (named, refresh_access_token, forced) at h))
    | inr unforced ↦
        rw (named, refresh_access_token, unforced)
          (answer_cached-Recorded w
            (look_up e (read_positive_number request.min_valid_seconds e.min_valid_seconds) id w)
            refl refl error (rw (named, refresh_access_token, unforced) at h))
  ]

  module _ (request : RefreshRequest) (w : World) (app : Application) (result : TokenResult)
      (named : truthy request.application_id ≡ some id) (forced : request.force_refresh ≡ true)
      (found : get_application id w.applications ≡ some app)
      (authorized : refreshable (some app) ≡ ok app)
      (refreshed : e.refresh app.provider_id app.credentials ≡ ok result) where
    -- A forced refresh of a named application that is connected by OAuth2, to which the provider
    -- answers with a token, while the namespace stores: the token is returned with its expiry, the
    -- expiry is recorded without an error, and while the token is valid, a read that sees the cache as
    -- it was left finds it.
    pub refresh_access_token_stores :
        (now' min_valid_seconds : ℕ)
        → ((text : String) → e.decrypt (e.encrypt text).0 (e.encrypt text).1 ≡ text)
        → let expires_at = e.clock 2 + get_expires_in_seconds result e.fallback_ttl_seconds in
          e.clock 3 < expires_at
          → now' + min_valid_seconds < expires_at
          → let (w', answer) = refresh_access_token e request w in
            (answer
              ≡ ok (record {
                access_token = result.access_token;
                expires_at = expires_at;
                provider_email = none;
              }))
            × Status id (IsRefreshed expires_at) w'.statuses
            × ((get_cached_access_token e.encrypt e.decrypt now' min_valid_seconds id w'.cache
                  w'.cache).1
                ≡ some (record { access_token = result.access_token; expires_at = expires_at }))
    unfolding refresh_access_token required refresh_now starting refresh_application after_refresh
        store_successful_token
    refresh_access_token_stores now' min_valid_seconds restores fresh valid =
        let (rows, started) = started_known (e.clock 1) id w.applications w.statuses app found in
        rw
          (
            named, refresh_access_token, forced, refresh_now, starting, started, found, authorized,
            refresh_application, refreshed, after_refresh, stores, store_successful_token,
          )
          (
            refl,
            success-Status (e.clock 4) _ id _,
            get_cached_access_token-store e.encrypt e.decrypt restores (e.clock 3) now'
                min_valid_seconds _ id result.access_token _ fresh valid,
          )
