-- ===== src/Token/Service.antt =====
-- packages/backend-services/src/oauth2/OAuth2AccessTokenService.ts: reading an access token from the cache,
-- or else by a request to the worker of the application. `now` is the clock as the cache is read, which sees the
-- namespace as `seen` gives it.
use mail_otter.Base.{
  ℕ, ◌+◌, ◌<◌, ◌≡◌, ◌⊎◌, ◌∈◌, arith, refl, String, str_eq_iff, Bool, true, false, Option, none,
  some, leb, find_where, find_where-holds, find_where-In, Option-cases, Bool-cases, inl, inr,
}
use mail_otter.Token.Cache.{
  Entry, AccessToken, Namespace, delete, is_alive, get_cached_access_token, read_cached,
}
use mail_otter.Token.Worker.{
  Surroundings, World, Result, Response, RefreshRequest, refreshes, on_request,
}
use mail_otter.Token.Session.{CallbackError, read_response, worker_retryable, worker_non_retryable}

pub data Obtained (A : Type 0) : Type 0 where
  obtained : A → Obtained A
  refused : CallbackError → Obtained A

-- The end of `invokeTokenWorker`.
abbrev pub read_answer : Option (Result Response) → Obtained Response
read_answer none = refused worker_non_retryable
read_answer (some (Result.err error)) = elim (read_response (Result.err error)) [
  | none ↦ refused worker_retryable
  | some problem ↦ refused problem
]
read_answer (some (Result.ok response)) = elim (read_response (Result.ok response)) [
  | none ↦ obtained response
  | some problem ↦ refused problem
]

abbrev pub token_of : Obtained Response → Obtained String
token_of (obtained response) = obtained response.access_token
token_of (refused problem) = refused problem

module _ (e : Surroundings) (id : String) where
  abbrev pub min_valid : Option ℕ → ℕ
  min_valid none = e.min_valid_seconds
  min_valid (some seconds) = seconds

  -- `refreshAccessToken`
  unfoldable pub request_refresh : Bool → Option ℕ → World → World × Obtained Response
  request_refresh force seconds w =
      let request : RefreshRequest = record {
        application_id = some id;
        force_refresh = force;
        min_valid_seconds = some (min_valid seconds);
      } in
      let (w', _, answer) = on_request e (refreshes request) true w in (w', read_answer answer)

  abbrev pub from_worker : Bool → Option ℕ → World → World × Obtained String
  from_worker force seconds w = let (w', o) = request_refresh force seconds w in (w', token_of o)

  abbrev pub after_look_up :
      Option ℕ → World → Namespace × Option AccessToken → World × Obtained String
  after_look_up seconds w (cache, none) = from_worker false seconds (record w { cache = cache })
  after_look_up seconds w (cache, some token) =
      (record w { cache = cache }, obtained token.access_token)

  -- `getAccessToken`
  unfoldable pub get_access_token : ℕ → Bool → Option ℕ → World → World × Obtained String
  get_access_token now true seconds w = from_worker true seconds w
  get_access_token now false seconds w = after_look_up seconds w (
      get_cached_access_token e.encrypt e.decrypt now (min_valid seconds) id (e.seen w.cache)
        w.cache)

  -- The read saw an entry for the application that is valid for more than the seconds asked for, and its
  -- token is the answer; nothing changed.
  abbrev pub FromCache : ℕ → Option ℕ → World → World × Obtained String → Type 0
  FromCache now seconds w o =
      (entry : Entry) × (entry ∈ e.seen w.cache)
      × (entry.key ≡ id)
      × (now < entry.gone_at)
      × (now + min_valid seconds < entry.value.expires_at)
      × (o ≡ (w, obtained (e.decrypt entry.value.encrypted_access_token entry.value.iv)))

  -- The worker was asked, after at most a removal of the application's entries from the cache.
  abbrev pub FromWorker : Option ℕ → World → World × Obtained String → Type 0
  FromWorker seconds w o =
      (cache : Namespace) × ((cache ≡ w.cache) ⊎ (cache ≡ delete id w.cache))
      × (o ≡ from_worker false seconds (record w { cache = cache }))

  -- However old the state of the cache that the read sees: an unforced `getAccessToken` answers the token of
  -- an entry that it saw for the application, valid for more than the seconds asked for, and changes
  -- nothing; or it answers what the worker does, and has done no more than remove the application's
  -- entries from the cache before.
  pub get_access_token_origin :
      (now : ℕ) (seconds : Option ℕ) (w : World)
      → let o = get_access_token now false seconds w in
        FromCache now seconds w o ⊎ FromWorker seconds w o
  unfolding get_access_token get_cached_access_token read_cached
  get_access_token_origin now seconds w =
      let seen = e.seen w.cache in
      let look =
        get_cached_access_token e.encrypt e.decrypt now (min_valid seconds) id seen w.cache in
      elim (Option-cases (find_where (is_alive now id) seen)) [
        | inl missing ↦
            let nothing : look ≡ (w.cache, none) = rw (missing, get_cached_access_token) refl in
            rw nothing (inr (w.cache, inl refl, refl))
        | inr (entry, hit) ↦
            let cached = entry.value in
            elim (Bool-cases (leb cached.expires_at (now + min_valid seconds))) [
              | inl stale ↦
                  let removed : look ≡ (delete id w.cache, none) =
                    rw (hit, get_cached_access_token, stale, read_cached) refl in
                  rw removed (inr (delete id w.cache, inr refl, refl))
              | inr fresh ↦
                  let token : AccessToken = record {
                    access_token = e.decrypt cached.encrypted_access_token cached.iv;
                    expires_at = cached.expires_at;
                  } in
                  let found : look ≡ (w.cache, some token) =
                    rw (hit, get_cached_access_token, fresh, read_cached) refl in
                  let held = find_where-holds (is_alive now id) seen entry hit in
                  rw found (
                    inl (
                      entry,
                      find_where-In (is_alive now id) seen entry hit,
                      (str_eq_iff entry.key id).0 (ground (arith, held)),
                      ground (arith, held),
                      ground (arith, fresh),
                      refl,
                    ))
            ]
      ]
