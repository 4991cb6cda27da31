-- ===== src/Token/Cache.antt =====
-- packages/backend-data/src/dao/OAuth2AccessTokenCacheDAO.ts: the cache of access tokens in a key-value
-- namespace. An entry that is put with a time to live is gone when that time has passed. The namespace is
-- consistent only in the end: a read is given what it sees of the namespace, which may be an earlier state
-- of it, and the namespace itself. The encryption is a parameter.
use mail_otter.Base.{
  ℕ, ◌+◌, ◌-◌, ◌<◌, max, ◌≡◌, arith, true, Option-cases, inl, inr, String, str_eq, str_eq_refl,
  List, ◌∷◌, Bool, ◌&&◌, Option, none, some, if◌then◌else◌, leb, ltb, find_where, delete_where,
  lt→leb, lt→ltb,
}

pub record Cached : Type 0 where
  pub encrypted_access_token : String
  pub iv : String
  pub expires_at : ℕ

pub record Entry : Type 0 where
  pub key : String
  pub value : Cached
  pub gone_at : ℕ

abbrev pub Namespace : Type 0
Namespace = List Entry

abbrev pub minimum_time_to_live_seconds : ℕ
minimum_time_to_live_seconds = 60

abbrev pub has_key : String → Entry → Bool
has_key key entry = str_eq entry.key key

abbrev pub is_alive : ℕ → String → Entry → Bool
is_alive now key entry = has_key key entry && ltb now entry.gone_at

abbrev pub delete : String → Namespace → Namespace
delete key kv = delete_where (has_key key) kv

abbrev pub put : ℕ → String → Cached → ℕ → Namespace → Namespace
put now key value ttl kv =
    record { key = key; value = value; gone_at = now + ttl } ∷ delete_where (has_key key) kv

-- `OAuth2CachedAccessToken`
pub record AccessToken : Type 0 where
  pub access_token : String
  pub expires_at : ℕ

module _ (encrypt : String → String × String) (decrypt : String → String → String) where
  -- The end of `getCachedAccessToken`, for a value that was found.
  unfoldable pub read_cached : ℕ → ℕ → String → Cached → Namespace → Namespace × Option AccessToken
  read_cached now min_valid_seconds id cached kv =
      if leb cached.expires_at (now + min_valid_seconds) then (delete id kv, none) else (
        kv,
        some (record {
          access_token = decrypt cached.encrypted_access_token cached.iv;
          expires_at = cached.expires_at;
        }),
      )

  unfoldable pub get_cached_access_token :
      ℕ → ℕ → String → Namespace → Namespace → Namespace × Option AccessToken
  get_cached_access_token now min_valid_seconds id seen kv =
      elim (find_where (is_alive now id) seen) [
        | none ↦ (kv, none)
        | some entry ↦ read_cached now min_valid_seconds id entry.value kv
      ]

  unfoldable pub store_access_token : ℕ → String → String → ℕ → Namespace → Namespace
  store_access_token now id token expires_at kv =
      let (encrypted, iv) = encrypt token in
      if leb expires_at now
      then kv
      else put now id
          (record { encrypted_access_token = encrypted; iv = iv; expires_at = expires_at })
          (max (expires_at - now) minimum_time_to_live_seconds) kv

  -- A token that was stored before it expires is found as long as it is valid for the seconds asked
  -- for, by a read that sees the namespace as it was left, where decryption restores what was encrypted.
  pub get_cached_access_token-store :
      ((text : String) → decrypt (encrypt text).0 (encrypt text).1 ≡ text)
      → (now now' min_valid_seconds expires_at : ℕ) (id token : String) (kv : Namespace)
      → now < expires_at
      → now' + min_valid_seconds < expires_at
      → (get_cached_access_token now' min_valid_seconds id
          (store_access_token now id token expires_at kv)
          (store_access_token now id token expires_at kv)).1
        ≡ some (record { access_token = token; expires_at = expires_at })
  unfolding get_cached_access_token store_access_token read_cached find_where
  get_cached_access_token-store restores now now' min_valid_seconds expires_at id token kv fresh
        valid =
      let alive : ltb now' (now + max (expires_at - now) 60) ≡ true =
        lt→ltb now' (now + max (expires_at - now) 60) (omega arith) in
      rw (
        lt→leb now expires_at fresh,
        store_access_token,
        get_cached_access_token,
        str_eq_refl id,
        alive,
        get_cached_access_token,
        lt→leb (now' + min_valid_seconds) expires_at valid,
        restores token,
      )

  -- A token that is no longer valid for the seconds asked for is not answered, whatever the namespace
  -- holds.
  pub get_cached_access_token_valid :
      (now min_valid_seconds : ℕ) (id : String) (seen kv : Namespace) (found : AccessToken)
      → (get_cached_access_token now min_valid_seconds id seen kv).1 ≡ some found
      → now + min_valid_seconds < found.expires_at
  unfolding get_cached_access_token read_cached
  get_cached_access_token_valid now min_valid_seconds id seen kv found h =
      elim (Option-cases (find_where (is_alive now id) seen)) [
        | inl missing ↦ absurd (ground arith)
        | inr (entry, hit) ↦ ground arith
      ]
