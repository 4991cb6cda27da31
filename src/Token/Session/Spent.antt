-- ===== src/Token/Session/Spent.antt =====
-- The sessions of one state while other requests change the table, and after the session was consumed.
use mail_otter.Base.{
  ℕ, zero, suc, ◌≤◌, ◌≡◌, arith, refl, String, str_eq_refl, str_eq, List, [], ◌∷◌, ◌++◌, true,
  false, Bool, All, none, some, is_none, find_where, count_where, update_where, delete_first,
  count_where-found, find_where-holds, Option-cases, Bool-cases, inl, inr,
}
use mail_otter.Token.{}
use mail_otter.Token.Worker.{}
use mail_otter.Token.Session.{
  Session, has_state, is_active, get_active, is_open, is_over, set_consumed, consume, create,
  conflicts, delete_expired_sessions, SessionStatement, opens, consumes, deletes_expired,
  perform_session, perform_sessions,
}

-- The statement opens no session of the state.
abbrev pub Avoids : String → SessionStatement → Type 0
Avoids hash (opens s) = has_state hash s ≡ false
Avoids hash (consumes now session_id) = Unit
Avoids hash (deletes_expired now limit) = Unit

module _ (P : Session → Type 0) where
  All-update :
      (p : Session → Bool) (f : Session → Session)
      → ((s : Session) → P s → P (f s))
      → (xs : List Session) → All P xs
      → All P (update_where p f xs)
  unfolding update_where
  All-update p f keeps [] h = tt
  All-update p f keeps (x ∷ xs) h = elim (Bool-cases (p x)) [
    | inl hit ↦ rw (hit, update_where) (keeps x h.0, All-update p f keeps xs h.1)
    | inr miss ↦ rw (miss, update_where) (h.0, All-update p f keeps xs h.1)
  ]

  All-delete_first :
      (limit : ℕ) (p : Session → Bool) (xs : List Session)
      → All P xs
      → All P (delete_first limit p xs)
  unfolding delete_first
  All-delete_first limit p [] h = tt
  All-delete_first zero p (x ∷ xs) h = h
  All-delete_first (suc n) p (x ∷ xs) h = elim (Bool-cases (p x)) [
    | inl hit ↦ rw (hit, delete_first) (All-delete_first n p xs h.1)
    | inr miss ↦ rw (miss, delete_first) (h.0, All-delete_first (suc n) p xs h.1)
  ]

  All-append : (xs : List Session) (x : Session) → All P xs → P x → All P (xs ++ x ∷ [])
  All-append [] x h p = (p, tt)
  All-append (y ∷ ys) x h p = (h.0, All-append ys x h.1 p)

  module _ (hash : String) (spares : (s : Session) → has_state hash s ≡ false → P s)
      (keeps : (now : ℕ) (s : Session) → P s → P (set_consumed now s)) where
    perform_session-All :
        (x : SessionStatement) (xs : List Session)
        → Avoids hash x
        → All P xs
        → All P (perform_session x xs)
    unfolding perform_session create consume delete_expired_sessions
    perform_session-All (opens s) xs other h = elim (Option-cases (find_where (conflicts s) xs)) [
      | inl free ↦
          let added : perform_session (opens s) xs ≡ xs ++ s ∷ [] = ground (arith, free) in
          rw added (All-append xs s h (spares s other))
      | inr (y, taken) ↦
          let kept : perform_session (opens s) xs ≡ xs = ground (arith, taken) in rw kept h
    ]
    perform_session-All (consumes now session_id) xs other h =
        All-update (is_open session_id) (set_consumed now) (keeps now) xs h
    perform_session-All (deletes_expired now limit) xs other h =
        All-delete_first limit (is_over now) xs h

    pub perform_sessions-All :
        (ss : List SessionStatement) (xs : List Session)
        → All (Avoids hash) ss
        → All P xs
        → All P (perform_sessions ss xs)
    unfolding perform_sessions
    perform_sessions-All [] xs other h = h
    perform_sessions-All (s ∷ ss) xs other h =
        perform_sessions-All ss (perform_session s xs) other.1 (perform_session-All s xs other.0 h)

module _ (hash : String) where
  -- Every session of the state has this id.
  abbrev pub IsOf : String → Session → Type 0
  IsOf session_id s = has_state hash s ≡ true → str_eq s.session_id session_id ≡ true

  -- A session of the state is consumed.
  abbrev pub IsSpent : Session → Type 0
  IsSpent s = has_state hash s ≡ true → is_none s.consumed_at ≡ false

  none-IsOf :
      (session_id : String) (xs : List Session)
      → count_where (has_state hash) xs ≡ 0
      → All (IsOf session_id) xs
  unfolding count_where
  none-IsOf session_id [] h = tt
  none-IsOf session_id (x ∷ xs) h = elim (Bool-cases (has_state hash x)) [
    | inl mine ↦ absurd (ground (arith, h, mine))
    | inr other ↦ (
      λ mine. absurd (ground (arith, mine, other)),
      none-IsOf session_id xs (ground (arith, h, other)),
    )
  ]

  pub one-IsOf :
      (now : ℕ) (id : String) (xs : List Session) (s : Session)
      → count_where (has_state hash) xs ≤ 1
      → find_where (is_active now id hash) xs ≡ some s
      → All (IsOf s.session_id) xs
  unfolding find_where count_where
  one-IsOf now id [] s one found = cc
  one-IsOf now id (x ∷ xs) s one found = elim (Bool-cases (is_active now id hash x)) [
    | inl here ↦
        let same : x ≡ s = ground (arith, found, here) in
        (
          λ mine. rw (← same) (str_eq_refl x.session_id),
          none-IsOf s.session_id xs (ground (arith, here, one)),
        )
    | inr later ↦
        let found' : find_where (is_active now id hash) xs ≡ some s =
          ground (arith, found, later) in
        let held = find_where-holds (is_active now id hash) xs s found' in
        let mine : has_state hash s ≡ true = ground (arith, held) in
        let some_rows =
          count_where-found (is_active now id hash) (has_state hash) xs s found' mine in
        (
          λ also_mine. absurd (ground (arith, also_mine, one, some_rows)),
          one-IsOf now id xs s (ground (arith, one)) found',
        )
  ]

  pub consume-IsSpent :
      (now : ℕ) (session_id : String) (xs : List Session)
      → All (IsOf session_id) xs
      → All IsSpent (consume now session_id xs)
  unfolding consume update_where
  consume-IsSpent now session_id [] h = tt
  consume-IsSpent now session_id (x ∷ xs) h = elim (Bool-cases (is_open session_id x)) [
    | inl hit ↦ rw (hit, update_where) (λ mine. refl, consume-IsSpent now session_id xs h.1)
    | inr closed ↦
        rw (closed, update_where)
          (
            λ mine. let its = h.0 mine in ground (arith, closed, its),
            consume-IsSpent now session_id xs h.1,
          )
  ]

  pub spent-get_active :
      (now : ℕ) (id : String) (xs : List Session)
      → All IsSpent xs
      → get_active now id hash xs ≡ none
  unfolding get_active find_where
  spent-get_active now id [] h = refl
  spent-get_active now id (x ∷ xs) h = elim (Bool-cases (has_state hash x)) [
    | inl mine ↦ let spent = h.0 mine in ground (arith, mine, spent, spent-get_active now id xs h.1)
    | inr other ↦ ground (arith, other, spent-get_active now id xs h.1)
  ]
