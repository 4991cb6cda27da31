-- ===== src/Token/Session/Laws.antt =====
-- What a callback leaves of the session of its state.
use mail_otter.Base.{
  ℕ, ◌≤◌, ◌≡◌, arith, refl, String, List, All, none, some, count_where, Option-cases, inl, inr,
}
use mail_otter.Token.Session.Spent.{
  Avoids, IsOf, IsSpent, perform_sessions-All, one-IsOf, consume-IsSpent, spent-get_active,
}
use mail_otter.Token.{get_application}
use mail_otter.Token.Worker.{Surroundings, World, Result, Response}
use mail_otter.Token.Session.{
  Session, has_state, get_active, SessionStatement, perform_sessions, session_invalid,
  read_response, complete_callback, with_session, after_exchange,
}

-- A callback that finds no active session of its state is refused, and changes nothing.
refused_callback :
    (e : Surroundings) (now now' : ℕ) (id hash code : String) (others : List SessionStatement)
    (w : World) (sessions : List Session)
    → get_active now id hash sessions ≡ none
    → complete_callback e now now' id hash code others w sessions
      ≡ ((w, sessions), some session_invalid)
unfolding complete_callback
refused_callback e now now' id hash code others w sessions h = rw (complete_callback, h) refl

module _ (e : Surroundings) (now now' : ℕ) (id hash code : String)
    (others : List SessionStatement) where
  success-IsSpent :
      (w : World) (sessions : List Session)
      → count_where (has_state hash) sessions ≤ 1
      → All (Avoids hash) others
      → (complete_callback e now now' id hash code others w sessions).1 ≡ none
      → All (IsSpent hash) (complete_callback e now now' id hash code others w sessions).0.1
  unfolding complete_callback get_active
  success-IsSpent w sessions one other h = elim (Option-cases (get_active now id hash sessions)) [
    | inl missing ↦ absurd (ground (arith, missing, h))
    | inr (s, found) ↦
        rw (found, complete_callback)
          (with_session-IsSpent s found (rw (found, complete_callback) at h))
  ]
    where
      exchanged :
          (s : Session) (answer : World × Result Response)
          → get_active now id hash sessions ≡ some s
          → (after_exchange e now now' id hash code others s answer sessions).1 ≡ none
          → All (IsSpent hash) (after_exchange e now now' id hash code others s answer sessions).0.1
      exchanged s answer found g = elim (Option-cases (read_response answer.1)) [
        | inl accepted ↦
            let its = one-IsOf hash now id sessions s one found in
            let kept =
              perform_sessions-All (IsOf hash s.session_id) hash
                (λ x avoided mine. absurd (ground (arith, avoided, mine))) (λ now x p. p) others
                sessions other its in
            rw (after_exchange, accepted)
              (consume-IsSpent hash now' s.session_id (perform_sessions others sessions) kept)
        | inr (error, refused) ↦ absurd (ground (arith, refused, g))
      ]

      with_session-IsSpent :
          (s : Session)
          → get_active now id hash sessions ≡ some s
          → (with_session e now now' id hash code others w sessions s).1 ≡ none
          → All (IsSpent hash) (with_session e now now' id hash code others w sessions s).0.1
      with_session-IsSpent s found g = elim (Option-cases (get_application id w.applications)) [
        | inl gone ↦ absurd (ground (arith, gone, g))
        | inr (app, known) ↦
            rw (with_session, known) (exchanged s _ found (rw (with_session, known) at g))
      ]

  -- Other requests change the sessions while a callback runs and after it, but open none of its state, of
  -- which the table holds at most one, as its index demands. Then a callback that begins after one with
  -- this state has succeeded, at whatever time and for whatever application, is refused as invalid, and
  -- changes nothing.
  pub complete_callback-refused :
      (w : World) (sessions : List Session) (later : List SessionStatement) (e2 : Surroundings)
      (now2 now2' : ℕ) (id2 code2 : String) (others2 : List SessionStatement) (w2 : World)
      → count_where (has_state hash) sessions ≤ 1
      → All (Avoids hash) others
      → All (Avoids hash) later
      → (complete_callback e now now' id hash code others w sessions).1 ≡ none
      → let left =
          perform_sessions later
            (complete_callback e now now' id hash code others w sessions).0.1 in
        complete_callback e2 now2 now2' id2 hash code2 others2 w2 left
        ≡ ((w2, left), some session_invalid)
  complete_callback-refused w sessions later e2 now2 now2' id2 code2 others2 w2 one other after h =
      let run = complete_callback e now now' id hash code others w sessions in
      let spent = success-IsSpent w sessions one other h in
      let still =
        perform_sessions-All (IsSpent hash) hash
          (λ x avoided mine. absurd (ground (arith, avoided, mine))) (λ now x p mine. refl) later
          run.0.1 after spent in
      refused_callback e2 now2 now2' id2 hash code2 others2 w2 (perform_sessions later run.0.1)
        (spent-get_active hash now2 id2 (perform_sessions later run.0.1) still)
