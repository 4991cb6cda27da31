-- ===== src/Message/Claims.antt =====
-- The statements that take a message up, and rows that are held.
use mail_otter.Base.{
  ℕ, zero, suc, ◌+◌, ◌≤◌, ◌<◌, ◌≡◌, arith, refl, str_eq, str_eq_iff, List, [], ◌∷◌, ◌++◌, Bool,
  true, false, ◌&&◌, ◌||◌, not, if◌then◌else◌, leb, Bool-cases, inl, inr, any, All, count_where,
  update_where, delete_first,
}
use mail_otter.Message.{
  clip_optional, MessageRow, MessageStatus, processing, Table, Key, has_key, started_row, conflicts,
  insert_or_ignore, is_retriable, set_retried, set_status, claim_retry, update_status, is_old,
  Statement, insert, retry, mark, prune, perform, status_eq, delete_older_than,
}

abbrev pub same_key : Key → Key → Bool
same_key j k = str_eq j.application_id k.application_id && str_eq j.message_id k.message_id

-- How many rows the statement takes up for the message.
unfoldable pub takes_of : Key → Statement → Table → ℕ
takes_of k (insert now id input) t =
    if same_key input.key k then (perform (insert now id input) t).1 else 0
takes_of k (retry now j observed thread_id fingerprint) t =
    if same_key j k then (perform (retry now j observed thread_id fingerprint) t).1 else 0
takes_of k _ t = 0

unfoldable pub all_takes : Key → List Statement → Table → ℕ
unfolding takes_of
all_takes k [] t = 0
all_takes k (s ∷ ss) t = takes_of k s t + all_takes k ss (perform s t).0

-- Statements of the fifteen minutes after `since` in which nobody finishes with the message: retries
-- read the clock in that time, marks are of other messages, and pruning spares rows this young.
abbrev pub Quiet : ℕ → Key → Statement → Type 0
Quiet since k (insert _ _ _) = Unit
Quiet since k (retry now _ _ _ _) = now < since + 900
Quiet since k (mark _ j _ _ _) = same_key j k ≡ false
Quiet since k (prune older_than _ _) = older_than ≤ since

-- A row of the message is being processed, and was touched at `since` or later.
abbrev pub is_held : ℕ → Key → MessageRow → Bool
is_held since k row =
    not (has_key k row) || (status_eq row.status processing && leb since row.updated_at)

abbrev pub AllHeld : ℕ → Key → Table → Type 0
AllHeld since k = All (λ row. is_held since k row ≡ true)

pub record IsHeld (since : ℕ) (k : Key) (t : Table) : Type 0 where
  pub rows : AllHeld since k t
  pub present : any (has_key k) t ≡ true

-- Two keys of one row are the same.
same_key_of_row :
    (j k : Key) (row : MessageRow)
    → has_key j row ≡ true
    → has_key k row ≡ true
    → same_key j k ≡ true
same_key_of_row j k row h g = ground (
  arith,
  str_eq_iff row.application_id j.application_id,
  str_eq_iff row.application_id k.application_id,
  str_eq_iff j.application_id k.application_id,
  str_eq_iff row.provider_message_id j.message_id,
  str_eq_iff row.provider_message_id k.message_id,
  str_eq_iff j.message_id k.message_id,
)

module _ (since : ℕ) (k : Key) where
  -- An update that spares the held rows keeps the message held.
  update-IsHeld :
      (p : MessageRow → Bool) (f : MessageRow → MessageRow)
      → ((row : MessageRow) → has_key k (f row) ≡ has_key k row)
      → ((row : MessageRow) → is_held since k row ≡ true → has_key k row ≡ true → p row ≡ false)
      → (t : Table) → AllHeld since k t
      → AllHeld since k (update_where p f t)
        × (any (has_key k) (update_where p f t) ≡ any (has_key k) t)
  unfolding update_where
  update-IsHeld p f same spares [] h = (tt, refl)
  update-IsHeld p f same spares (row ∷ t) (h, hs) =
      let (rows, present) = update-IsHeld p f same spares t hs in
      elim (Bool-cases (p row)) [
        | inl hit ↦
            rw (hit, same row, present) ((ground (arith, spares row h, same row), rows), refl)
        | inr miss ↦ rw (miss, present) ((h, rows), refl)
      ]

  delete-IsHeld :
      (p : MessageRow → Bool)
      → ((row : MessageRow) → is_held since k row ≡ true → has_key k row ≡ true → p row ≡ false)
      → (n : ℕ) (t : Table) → AllHeld since k t
      → AllHeld since k (delete_first n p t)
        × (any (has_key k) (delete_first n p t) ≡ any (has_key k) t)
  unfolding delete_first
  delete-IsHeld p spares n [] h = (tt, refl)
  delete-IsHeld p spares zero (row ∷ t) h = (h, refl)
  delete-IsHeld p spares (suc n) (row ∷ t) (h, hs) = elim (Bool-cases (p row)) [
    | inl hit ↦
        let (rows, present) = delete-IsHeld p spares n t hs in
        rw (hit, delete_first) (rows, ground (arith, spares row h))
    | inr miss ↦
        let (rows, present) = delete-IsHeld p spares (suc n) t hs in
        rw (miss, delete_first) ((h, rows), rw present)
  ]

  pub append-AllHeld :
      (t : Table) (row : MessageRow)
      → AllHeld since k t
      → is_held since k row ≡ true
      → AllHeld since k (t ++ row ∷ [])
  append-AllHeld [] row h g = (g, tt)
  append-AllHeld (x ∷ t) row (h, hs) g = (h, append-AllHeld t row hs g)

  any-append :
      (p : MessageRow → Bool) (t : Table) (row : MessageRow)
      → any p t ≡ true
      → any p (t ++ row ∷ []) ≡ true
  any-append p [] row h = cc
  any-append p (x ∷ t) row h = ground (arith, any-append p t row)

  -- A row of the message stands in the way of another one.
  pub any-conflicts :
      (new : MessageRow) (t : Table)
      → has_key k new ≡ true
      → any (has_key k) t ≡ true
      → any (conflicts new) t ≡ true
  any-conflicts new [] h g = cc
  any-conflicts new (row ∷ t) h g = ground (
    arith,
    any-conflicts new t h,
    str_eq_iff row.application_id k.application_id,
    str_eq_iff new.application_id k.application_id,
    str_eq_iff row.application_id new.application_id,
    str_eq_iff row.provider_message_id k.message_id,
    str_eq_iff new.provider_message_id k.message_id,
    str_eq_iff row.provider_message_id new.provider_message_id,
  )

  insert-IsHeld :
      (new : MessageRow) (t : Table) → IsHeld since k t → IsHeld since k (insert_or_ignore new t).0
  unfolding insert_or_ignore
  insert-IsHeld new t h = elim (Bool-cases (any (conflicts new) t)) [
    | inl blocked ↦ rw blocked h
    | inr free ↦ rw free (record {
      rows = append-AllHeld t new h.rows (ground (arith, any-conflicts new t));
      present = any-append (has_key k) t new h.present;
    })
  ]

  retry_spares :
      (now : ℕ) (j : Key) (observed : MessageStatus) (row : MessageRow)
      → now < since + 900
      → is_held since k row ≡ true
      → has_key k row ≡ true
      → is_retriable now j observed row ≡ false
  retry_spares now j observed row early held mine = ground arith

  Quiet-IsHeld :
      (s : Statement) (t : Table)
      → Quiet since k s
      → IsHeld since k t
      → IsHeld since k (perform s t).0
  unfolding perform claim_retry update_status delete_older_than
  Quiet-IsHeld (insert now id input) t q h = insert-IsHeld (started_row now id input) t h
  Quiet-IsHeld (retry now j observed thread_id fingerprint) t q h =
      let (rows, present) =
        update-IsHeld (is_retriable now j observed) (set_retried now thread_id fingerprint)
          (λ row. refl) (λ row. retry_spares now j observed row q) t h.rows in
      record { rows = rows; present = rw present h.present }
  Quiet-IsHeld (mark now j status message sent) t q h =
      let (rows, present) =
        update-IsHeld (has_key j) (set_status now status (clip_optional message) sent) (λ row. refl)
          (λ row held mine. ground (arith, same_key_of_row j k row)) t h.rows in
      record { rows = rows; present = rw present h.present }
  Quiet-IsHeld (prune older_than statuses limit) t q h =
      let (rows, present) =
        delete-IsHeld (is_old older_than statuses) (λ row held mine. ground arith) limit t h.rows in
      record { rows = rows; present = rw present h.present }

  count-eq-zero :
      (p : MessageRow → Bool)
      → ((row : MessageRow) → is_held since k row ≡ true → p row ≡ false)
      → (t : Table) → AllHeld since k t
      → count_where p t ≡ 0
  unfolding count_where
  count-eq-zero p spares [] h = refl
  count-eq-zero p spares (row ∷ t) (h, hs) =
      ground (arith, spares row h, count-eq-zero p spares t hs)

  -- A key that equals `k` finds the same rows.
  pub has_key_of_same :
      (j : Key) (row : MessageRow)
      → same_key j k ≡ true
      → has_key j row ≡ true
      → has_key k row ≡ true
  has_key_of_same j row h g = ground (
    arith,
    str_eq_iff row.application_id j.application_id,
    str_eq_iff row.application_id k.application_id,
    str_eq_iff j.application_id k.application_id,
    str_eq_iff row.provider_message_id j.message_id,
    str_eq_iff row.provider_message_id k.message_id,
    str_eq_iff j.message_id k.message_id,
  )

  retry_misses :
      (now : ℕ) (j : Key) (observed : MessageStatus) (row : MessageRow)
      → now < since + 900
      → same_key j k ≡ true
      → is_held since k row ≡ true
      → is_retriable now j observed row ≡ false
  retry_misses now j observed row early same held = elim (Bool-cases (has_key j row)) [
    | inl mine ↦
        ground (arith, has_key_of_same j row same mine, retry_spares now j observed row early held)
    | inr other ↦ rw other
  ]

  Quiet-takes :
      (s : Statement) (t : Table) → Quiet since k s → IsHeld since k t → takes_of k s t ≡ 0
  unfolding takes_of perform claim_retry insert_or_ignore
  Quiet-takes (insert now id input) t q h =
      ground (arith, any-conflicts (started_row now id input) t, h.present)
  Quiet-takes (retry now j observed thread_id fingerprint) t q h =
      elim (Bool-cases (same_key j k)) [
        | inl same ↦ rw same (
            count-eq-zero (is_retriable now j observed)
              (λ row. retry_misses now j observed row q same) t h.rows)
        | inr other ↦ rw other
      ]
  Quiet-takes (mark now j status message sent) t q h = refl
  Quiet-takes (prune older_than statuses limit) t q h = refl

  pub All-Quiet_takes :
      (ss : List Statement) (t : Table)
      → All (Quiet since k) ss
      → IsHeld since k t
      → all_takes k ss t ≡ 0
  unfolding all_takes
  All-Quiet_takes [] t q h = refl
  All-Quiet_takes (s ∷ ss) t (q, qs) h =
      omega
        (arith, Quiet-takes s t q h, All-Quiet_takes ss (perform s t).0 qs (Quiet-IsHeld s t q h))
