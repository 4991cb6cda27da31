-- ===== src/Message/Once.antt =====
-- What `tryStart` takes up, and what follows once a message is taken up.
use mail_otter.Base.{
  ℕ, ◌≤◌, ◌≡◌, arith, refl, List, [], ◌∷◌, ◌++◌, Bool, true, false, Bool-cases, inl, inr, any, All,
  count_where, update_where, count_where_mono,
}
use mail_otter.Message.{
  MessageRow, Table, Key, has_key, started_row, conflicts, insert_or_ignore, is_retriable,
  set_retried, claim_retry, Statement, insert, retry, mark, prune, perform,
}
use mail_otter.Message.Claims.{
  same_key, takes_of, all_takes, Quiet, is_held, AllHeld, IsHeld, any-conflicts, append-AllHeld,
  has_key_of_same, All-Quiet_takes,
}

-- The reading of the clock at which the statement takes a message up.
abbrev pub reading_of : Statement → ℕ
reading_of (insert now _ _) = now
reading_of (retry now _ _ _ _) = now
reading_of _ = 0

module _ (since : ℕ) (k : Key) where
  absent-AllHeld : (t : Table) → any (has_key k) t ≡ false → AllHeld since k t
  absent-AllHeld [] h = tt
  absent-AllHeld (row ∷ t) h = (ground arith, absent-AllHeld t (ground arith))

  any-append_last :
      (t : Table) (row : MessageRow) → has_key k row ≡ true → any (has_key k) (t ++ row ∷ []) ≡ true
  any-append_last [] row h = rw h
  any-append_last (x ∷ t) row h = ground (arith, any-append_last t row h)

  inserted-IsHeld :
      (new : MessageRow) (t : Table)
      → has_key k new ≡ true
      → is_held since k new ≡ true
      → any (conflicts new) t ≡ false
      → IsHeld since k (t ++ new ∷ [])
  inserted-IsHeld new t mine held free = record {
    rows =
        append-AllHeld since k t new
          (absent-AllHeld t (ground (arith, any-conflicts since k new t))) held;
    present = any-append_last t new mine;
  }

  module _ (p : MessageRow → Bool) (f : MessageRow → MessageRow)
      (mine : (row : MessageRow) → p row ≡ true → has_key k row ≡ true)
      (same : (row : MessageRow) → has_key k (f row) ≡ has_key k row)
      (held : (row : MessageRow) → is_held since k (f row) ≡ true) where
    -- Where no row has the key, an update by key changes none.
    update_absent :
        (t : Table) → count_where (has_key k) t ≡ 0 → AllHeld since k (update_where p f t)
    unfolding count_where update_where
    update_absent [] h = tt
    update_absent (row ∷ t) h = (ground (arith, mine row), update_absent t (omega arith))

    -- Where one row has the key, and the update finds a row, it is that row.
    update_only :
        (t : Table)
        → count_where (has_key k) t ≤ 1
        → 1 ≤ count_where p t
        → AllHeld since k (update_where p f t) × (any (has_key k) (update_where p f t) ≡ true)
    unfolding count_where update_where
    update_only [] h g = absurd (omega arith)
    update_only (row ∷ t) h g = elim (Bool-cases (p row)) [
      | inl hit ↦ rw hit (
        (held row, update_absent t (ground (arith, mine row))),
        ground (arith, mine row, same row),
      )
      | inr miss ↦
          let fewer = count_where_mono (has_key k) p mine t in
          let (rows, present) = update_only t (ground arith) (ground arith) in
          rw (miss, present) ((ground (arith, fewer), rows), ground arith)
    ]

  taken-IsHeld :
      (s : Statement) (t : Table)
      → reading_of s ≡ since
      → count_where (has_key k) t ≤ 1
      → 1 ≤ takes_of k s t
      → IsHeld since k (perform s t).0
  unfolding perform takes_of insert_or_ignore claim_retry
  taken-IsHeld (insert now id input) t e h g =
      let new = started_row now id input in
      elim (Bool-cases (same_key input.key k)) [
        | inl same ↦ elim (Bool-cases (any (conflicts new) t)) [
          | inl blocked ↦ absurd (ground arith)
          | inr free ↦ rw free (inserted-IsHeld new t same (ground arith) free)
        ]
        | inr other ↦ absurd (ground arith)
      ]
  taken-IsHeld (retry now j observed thread_id fingerprint) t e h g =
      elim (Bool-cases (same_key j k)) [
        | inl same ↦
            let (rows, present) =
              update_only (is_retriable now j observed) (set_retried now thread_id fingerprint)
                (λ row hit. has_key_of_same since k j row same (ground arith)) (λ row. refl)
                (λ row. ground arith) t h (ground arith) in
            record { rows = rows; present = present }
        | inr other ↦ absurd (ground arith)
      ]
  taken-IsHeld (mark now j status message sent) t e h g = absurd (omega arith)
  taken-IsHeld (prune older_than statuses limit) t e h g = absurd (omega arith)

-- The table has at most one row of the message, as its index demands, and a statement takes the
-- message up, by inserting its row or by a retry that claims it. Then for the statements that follow,
-- of any workers, none takes the message up again: as long as retries read the clock less than fifteen
-- minutes later, nobody marks the message as summarized, skipped or failed, and pruning spares the
-- rows touched since.
pub taken_once :
    (k : Key) (s : Statement) (t : Table)
    → count_where (has_key k) t ≤ 1
    → 1 ≤ takes_of k s t
    → (ss : List Statement) → All (Quiet (reading_of s) k) ss
    → all_takes k ss (perform s t).0 ≡ 0
taken_once k s t one taken ss quiet =
    All-Quiet_takes (reading_of s) k ss (perform s t).0 quiet
      (taken-IsHeld (reading_of s) k s t refl one taken)

-- The answer is yes, and the tables are as a statement left them that took the message up.
abbrev pub Took : Key → Table × Bool → Type 0
Took k answer = (s : Statement) × (t : Table) × (1 ≤ takes_of k s t) × (answer.0 ≡ (perform s t).0)
