-- ===== src/TaskRun/Pruning.antt =====
-- Pruning in batches is pruning at once.
use mail_otter.Base.{
  ℕ, zero, suc, ◌+◌, ◌-◌, ◌≤◌, ◌≡◌, refl, ap, ◌∙◌, arith, String, [], ◌∷◌, ◌++◌, Bool, true, false,
  Bool-cases, inl, inr, Option, none, some, leb, min, length, find_where, count_where, update_where,
  delete_where, delete_first,
}
use mail_otter.Action.{Text}
use mail_otter.TaskRun.{
  is_old, RunRow, Runs, CompleteInput, StartInput, has_run_id, started_row, succeeded_row,
  start_run, succeed_run, prune_old_runs, same_id,
}
use mail_otter.TaskRun.Task.{
  compute_unix_cutoff_seconds, prune_loop, prune_in_batches, HandleInput, start_tracking,
  finish_tracking, handle, pruned, prune_task_runs,
}

module _ (p : RunRow → Bool) where
  delete_first-few :
      (n : ℕ) (t : Runs) → leb n (count_where p t) ≡ false → delete_first n p t ≡ delete_where p t
  unfolding delete_first delete_where count_where
  delete_first-few n [] h = refl
  delete_first-few zero (x ∷ t) h = absurd (ground arith)
  delete_first-few (suc n) (x ∷ t) h = elim (Bool-cases (p x)) [
    | inl gone ↦
        rw (gone, delete_first, delete_where) (delete_first-few n t (ground (arith, h, gone)))
    | inr kept ↦
        rw (kept, delete_first, delete_where)
          (ap (◌∷◌ x) (delete_first-few (suc n) t (ground (arith, h, kept))))
  ]

  delete_where-delete_first :
      (n : ℕ) (t : Runs) → delete_where p (delete_first n p t) ≡ delete_where p t
  unfolding delete_first delete_where
  delete_where-delete_first n [] = refl
  delete_where-delete_first zero (x ∷ t) = refl
  delete_where-delete_first (suc n) (x ∷ t) =
      ground (arith, delete_where-delete_first n t, delete_where-delete_first (suc n) t)

  count-delete_first : (n : ℕ) (t : Runs) → count_where p (delete_first n p t) ≡ count_where p t - n
  unfolding delete_first count_where
  count-delete_first n [] = omega arith
  count-delete_first zero (x ∷ t) = omega arith
  count-delete_first (suc n) (x ∷ t) =
      ground (arith, count-delete_first n t, count-delete_first (suc n) t)

  count_where-le-length : (t : Runs) → count_where p t ≤ length t
  unfolding count_where
  count_where-le-length [] = omega arith
  count_where-le-length (x ∷ t) = ground (arith, count_where-le-length t)

prune_loop-all :
    (cutoff batch_size fuel total : ℕ) (t : Runs)
    → 1 ≤ batch_size
    → suc (count_where (is_old cutoff) t) ≤ fuel
    → prune_loop (prune_old_runs cutoff) batch_size fuel total t
      ≡ some (delete_where (is_old cutoff) t, total + count_where (is_old cutoff) t)
unfolding prune_loop prune_old_runs
prune_loop-all cutoff batch_size zero total t one enough = absurd (omega arith)
prune_loop-all cutoff batch_size (suc fuel) total t one enough =
    let old = is_old cutoff in
    let count = count_where old t in
    let deleted = min batch_size count in
    let t' = delete_first batch_size old t in
    elim (Bool-cases (leb batch_size deleted)) [
      | inl full ↦
          let left = count-delete_first old batch_size t in
          let was_full : deleted ≡ batch_size = ground arith in
          let enough_count : batch_size ≤ count = ground arith in
          let later =
            prune_loop-all cutoff batch_size fuel (total + deleted) t' one (omega (arith, left)) in
          let same : total + deleted + count_where old t' ≡ total + count = omega (arith, left) in
          rw (full, prune_loop, later, delete_where-delete_first old batch_size t, same) refl
      | inr last ↦
          let few : leb batch_size count ≡ false = ground arith in
          let rest : deleted ≡ count = ground arith in
          rw (last, prune_loop, delete_first-few old batch_size t few, rest) refl
    ]

-- Pruning in batches ends, and does what one deletion without a limit would: the old rows are gone, the
-- others stand as they were, and the total is the number of rows deleted. One batch more than there
-- are old rows is enough, for any size of a batch but zero.
pub prune_in_batches-all :
    (cutoff batch_size fuel : ℕ) (t : Runs)
    → 1 ≤ batch_size
    → suc (count_where (is_old cutoff) t) ≤ fuel
    → prune_in_batches (prune_old_runs cutoff) batch_size fuel t
      ≡ some (delete_where (is_old cutoff) t, count_where (is_old cutoff) t)
unfolding prune_in_batches
prune_in_batches-all cutoff batch_size fuel t one enough =
    let from_zero : 0 + count_where (is_old cutoff) t ≡ count_where (is_old cutoff) t =
      omega arith in
    prune_loop-all cutoff batch_size fuel 0 t one enough
    ∙ ap (λ n. some (delete_where (is_old cutoff) t, n)) from_zero

module _ (id : Text) where
  abbrev mine : RunRow → Bool
  mine = has_run_id id

  find-delete_where-none :
      (q : RunRow → Bool) (t : Runs)
      → find_where mine t ≡ none
      → find_where mine (delete_where q t) ≡ none
  unfolding find_where delete_where
  find-delete_where-none q [] h = refl
  find-delete_where-none q (x ∷ t) h = ground (arith, find-delete_where-none q t)

  update-append_own :
      (f : RunRow → RunRow) (t : Runs) (row : RunRow)
      → find_where mine t ≡ none
      → mine row ≡ true
      → update_where mine f (t ++ row ∷ []) ≡ t ++ f row ∷ []
  unfolding find_where update_where
  update-append_own f [] row h own = rw own refl
  update-append_own f (x ∷ t) row h own = ground (arith, update-append_own f t row)

delete-append_kept :
    (q : RunRow → Bool) (t : Runs) (row : RunRow)
    → q row ≡ false
    → (delete_where q (t ++ row ∷ []) ≡ delete_where q t ++ row ∷ [])
      × (count_where q (t ++ row ∷ []) ≡ count_where q t)
unfolding delete_where count_where
delete-append_kept q [] row h = (rw h refl, rw h refl)
delete-append_kept q (x ∷ t) row h =
    let (deleted, counted) = delete-append_kept q t row h in
    (ground (arith, deleted), ground (arith, counted))

same_id_refl : (id : Text) → same_id id id ≡ true
same_id_refl [] = refl
same_id_refl (c ∷ cs) = ground (arith, same_id_refl cs)

-- The task that prunes the records of runs, as it is handled when its records can be written and no other
-- worker interferes: every record that began before the cutoff is gone, every other one stands as it
-- was, and one was added for the run itself, as a success with the number of deleted records. The
-- run's id is new, and it did not begin before the cutoff.
pub handle-prune_task_runs :
    (describe : ℕ → String) (retention_days now_ms started finished : ℕ) (id : Text) (type : String)
    (t : Runs)
    → let cutoff = compute_unix_cutoff_seconds retention_days now_ms in
      let input : StartInput = record { task_type = type; application_id = none } in
      let total = count_where (is_old cutoff) t in
      cutoff ≤ started
      → find_where (has_run_id id) t ≡ none
      → handle
          (record {
            task_type = some type;
            has_database = true;
            fresh_id = id;
            started_at = started;
            finished_at = finished;
            start_throws = false;
            finish_throws = false;
          })
          (prune_task_runs describe retention_days now_ms)
          t
        ≡ delete_where (is_old cutoff) t
          ++ succeeded_row finished
              (record {
                items_processed = total;
                items_failed = 0;
                summary = some (describe total);
                details = none;
              })
              (started_row started id input)
            ∷ []
unfolding handle start_tracking finish_tracking prune_task_runs start_run succeed_run
handle-prune_task_runs describe retention_days now_ms started finished id type t recent new =
    let cutoff = compute_unix_cutoff_seconds retention_days now_ms in
    let old = is_old cutoff in
    let row = started_row started id (record { task_type = type; application_id = none }) in
    let t1 = t ++ row ∷ [] in
    let h : HandleInput = record {
      task_type = some type;
      has_database = true;
      fresh_id = id;
      started_at = started;
      finished_at = finished;
      start_throws = false;
      finish_throws = false;
    } in
    let task = prune_task_runs describe retention_days now_ms in
    let recorded : start_tracking h t ≡ (some id, t1) = rw new refl in
    let (deleted, counted) = delete-append_kept old t row (ground (arith, recent)) in
    let drained =
      prune_in_batches-all cutoff 500 (suc (length t1)) t1 (omega arith)
        (omega (arith, count_where-le-length old t1)) in
    let result : CompleteInput = record {
      items_processed = count_where old t;
      items_failed = 0;
      summary = some (describe (count_where old t));
      details = none;
    } in
    ap (λ (s : Option Text × Runs). finish_tracking h s.0 (task s.1)) recorded
    ∙ ap (λ o. finish_tracking h (some id) (pruned describe t1 o)) drained
    ∙ rw (deleted, counted)
        (update-append_own id (succeeded_row finished result) (delete_where old t) row
          (find-delete_where-none id old t new) (same_id_refl id))
