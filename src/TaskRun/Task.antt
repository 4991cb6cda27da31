-- ===== src/TaskRun/Task.antt =====
-- The loop pruneInBatches of packages/backend-data/src/utils/RepositoryHelper.ts, the handling of a
-- task by apps/background/src/scheduled/IScheduledTask.ts, and the task that prunes the records of runs:
-- AbstractPruningTask.ts and BackgroundTaskRunPruningTask.ts of the same folder.
use mail_otter.Base.{
  ℕ, zero, suc, ◌+◌, ◌-◌, ◌*◌, ◌/◌, String, Bool, true, false, Option, none, some, if◌then◌else◌,
  leb, length,
}
use mail_otter.Action.{Text}
use mail_otter.TaskRun.{Runs, CompleteInput, start_run, succeed_run, fail_run, prune_old_runs}

-- `computeUnixCutoffSeconds`, for a clock past the retention
unfoldable pub compute_unix_cutoff_seconds : ℕ → ℕ → ℕ
compute_unix_cutoff_seconds retention_days now_ms = now_ms / 1000 - retention_days * 86400

-- The loop of `pruneInBatches`, for at most `fuel` batches
unfoldable pub prune_loop {ℓ} : {S : Type ℓ} → (ℕ → S → S × ℕ) → ℕ → ℕ → ℕ → S → Option (S × ℕ)
prune_loop delete_batch batch_size zero total s = none
prune_loop delete_batch batch_size (suc fuel) total s =
    let (s', deleted) = delete_batch batch_size s in
    elim (leb batch_size deleted) [
      | true ↦ prune_loop delete_batch batch_size fuel (total + deleted) s'
      | false ↦ some (s', total + deleted)
    ]

unfoldable pub prune_in_batches {ℓ} : {S : Type ℓ} → (ℕ → S → S × ℕ) → ℕ → ℕ → S → Option (S × ℕ)
prune_in_batches delete_batch batch_size fuel s = prune_loop delete_batch batch_size fuel 0 s

-- How a task ends: with a summary or nothing, or with an error, whose cleaned message is recorded.
pub data TaskOutcome : Type 0 where
  done : Option CompleteInput → TaskOutcome
  threw : String → TaskOutcome

abbrev pub nothing_processed : CompleteInput
nothing_processed = record { items_processed = 0; items_failed = 0; summary = none; details = none }

-- What `handle` is run with. A write to the records may throw, which is logged and no more.
pub record HandleInput : Type 0 where
  pub task_type : Option String
  pub has_database : Bool
  pub fresh_id : Text
  pub started_at : ℕ
  pub finished_at : ℕ
  pub start_throws : Bool
  pub finish_throws : Bool

abbrev pub tracked : Text → Runs → Option Runs → Option Text × Runs
tracked id t none = (none, t)
tracked id t (some t') = (some id, t')

unfoldable pub start_tracking : HandleInput → Runs → Option Text × Runs
start_tracking h t = elim h.task_type [
  | none ↦ (none, t)
  | some type ↦
      if h.has_database
      then if h.start_throws
        then (none, t)
        else tracked h.fresh_id t (
            start_run h.started_at h.fresh_id (record { task_type = type; application_id = none })
              t)
      else (none, t)
]

unfoldable pub finish_tracking : HandleInput → Option Text → Runs × TaskOutcome → Runs
finish_tracking h none (t, outcome) = t
finish_tracking h (some id) (t, done none) =
    if h.finish_throws then t else succeed_run h.finished_at id nothing_processed t
finish_tracking h (some id) (t, done (some result)) =
    if h.finish_throws then t else succeed_run h.finished_at id result t
finish_tracking h (some id) (t, threw message) =
    if h.finish_throws then t else fail_run h.finished_at id message nothing_processed t

-- `handle`
unfoldable pub handle : HandleInput → (Runs → Runs × TaskOutcome) → Runs → Runs
handle h task t = let (id, t') = start_tracking h t in finish_tracking h id (task t')

-- The summary of a task that prunes; its text is written by `describe`.
abbrev pub pruned : (ℕ → String) → Runs → Option (Runs × ℕ) → Runs × TaskOutcome
pruned describe t none = (t, threw "out of fuel")
pruned describe t (some (t', total)) = (
  t',
  done (
      some (record {
        items_processed = total;
        items_failed = 0;
        summary = some (describe total);
        details = none;
      })),
)

-- `handleScheduledTask` of the task that prunes the records of runs. More batches than there are
-- rows are not needed.
unfoldable pub prune_task_runs : (ℕ → String) → ℕ → ℕ → Runs → Runs × TaskOutcome
prune_task_runs describe retention_days now_ms t =
    let cutoff = compute_unix_cutoff_seconds retention_days now_ms in
    pruned describe t (prune_in_batches (prune_old_runs cutoff) 500 (suc (length t)) t)
