-- ===== src/Tests/Runs.antt =====
-- Concrete runs of the records of background tasks.
use mail_otter.Base.{
  suc, ℕ, ◌≡◌, refl, arith, String, str_eq, List, [], ◌∷◌, ◌++◌, true, false, none, some, codes,
  length, select_where, find_where, count_where, delete_where,
}
use mail_otter.UserScope.{UserScope, user_scope_sql}
use mail_otter.TaskRun.{
  RunRow, RunStatus, Runs, Owner, ListOptions, is_old, is_selected, insert_run, sort_runs,
  prune_old_runs, started_row, succeeded_row,
}
use mail_otter.TaskRun.Order.{Distinct}
use mail_otter.TaskRun.Pages.{follow, whole_list, follow-whole}
use mail_otter.TaskRun.Task.{prune_in_batches, compute_unix_cutoff_seconds, handle, prune_task_runs}
use mail_otter.TaskRun.Pruning.{prune_in_batches-all, handle-prune_task_runs}

abbrev run_at : String → ℕ → RunRow
run_at id at_time = record {
  run_id = codes id;
  task_type = "imap";
  application_id = some "app";
  status = RunStatus.success;
  items_processed = 1;
  items_failed = 0;
  summary = none;
  details = none;
  error_message = none;
  started_at = at_time;
  completed_at = some at_time;
  created_at = at_time;
}

abbrev three : Runs
three = run_at "b" 500 ∷ run_at "c" 900 ∷ run_at "a" 500 ∷ []

three-Distinct : Distinct three
three-Distinct = ((refl, (refl, tt)), ((refl, tt), (tt, tt)))

abbrev ann : UserScope
ann = record { id = none; anchor_email = "ann@x.org" }

abbrev owners : List Owner
owners = record { application_id = "app"; user_id = none; user_email = "ann@x.org" } ∷ []

abbrev one_a_page : ListOptions
one_a_page = record {
  task_type = none;
  application_id = none;
  status = none;
  limit = some 1;
  latest_per_type = false;
}

three_in_order :
    whole_list ann owners one_a_page three ≡ run_at "c" 900 ∷ run_at "b" 500 ∷ run_at "a" 500 ∷ []
unfolding sort_runs insert_run select_where is_selected user_scope_sql find_where str_eq
three_in_order = refl

follow-whole_example :
    follow ann owners one_a_page three (suc (length (whole_list ann owners one_a_page three))) none
    ≡ some (whole_list ann owners one_a_page three)
follow-whole_example = follow-whole ann owners one_a_page three refl three-Distinct

prune_in_batches-all_example :
    prune_in_batches (prune_old_runs 600) 1 3 three
    ≡ some (delete_where (is_old 600) three, count_where (is_old 600) three)
unfolding count_where
prune_in_batches-all_example = prune_in_batches-all 600 1 3 three (omega arith) (omega arith)

abbrev describe : ℕ → String
describe n = "Deleted rows"

handle-prune_task_runs_example :
    handle
      (record {
        task_type = some "prune";
        has_database = true;
        fresh_id = codes "d";
        started_at = 87000;
        finished_at = 87001;
        start_throws = false;
        finish_throws = false;
      })
      (prune_task_runs describe 1 87000000)
      three
    ≡ delete_where (is_old (compute_unix_cutoff_seconds 1 87000000)) three
      ++ succeeded_row 87001
          (record {
            items_processed = count_where (is_old (compute_unix_cutoff_seconds 1 87000000)) three;
            items_failed = 0;
            summary = some "Deleted rows";
            details = none;
          })
          (started_row 87000 (codes "d") (record { task_type = "prune"; application_id = none }))
        ∷ []
unfolding compute_unix_cutoff_seconds find_where
handle-prune_task_runs_example =
    handle-prune_task_runs describe 1 87000000 87000 87001 (codes "d") "prune" three (omega arith)
      refl
