-- ===== src/TaskRun.antt =====
-- packages/backend-data/src/dao/BackgroundTaskRunDAO.ts: the records of the runs of background tasks. A
-- run's id is the list of its code units, in ASCII; the columns of JSON and the codec of cursors are a
-- library's, so a value of `details` is its text, and a cursor stands as what it encodes.
pub mod Order
pub mod Pages
pub mod Task
pub mod Pruning
use mail_otter.Base.{
  ℕ, zero, suc, ◌+◌, ◌*◌, ◌-◌, min, max, String, str_eq, List, [], ◌∷◌, ◌++◌, Bool, true, false,
  ◌&&◌, ◌||◌, Option, none, some, if◌then◌else◌, ◌==◌, ltb, take, length, or_else, select_where,
  find_where, count_where, update_where, delete_first,
}
use mail_otter.UserScope.{UserScope, user_scope_sql, truthy, column_is}
use mail_otter.Action.{Text}

pub data RunStatus : Type 0 where
  running success partial_success error skipped : RunStatus

-- `BackgroundTaskRunInternal`
pub record RunRow : Type 0 where
  pub run_id : Text
  pub task_type : String
  pub application_id : Option String
  pub status : RunStatus
  pub items_processed : ℕ
  pub items_failed : ℕ
  pub summary : Option String
  pub details : Option String
  pub error_message : Option String
  pub started_at : ℕ
  pub completed_at : Option ℕ
  pub created_at : ℕ

abbrev pub Runs : Type 0
Runs = List RunRow

pub record StartInput : Type 0 where
  pub task_type : String
  pub application_id : Option String

-- `CompleteTaskRunInput`
pub record CompleteInput : Type 0 where
  pub items_processed : ℕ
  pub items_failed : ℕ
  pub summary : Option String
  pub details : Option String

-- The columns of the table connected_applications that the listing joins.
pub record Owner : Type 0 where
  pub application_id : String
  pub user_id : Option String
  pub user_email : String

abbrev pub same_id : Text → Text → Bool
same_id [] [] = true
same_id (c ∷ cs) (d ∷ ds) = c == d && same_id cs ds
same_id _ _ = false

-- SQLite's comparison of texts, code unit by code unit
abbrev pub text_lt : Text → Text → Bool
text_lt _ [] = false
text_lt [] (d ∷ ds) = true
text_lt (c ∷ cs) (d ∷ ds) = ltb c d || (c == d && text_lt cs ds)

abbrev pub has_run_id : Text → RunRow → Bool
has_run_id id row = same_id row.run_id id

abbrev pub started_row : ℕ → Text → StartInput → RunRow
started_row now id input = record {
  run_id = id;
  task_type = input.task_type;
  application_id = input.application_id;
  status = running;
  items_processed = 0;
  items_failed = 0;
  summary = none;
  details = none;
  error_message = none;
  started_at = now;
  completed_at = none;
  created_at = now;
}

-- A row is inserted unless there is one with its id, which throws.
abbrev pub insert_unless : Option RunRow → RunRow → Runs → Option Runs
insert_unless none row t = some (t ++ row ∷ [])
insert_unless (some _) row t = none

-- `startRun`
unfoldable pub start_run : ℕ → Text → StartInput → Runs → Option Runs
start_run now id input t = insert_unless (find_where (has_run_id id) t) (started_row now id input) t

abbrev pub succeeded_row : ℕ → CompleteInput → RunRow → RunRow
succeeded_row now input row = record row {
  status = if ltb 0 input.items_failed then partial_success else success;
  items_processed = input.items_processed;
  items_failed = input.items_failed;
  summary = input.summary;
  details = input.details;
  completed_at = some now;
}

unfoldable pub succeed_run : ℕ → Text → CompleteInput → Runs → Runs
succeed_run now id input = update_where (has_run_id id) (succeeded_row now input)

abbrev pub failed_row : ℕ → String → CompleteInput → RunRow → RunRow
failed_row now message partial row = record row {
  status = error;
  error_message = some message;
  items_processed = partial.items_processed;
  items_failed = partial.items_failed;
  summary = partial.summary;
  details = partial.details;
  completed_at = some now;
}

-- `failRun`, with zeros and nulls for what is not given
unfoldable pub fail_run : ℕ → Text → String → CompleteInput → Runs → Runs
fail_run now id message partial = update_where (has_run_id id) (failed_row now message partial)

unfoldable pub skip_run : ℕ → Text → Option String → Runs → Runs
skip_run now id reason =
    update_where (has_run_id id)
      (λ row. record row { status = skipped; summary = reason; completed_at = some now })

abbrev pub is_old : ℕ → RunRow → Bool
is_old older_than row = ltb row.started_at older_than

-- `pruneOldRuns`, with the number of rows that it deletes
unfoldable pub prune_old_runs : ℕ → ℕ → Runs → Runs × ℕ
prune_old_runs older_than limit t =
    (delete_first limit (is_old older_than) t, min limit (count_where (is_old older_than) t))

pub record Cursor : Type 0 where
  pub started_at : ℕ
  pub run_id : Text

-- `ListTaskRunsOptions`
pub record ListOptions : Type 0 where
  pub task_type : Option String
  pub application_id : Option String
  pub status : Option RunStatus
  pub limit : Option ℕ
  pub latest_per_type : Bool

abbrev pub status_eq : RunStatus → RunStatus → Bool
status_eq running running = true
status_eq success success = true
status_eq partial_success partial_success = true
status_eq error error = true
status_eq skipped skipped = true
status_eq _ _ = false

-- The row of the application, by its primary key, is the user's.
abbrev pub is_visible : UserScope → List Owner → RunRow → Bool
is_visible scope owners row =
    elim (find_where (λ (o : Owner). column_is row.application_id o.application_id) owners) [
      | none ↦ false
      | some o ↦ user_scope_sql scope o.user_id o.user_email
    ]

abbrev pub is_or_any : Option String → Option String → Bool
is_or_any none value = true
is_or_any (some s) value = column_is value s

abbrev pub in_status : Option RunStatus → RunStatus → Bool
in_status none status = true
in_status (some s) status = status_eq status s

unfoldable pub is_selected : UserScope → List Owner → ListOptions → RunRow → Bool
is_selected scope owners options row =
    is_visible scope owners row
    && (is_or_any (truthy options.task_type) (some row.task_type)
        && (is_or_any (truthy options.application_id) row.application_id
            && in_status options.status row.status))

-- `a` comes behind `b` in `ORDER BY started_at DESC, run_id DESC`.
abbrev pub behind : RunRow → RunRow → Bool
behind a b =
    ltb a.started_at b.started_at || (a.started_at == b.started_at && text_lt a.run_id b.run_id)

abbrev pub behind_cursor : Option Cursor → RunRow → Bool
behind_cursor none row = true
behind_cursor (some c) row =
    ltb row.started_at c.started_at
    || (row.started_at == c.started_at && text_lt row.run_id c.run_id)

unfoldable pub insert_run : RunRow → Runs → Runs
insert_run row [] = row ∷ []
insert_run row (x ∷ xs) = if behind row x then x ∷ insert_run row xs else row ∷ x ∷ xs

unfoldable pub sort_runs : Runs → Runs
sort_runs [] = []
sort_runs (x ∷ xs) = insert_run x (sort_runs xs)

abbrev pub page_limit : Option ℕ → ℕ
page_limit limit = min (max (or_else limit 25) 1) 50

abbrev pub cursor_of : Runs → Option Cursor
cursor_of [] = none
cursor_of (x ∷ []) = some (record { started_at = x.started_at; run_id = x.run_id })
cursor_of (x ∷ y ∷ ys) = cursor_of (y ∷ ys)

-- No row of the same type comes before this one: `ROW_NUMBER() = 1` in the partition of its type.
abbrev pub is_latest : Runs → RunRow → Bool
is_latest rows row =
    count_where (λ (r : RunRow). str_eq r.task_type row.task_type && behind row r) rows == 0

abbrev pub asks_latest : ListOptions → Bool
asks_latest options =
    options.latest_per_type && elim (truthy options.task_type) [ none ↦ true | some _ ↦ false ]

-- `listForUser`
unfoldable pub list_for_user :
    UserScope → List Owner → ListOptions → Option Cursor → Runs → Runs × Option Cursor
list_for_user scope owners options cursor t =
    let selected = is_selected scope owners options in
    let limit = page_limit options.limit in
    let matching = select_where selected t in
    let latest = sort_runs (select_where (is_latest matching) matching) in
    let rows =
      take (limit + 1)
        (sort_runs (select_where (λ row. selected row && behind_cursor cursor row) t)) in
    let page = take limit rows in
    if asks_latest options
    then (latest, none)
    else (page, if ltb limit (length rows) then cursor_of page else none)
