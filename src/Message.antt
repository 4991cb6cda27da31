-- ===== src/Message.antt =====
-- packages/backend-data/src/dao/ProcessedMessageDAO.ts: which provider messages have been taken up, and
-- how far they are. The table is processed_messages; a method that reads the clock takes the reading
-- as `now`.
pub mod Claims
pub mod Once
use mail_otter.Base.{
  ℕ, ◌+◌, ◌-◌, min, String, str_eq, List, [], ◌∷◌, ◌++◌, Bool, true, false, ◌&&◌, ◌||◌, not, Option,
  none, some, if◌then◌else◌, leb, ltb, ◌==◌, is_none, coalesce, any, find_where, count_where,
  update_where, delete_first,
}
use mail_otter.UserScope.{truthy}
use mail_otter.Action.{ProviderId, Text}
use mail_otter.Action.Store.{clip_message}

pub data MessageStatus : Type 0 where
  processing summarized skipped error : MessageStatus

pub MessageStatus-discrete : Discrete MessageStatus
MessageStatus-discrete = hlevel

-- `ProcessedMessageInternal`
pub record MessageRow : Type 0 where
  pub processed_message_id : String
  pub application_id : String
  pub provider_id : ProviderId
  pub provider_message_id : String
  pub provider_thread_id : Option String
  pub fingerprint : Option String
  pub status : MessageStatus
  pub summary_sent_at : Option ℕ
  pub error_message : Option Text
  pub created_at : ℕ
  pub updated_at : ℕ

abbrev pub Table : Type 0
Table = List MessageRow

abbrev pub status_eq : MessageStatus → MessageStatus → Bool
status_eq processing processing = true
status_eq summarized summarized = true
status_eq skipped skipped = true
status_eq error error = true
status_eq _ _ = false

abbrev pub provider_eq : ProviderId → ProviderId → Bool
provider_eq ProviderId.google_gmail ProviderId.google_gmail = true
provider_eq ProviderId.microsoft_outlook ProviderId.microsoft_outlook = true
provider_eq ProviderId.fastmail_jmap ProviderId.fastmail_jmap = true
provider_eq ProviderId.yahoo_mail ProviderId.yahoo_mail = true
provider_eq ProviderId.custom_imap ProviderId.custom_imap = true
provider_eq ProviderId.apple_icloud ProviderId.apple_icloud = true
provider_eq _ _ = false

abbrev pub processing_stale_after_seconds : ℕ
processing_stale_after_seconds = 900

-- The message: an application and the provider's id.
pub record Key : Type 0 where
  pub application_id : String
  pub message_id : String

abbrev pub has_key : Key → MessageRow → Bool
has_key k row =
    str_eq row.application_id k.application_id && str_eq row.provider_message_id k.message_id

-- `column = ?` on two optional texts: false on a null.
abbrev pub same_text : Option String → Option String → Bool
same_text none _ = false
same_text (some s) none = false
same_text (some s) (some t) = str_eq s t

abbrev pub has_fingerprint : String → ProviderId → Option String → MessageRow → Bool
has_fingerprint application_id provider_id fingerprint row =
    str_eq row.application_id application_id
    && (provider_eq row.provider_id provider_id && same_text row.fingerprint fingerprint)

-- The three unique indexes: the primary key, the message, and the fingerprint where it is not null.
abbrev pub conflicts : MessageRow → MessageRow → Bool
conflicts new row =
    str_eq row.processed_message_id new.processed_message_id
    || (has_key
          (record { application_id = new.application_id; message_id = new.provider_message_id }) row
        || has_fingerprint new.application_id new.provider_id new.fingerprint row)

-- `INSERT OR IGNORE`
unfoldable pub insert_or_ignore : MessageRow → Table → Table × ℕ
insert_or_ignore new t = if any (conflicts new) t then (t, 0) else (t ++ new ∷ [], 1)

pub record StartInput : Type 0 where
  pub key : Key
  pub provider_id : ProviderId
  pub provider_thread_id : Option String
  pub fingerprint : Option String
  pub allow_existing_for_retry : Bool

abbrev pub started_row : ℕ → String → StartInput → MessageRow
started_row now id input = record {
  processed_message_id = id;
  application_id = input.key.application_id;
  provider_id = input.provider_id;
  provider_message_id = input.key.message_id;
  provider_thread_id = truthy input.provider_thread_id;
  fingerprint = truthy input.fingerprint;
  status = processing;
  summary_sent_at = none;
  error_message = none;
  created_at = now;
  updated_at = now;
}

-- The condition of the update in `claimRetry`.
abbrev pub is_retriable : ℕ → Key → MessageStatus → MessageRow → Bool
is_retriable now k observed row =
    has_key k row
    && (status_eq row.status observed
        && (not (status_eq row.status processing)
            || leb (row.updated_at + processing_stale_after_seconds) now))

abbrev pub set_retried : ℕ → Option String → Option String → MessageRow → MessageRow
set_retried now thread_id fingerprint row = record row {
  status = processing;
  provider_thread_id = coalesce (truthy thread_id) row.provider_thread_id;
  fingerprint = coalesce (truthy fingerprint) row.fingerprint;
  updated_at = now;
}

-- `claimRetry`
unfoldable pub claim_retry :
    ℕ → Key → MessageStatus → Option String → Option String → Table → Table × ℕ
claim_retry now k observed thread_id fingerprint t = (
  update_where (is_retriable now k observed) (set_retried now thread_id fingerprint) t,
  count_where (is_retriable now k observed) t,
)

abbrev pub set_status : ℕ → MessageStatus → Option Text → Bool → MessageRow → MessageRow
set_status now status message sent row = record row {
  status = status;
  summary_sent_at = if sent then some now else row.summary_sent_at;
  error_message = message;
  updated_at = now;
}

abbrev pub clip_optional : Option Text → Option Text
clip_optional none = none
clip_optional (some message) = clip_message message

-- `updateStatus`
unfoldable pub update_status : ℕ → Key → MessageStatus → Option Text → Bool → Table → Table
unfolding clip_message
update_status now k status message sent t =
    update_where (has_key k) (set_status now status (clip_optional message) sent) t

unfoldable pub mark_summarized : ℕ → Key → Table → Table
unfolding update_status
mark_summarized now k t = update_status now k summarized none true t

unfoldable pub mark_skipped : ℕ → Key → Text → Table → Table
unfolding update_status
mark_skipped now k reason t = update_status now k skipped (some reason) false t

unfoldable pub mark_error : ℕ → Key → Text → Table → Table
unfolding update_status
mark_error now k message t = update_status now k error (some message) false t

unfoldable pub get_by_message_id : Key → Table → Option MessageRow
get_by_message_id k t = find_where (has_key k) t

abbrev pub is_old : ℕ → List MessageStatus → MessageRow → Bool
is_old older_than statuses row =
    ltb row.updated_at older_than && any (status_eq row.status) statuses

-- `deleteOlderThan`
unfoldable pub delete_older_than : ℕ → List MessageStatus → ℕ → Table → Table × ℕ
delete_older_than older_than statuses limit t = (
  delete_first limit (is_old older_than statuses) t,
  min limit (count_where (is_old older_than statuses) t),
)

-- The statements on the table, save the deletion of an application with all its rows.
pub data Statement : Type 0 where
  insert : ℕ → String → StartInput → Statement
  retry : ℕ → Key → MessageStatus → Option String → Option String → Statement
  mark : ℕ → Key → MessageStatus → Option Text → Bool → Statement
  prune : ℕ → List MessageStatus → ℕ → Statement

unfoldable pub perform : Statement → Table → Table × ℕ
perform (insert now id input) t = insert_or_ignore (started_row now id input) t
perform (retry now k observed thread_id fingerprint) t =
    claim_retry now k observed thread_id fingerprint t
perform (mark now k status message sent) t =
    (update_status now k status message sent t, count_where (has_key k) t)
perform (prune older_than statuses limit) t = delete_older_than older_than statuses limit t

unfoldable pub perform_all : List Statement → Table → Table
perform_all [] t = t
perform_all (s ∷ ss) t = perform_all ss (perform s t).0

abbrev pub can_retry : MessageStatus → Bool
can_retry processing = true
can_retry error = true
can_retry _ = false

-- What `tryStart` finds of another message with the same fingerprint.
abbrev pub is_other_message : Key → Option MessageRow → Bool
is_other_message k none = false
is_other_message k (some row) = not (str_eq row.provider_message_id k.message_id)

module _ (clock : ℕ → ℕ) (others : ℕ → List Statement) (fresh_id : String)
    (input : StartInput) where
  -- The end of `tryStart`, where the row was there already.
  unfoldable pub retry_existing : MessageRow → Table → Table × Bool
  retry_existing existing t =
      let t' = perform_all (others 2) t in
      let other =
        find_where (has_fingerprint input.key.application_id input.provider_id input.fingerprint)
          t' in
      if not (is_none (truthy input.fingerprint)) && is_other_message input.key other
      then (t', false)
      else let (t'', changes) =
          claim_retry (clock 1) input.key existing.status input.provider_thread_id input.fingerprint
            (perform_all (others 3) t') in
        (t'', not (changes == 0))

  unfoldable pub try_existing : Table → Table × Bool
  try_existing t = elim (get_by_message_id input.key t) [
    | none ↦ (t, false)
    | some existing ↦ if can_retry existing.status then retry_existing existing t else (t, false)
  ]

  -- `tryStart`; the statements `others k` of other workers run before its access number k.
  unfoldable pub try_start : Table → Table × Bool
  try_start t =
      let (t', changes) =
        insert_or_ignore (started_row (clock 0) fresh_id input) (perform_all (others 0) t) in
      if not (changes == 0)
      then (t', true)
      else if not input.allow_existing_for_retry
      then (t', false)
      else try_existing (perform_all (others 1) t')
