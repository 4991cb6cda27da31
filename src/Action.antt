-- ===== src/Action.antt =====
-- packages/shared/src/model/EmailAction.ts and constants/Providers.ts: the row of an email action, as
-- the table email_summary_actions holds it, and the row of an attempt to execute one.

pub mod Store
pub mod Execution
pub mod Scheduling
pub mod Listing
pub mod Creation
use mail_otter.Base.{ℕ, String, List, Option, Bool, true, false}

pub data ProviderId : Type 0 where
  google_gmail microsoft_outlook fastmail_jmap yahoo_mail custom_imap apple_icloud : ProviderId

pub data ActionType : Type 0 where
  calendar_add_event email_draft_reply external_open_link manual_todo : ActionType
  delivery_track_package travel_track_flight finance_pay_bill appointment_confirm : ActionType

pub data ActionStatus : Type 0 where
  pending executing succeeded failed expired cancelled : ActionStatus

pub data RiskLevel : Type 0 where
  low medium high : RiskLevel

pub data Trigger : Type 0 where
  email_callback web_ui system_expiry auto_execute scheduled : Trigger

-- A text whose length the code counts, as its UTF-16 code units.
abbrev pub Text : Type 0
Text = List ℕ

-- A text encrypted with a salt: the three columns that hold it.
pub record Sealed : Type 0 where
  pub encrypted : String
  pub iv : String
  pub salt : String

-- `EmailActionInternal`, with the columns user_id and sync_updated_at, which only SQL reads. The
-- three columns of an encrypted value are one `Sealed`.
pub record ActionRow : Type 0 where
  pub action_id : String
  pub processed_message_id : String
  pub application_id : String
  pub user_email : String
  pub user_id : Option String
  pub provider_id : ProviderId
  pub provider_message_id : String
  pub provider_thread_id : Option String
  pub action_type : ActionType
  pub status : ActionStatus
  pub risk_level : RiskLevel
  pub token_hash : String
  pub payload : Sealed
  pub result : Option Sealed
  pub error_message : Option Text
  pub sync_status : Option String
  pub sync_updated_at : Option ℕ
  pub snoozed_until : Option ℕ
  pub scheduled_for : Option ℕ
  pub expires_at : ℕ
  pub executed_at : Option ℕ
  pub created_at : ℕ
  pub updated_at : ℕ

-- `EmailActionExecutionInternal`
pub record ExecutionRow : Type 0 where
  pub execution_id : String
  pub action_id : String
  pub attempt : ℕ
  pub triggered_by : Trigger
  pub status : ActionStatus
  pub provider_operation_id : Option String
  pub request_user_agent_hash : Option String
  pub error_message : Option Text
  pub created_at : ℕ
  pub completed_at : Option ℕ

abbrev pub is_pending : ActionStatus → Bool
is_pending pending = true
is_pending _ = false

-- The statuses at which `executeAction` returns at once.
abbrev pub is_finished : ActionStatus → Bool
is_finished succeeded = true
is_finished failed = true
is_finished expired = true
is_finished _ = false
