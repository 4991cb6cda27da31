-- ===== src/Tests/Data.antt =====
-- Rows, surroundings and texts for the concrete runs.
use mail_otter.Base.{ℕ, ◌+◌, ◌&&◌, List, [], ◌∷◌, true, none, some, leb, if◌then◌else◌, codes}
use mail_otter.UserScope.{UserScope}
use mail_otter.Action.{
  ProviderId, ActionType, ActionStatus, RiskLevel, Trigger, Text, Sealed, ActionRow,
}
use mail_otter.Action.Store.{Tables}
use mail_otter.Action.Store.Statements.{Statement}
use mail_otter.Action.Execution.{ActionResult, Operation, Surroundings}
use mail_otter.Message.{Key, StartInput, MessageRow, MessageStatus}

-- `toLowerCase` on texts of ASCII
unfoldable pub ascii_lower : Text → Text
ascii_lower [] = []
ascii_lower (c ∷ cs) = (if leb 65 c && leb c 90 then c + 32 else c) ∷ ascii_lower cs

abbrev pub box : Sealed
box = record { encrypted = "e"; iv = "i"; salt = "s" }

-- A reply that waits until 2000, scheduled for 900.
abbrev pub reply : ActionRow
reply = record {
  action_id = "a1";
  processed_message_id = "m1";
  application_id = "app";
  user_email = "ann@x.org";
  user_id = none;
  provider_id = ProviderId.google_gmail;
  provider_message_id = "g1";
  provider_thread_id = none;
  action_type = ActionType.email_draft_reply;
  status = ActionStatus.pending;
  risk_level = RiskLevel.low;
  token_hash = "h1";
  payload = box;
  result = none;
  error_message = none;
  sync_status = none;
  sync_updated_at = none;
  snoozed_until = none;
  scheduled_for = some 900;
  expires_at = 2000;
  executed_at = none;
  created_at = 10;
  updated_at = 10;
}

abbrev pub shop : Tables
shop = record { actions = reply ∷ []; executions = [] }

abbrev pub drafted : ActionResult
drafted = record {
  summary = "Draft created";
  provider_operation_id = some "d7";
  provider_url = none;
  external_url = none;
}

abbrev pub no_others : ℕ → List Statement
no_others k = []

-- Another worker that claims the reply, and one that snoozes it, before each access.
abbrev pub rivals : ℕ → List Statement
rivals k = Statement.snooze (1000 + k) "a1" 1500 1600 ∷ Statement.claim (1000 + k) "a1" ∷ []

-- Surroundings whose clock starts at `now`.
abbrev pub around : ℕ → (ℕ → List Statement) → Surroundings
around now others = record {
  clock = λ k. now + k;
  others = others;
  operate = λ row. Operation.done drafted;
  encrypt = λ r. box;
  execution_id = λ k. "x1";
  constraint_message = codes "constraint";
  user_agent_hash = none;
  triggered_by = Trigger.web_ui;
}

abbrev pub ann : UserScope
ann = record { id = none; anchor_email = "ann@x.org" }

abbrev pub letter : Key
letter = record { application_id = "app"; message_id = "g1" }

abbrev pub letter_input : StartInput
letter_input = record {
  key = letter;
  provider_id = ProviderId.google_gmail;
  provider_thread_id = some "t1";
  fingerprint = some "f1";
  allow_existing_for_retry = true;
}

-- The letter, whose earlier processing failed.
abbrev pub failed_letter : MessageRow
failed_letter = record {
  processed_message_id = "m1";
  application_id = "app";
  provider_id = ProviderId.google_gmail;
  provider_message_id = "g1";
  provider_thread_id = none;
  fingerprint = none;
  status = MessageStatus.error;
  summary_sent_at = none;
  error_message = some (codes "no answer");
  created_at = 10;
  updated_at = 20;
}
