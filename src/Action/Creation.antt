-- ===== src/Action/Creation.antt =====
-- packages/backend-services/src/action/ActionCreationService.ts: the actions that are made of the
-- proposals of a summary. The test for a date, the hash, the encryption, the random values and
-- `encodeURIComponent` are parameters. A field that is `undefined` is `none`, and a title or description
-- that a proposal lacks is the empty text.
pub mod Urls
pub mod Proposals
pub mod Run
pub mod Origin
pub mod Laws
pub mod Created
use mail_otter.Base.{
  ℕ, suc, ◌+◌, ◌*◌, String, List, [], ◌∷◌, ◌++◌, Bool, true, false, not, ◌&&◌, ◌||◌, Option, none,
  some, if◌then◌else◌, take, codes, is_none,
}
use mail_otter.Action.{
  ActionType, calendar_add_event, email_draft_reply, external_open_link, manual_todo,
  delivery_track_package, travel_track_flight, finance_pay_bill, appointment_confirm, RiskLevel,
  low, medium, ProviderId, Sealed, Text,
}
use mail_otter.Action.Store.{Tables, CreateEmailActionInput, create, delete_by_processed_message_id}
use mail_otter.Action.Store.Statements.{Statement, perform_all}
use mail_otter.Action.Creation.Urls.{
  clean_text, clean_optional_text, non_empty_or, non_empty, or_empty, strip_end, is_slash,
  extract_urls, find_allowed_url,
}
use mail_otter.Sender.{trim}

pub record BasePayload : Type 0 where
  pub title : Text
  pub description : Text
  pub source_subject : Text
  pub source_from : Text

-- `EmailActionPayload`
pub data Payload : Type 0 where
  calendar :
      (event_title start_time end_time time_zone : Text) → (location notes : Option Text) → Payload
  draft : (draft_subject : Option Text) → (draft_body : Text) → Payload
  link : (url : Text) → Payload
  todo : (instructions : Text) → Payload
  parcel : (tracking_number : Text) → (carrier tracking_url : Option Text) → Payload
  flight :
      (flight_number : Text)
      → (airline departure_airport arrival_airport departure_time tracking_url : Option Text)
      → Payload
  bill : (payee amount currency due_date invoice_number payment_url : Option Text) → Payload
  appointment :
      (service_type provider_name appointment_time location confirmation_number notes : Option Text)
      → Payload

-- `EmailActionProposal`, as a model writes it: the type may be none of those known, and a parameter
-- is read as a text or not at all.
pub record Proposal : Type 0 where
  pub type : Option ActionType
  pub title : Text
  pub description : Text
  pub parameters : String → Option Text

-- `NormalizedActionProposal`
pub record Normalized : Type 0 where
  pub action_type : ActionType
  pub risk_level : RiskLevel
  pub base : BasePayload
  pub payload : Payload
  pub expires_at : ℕ

-- What the service is run with: `CreateActionsForSummaryInput` without the proposals, and of the
-- environment what it reads. `fresh k` is the id and the token of the action made of proposal k.
pub record CreationInput : Type 0 where
  pub application_id : String
  pub user_email : String
  pub provider_id : ProviderId
  pub time_zone : Text
  pub processed_message_id : String
  pub provider_message_id : String
  pub provider_thread_id : Option String
  pub subject : Text
  pub from : Text
  pub body : Text
  pub callback_base_url : Option Text
  pub configured_base_url : Text
  pub add_hours : ℕ → ℕ → ℕ
  pub default_expiry_hours : ℕ
  pub is_finite_date : Text → Bool
  pub fresh : ℕ → String × String
  pub hash_token : String → String → String
  pub seal : BasePayload → Payload → Sealed
  pub encode_uri_component : String → Text
  pub clock : ℕ → ℕ
  pub others : ℕ → List Statement
  pub others_between : ℕ → List Statement
