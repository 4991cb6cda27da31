-- ===== src/Tests/Proposals.antt =====
-- Concrete runs of the creation of actions.
use mail_otter.Base.{
  ap, ◌+◌, ◌*◌, ◌≤◌, ◌≡◌, refl, str_eq, List, [], ◌∷◌, true, none, some, if◌then◌else◌, length,
  codes, All, starts_with_ignoring_case, lower, find_where, delete_where, count_where,
}
use mail_otter.Action.{ProviderId, ActionType, RiskLevel, Text}
use mail_otter.Sender.{trim, trim_start, text_eq, starts_with}
use mail_otter.Action.Store.{
  Tables, create, created_row, delete_by_processed_message_id, keep_actions,
}
use mail_otter.Action.Store.Statements.{perform_all}
use mail_otter.Action.Creation.{CreationInput, Proposal, Normalized, link}
use mail_otter.Action.Creation.Urls.{
  collapse_spaces, clean_text, drop_while, strip_end, begins_url, match_all, add_url, add_matches,
  extract_urls, find_without_slashes, find_allowed_url,
}
use mail_otter.Action.Creation.Proposals.{
  get_string, normalize_link, normalize_as, normalize_proposal, normalized,
}
use mail_otter.Action.Creation.Run.{
  CreatedAction, created_action, create_each, create_actions_for_summary, resolve_callback_base_url,
}
use mail_otter.Action.Creation.Laws.{IsSound, normalize_proposal-IsSound}
use mail_otter.Action.Creation.Created.{FromMessage, create_actions_for_summary-FromMessage}
use mail_otter.Tests.Data.{box, no_others}

abbrev pub message : CreationInput
message = record {
  application_id = "app";
  user_email = "ann@x.org";
  provider_id = ProviderId.google_gmail;
  time_zone = [];
  processed_message_id = "m1";
  provider_message_id = "g1";
  provider_thread_id = none;
  subject = codes "Order";
  from = codes "shop@x.io";
  body = codes "See https://x.io/p/7. HTTP://y <b>";
  callback_base_url = some (codes " https://o.app/ ");
  configured_base_url = [];
  add_hours = λ now hours. now + hours * 3600;
  default_expiry_hours = 72;
  is_finite_date = λ t. true;
  fresh = λ k. ("a1", "t1");
  hash_token = λ id token. "h";
  seal = λ base payload. box;
  encode_uri_component = codes;
  clock = λ k. 1000 + k;
  others = no_others;
  others_between = no_others;
}

abbrev urls : List Text
urls = codes "https://x.io/p/7" ∷ codes "HTTP://y" ∷ []

message_urls : extract_urls message.body ≡ urls
unfolding extract_urls match_all begins_url starts_with_ignoring_case lower add_matches add_url
    strip_end drop_while text_eq
message_urls = refl

abbrev open_link : Text → Proposal
open_link url = record {
  type = some ActionType.external_open_link;
  title = codes "  Open   the order ";
  description = [];
  parameters = λ key. if str_eq key "href" then some url else none;
}

-- An address that differs by a slash at the end is the one of the message; another one is not taken.
link_payload :
    (find_allowed_url (codes " https://x.io/p/7/).") urls) ≡ some (codes "https://x.io/p/7")
unfolding find_allowed_url find_without_slashes trim trim_start strip_end drop_while text_eq
    starts_with
link_payload = refl

other_payload : (find_allowed_url (codes "https://evil.io") urls) ≡ none
unfolding find_allowed_url find_without_slashes trim trim_start strip_end drop_while text_eq
    starts_with
other_payload = refl

abbrev pub proposal : Proposal
proposal = open_link (codes "https://x.io/p/7/")

normalize_proposal-IsSound_example :
    (n : Normalized) × (normalize_proposal message urls 1000 proposal ≡ some n)
    × IsSound urls ActionType.external_open_link n
normalize_proposal-IsSound_example =
    normalize_proposal-IsSound message urls 1000 proposal ActionType.external_open_link refl

abbrev expected : Normalized
expected =
    normalized message urls 1000 proposal ActionType.external_open_link RiskLevel.low
      (link (codes "https://x.io/p/7"))

abbrev created : List CreatedAction
created = created_action message (codes "https://o.app") 0 expected ∷ []

abbrev tables_after : Tables
tables_after = record {
  actions = created_row 1001 (created_action message (codes "https://o.app") 0 expected).row ∷ [];
  executions = [];
}

creates_one :
    create_actions_for_summary message (proposal ∷ []) (record { actions = []; executions = [] })
    ≡ (tables_after, some created)
unfolding create_actions_for_summary resolve_callback_base_url create_each create
    delete_by_processed_message_id keep_actions perform_all normalize_proposal normalize_as
    normalize_link find_allowed_url find_without_slashes get_string trim trim_start strip_end
    drop_while text_eq starts_with extract_urls match_all begins_url starts_with_ignoring_case lower
    add_matches add_url str_eq find_where delete_where count_where clean_text collapse_spaces
creates_one = refl

create_actions_for_summary-FromMessage_example :
    All (FromMessage message) created × (length created ≤ 4)
create_actions_for_summary-FromMessage_example =
    create_actions_for_summary-FromMessage message (proposal ∷ [])
      (record { actions = []; executions = [] }) created (ap (λ r. r.1) creates_one)
