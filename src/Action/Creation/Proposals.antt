-- ===== src/Action/Creation/Proposals.antt =====
-- `normalizeProposal` of packages/backend-services/src/action/ActionCreationService.ts, and its helpers.
use mail_otter.Base.{
  ℕ, String, List, [], ◌∷◌, ◌++◌, Bool, true, false, ◌&&◌, Option, none, some, codes,
}
use mail_otter.Action.{
  ActionType, calendar_add_event, email_draft_reply, external_open_link, manual_todo,
  delivery_track_package, travel_track_flight, finance_pay_bill, appointment_confirm, RiskLevel,
  low, medium, Text,
}
use mail_otter.Action.Creation.Urls.{
  clean_text, clean_optional_text, non_empty_or, non_empty, or_empty, find_allowed_url,
}
use mail_otter.Sender.{trim}
use mail_otter.Action.Creation.{
  Payload, calendar, draft, link, todo, parcel, flight, bill, appointment, Proposal, Normalized,
  CreationInput,
}

unfoldable pub resolve_expires_at : CreationInput → ℕ → ℕ
resolve_expires_at input now = input.add_hours now input.default_expiry_hours

-- `getString`
unfoldable pub get_string : (String → Option Text) → List String → Option Text
get_string parameters [] = none
get_string parameters (key ∷ keys) = elim (non_empty (trim (or_empty (parameters key)))) [
  | some value ↦ some value
  | none ↦ get_string parameters keys
]

-- `isValidIsoDateTime`
unfoldable pub is_valid_iso_date_time : (Text → Bool) → Text → Bool
is_valid_iso_date_time is_finite_date [] = false
is_valid_iso_date_time is_finite_date (c ∷ cs) = is_finite_date (c ∷ cs)

-- `getFallbackActionTitle`
unfoldable pub get_fallback_action_title : Option ActionType → Text
get_fallback_action_title (some calendar_add_event) = codes "Add event to calendar"
get_fallback_action_title (some email_draft_reply) = codes "Draft a reply"
get_fallback_action_title (some external_open_link) = codes "Open related link"
get_fallback_action_title (some delivery_track_package) = codes "Track package"
get_fallback_action_title (some travel_track_flight) = codes "Track flight"
get_fallback_action_title (some finance_pay_bill) = codes "Pay bill"
get_fallback_action_title (some appointment_confirm) = codes "Appointment confirmation"
get_fallback_action_title _ = codes "Review action item"

module _ (input : CreationInput) (allowed_urls : List Text) (now : ℕ) (proposal : Proposal) where
  abbrev pub clean_title : Text
  clean_title = clean_text (non_empty_or proposal.title (get_fallback_action_title proposal.type))

  abbrev pub clean_description : Text
  clean_description = clean_text (non_empty_or proposal.description clean_title)

  abbrev text_of : List String → Text
  text_of keys = or_empty (get_string proposal.parameters keys)

  abbrev optional : List String → Option Text
  optional keys = clean_optional_text (get_string proposal.parameters keys)

  -- `raw ? findAllowedUrl(raw, allowedUrls) : undefined`
  abbrev pub allowed_of : Option Text → Option Text
  allowed_of none = none
  allowed_of (some raw) = find_allowed_url raw allowed_urls

  abbrev pub normalized : ActionType → RiskLevel → Payload → Normalized
  normalized type risk payload = record {
    action_type = type;
    risk_level = risk;
    base = record {
      title = clean_title;
      description = clean_description;
      source_subject = input.subject;
      source_from = input.from;
    };
    payload = payload;
    expires_at = resolve_expires_at input now;
  }

  -- `toManualTodo`
  unfoldable pub to_manual_todo : Text → Normalized
  to_manual_todo instructions = normalized manual_todo low (todo instructions)

  abbrev start_time : Text
  start_time = text_of ("startTime" ∷ "startDateTime" ∷ "startsAt" ∷ [])

  abbrev end_time : Text
  end_time = text_of ("endTime" ∷ "endDateTime" ∷ "endsAt" ∷ [])

  abbrev pub calendar_or_todo : (has_dates : Bool) → Normalized
  calendar_or_todo true = normalized calendar_add_event medium (
      calendar
        (clean_text (non_empty_or (text_of ("eventTitle" ∷ "title" ∷ "summary" ∷ [])) clean_title))
        start_time end_time
        (non_empty_or (text_of ("timeZone" ∷ "timezone" ∷ []))
          (non_empty_or input.time_zone (codes "UTC")))
        (optional ("location" ∷ [])) (optional ("notes" ∷ "description" ∷ [])))
  calendar_or_todo false =
      to_manual_todo (codes "Review calendar details manually: " ++ clean_description)

  unfoldable pub normalize_calendar : Normalized
  normalize_calendar = calendar_or_todo (
      is_valid_iso_date_time input.is_finite_date start_time
      && is_valid_iso_date_time input.is_finite_date end_time)

  unfoldable pub normalize_draft : Normalized
  normalize_draft = normalized email_draft_reply medium (
      draft (optional ("draftSubject" ∷ "subject" ∷ [])) (
        clean_text
          (non_empty_or (text_of ("draftBody" ∷ "body" ∷ "replyText" ∷ [])) clean_description)))

  abbrev pub link_or_todo : Option Text → Normalized
  link_or_todo (some url) = normalized external_open_link low (link url)
  link_or_todo none = to_manual_todo (codes "Open the related link manually: " ++ clean_description)

  unfoldable pub normalize_link : Normalized
  normalize_link =
      link_or_todo (find_allowed_url (text_of ("url" ∷ "href" ∷ "link" ∷ [])) allowed_urls)

  unfoldable pub normalize_todo : Normalized
  normalize_todo =
      to_manual_todo (clean_text (non_empty_or (text_of ("instructions" ∷ [])) clean_description))

  abbrev tracking_url : Option Text
  tracking_url = allowed_of (get_string proposal.parameters ("trackingUrl" ∷ "url" ∷ "href" ∷ []))

  abbrev pub package_or_todo : Option Text → Normalized
  package_or_todo none =
      to_manual_todo (codes "Review delivery details manually: " ++ clean_description)
  package_or_todo (some number) =
      normalized delivery_track_package low
        (parcel number (optional ("carrier" ∷ "shippingCarrier" ∷ [])) tracking_url)

  unfoldable pub normalize_package : Normalized
  normalize_package =
      package_or_todo (optional ("trackingNumber" ∷ "tracking_number" ∷ "parcelNumber" ∷ []))

  abbrev pub flight_or_todo : Option Text → Normalized
  flight_or_todo none =
      to_manual_todo (codes "Review flight details manually: " ++ clean_description)
  flight_or_todo (some number) = normalized travel_track_flight low (
      flight number (optional ("airline" ∷ [])) (optional ("departureAirport" ∷ "origin" ∷ []))
        (optional ("arrivalAirport" ∷ "destination" ∷ []))
        (optional ("departureTime" ∷ "departure" ∷ [])) tracking_url)

  unfoldable pub normalize_flight : Normalized
  normalize_flight = flight_or_todo (optional ("flightNumber" ∷ "flight" ∷ "flightCode" ∷ []))

  abbrev pub bill_or_todo : (payee amount due_date invoice_number : Option Text) → Normalized
  bill_or_todo none none none none =
      to_manual_todo (codes "Review bill details manually: " ++ clean_description)
  bill_or_todo payee amount due_date invoice_number = normalized finance_pay_bill medium (
      bill payee amount (optional ("currency" ∷ [])) due_date invoice_number
        (allowed_of (get_string proposal.parameters ("paymentUrl" ∷ "url" ∷ "href" ∷ []))))

  unfoldable pub normalize_bill : Normalized
  normalize_bill =
      bill_or_todo (optional ("payee" ∷ "biller" ∷ "merchant" ∷ []))
        (optional ("amount" ∷ "total" ∷ [])) (optional ("dueDate" ∷ "due_date" ∷ "paymentDue" ∷ []))
        (optional ("invoiceNumber" ∷ "invoice_number" ∷ "invoiceId" ∷ []))

  unfoldable pub normalize_appointment : Normalized
  normalize_appointment = normalized appointment_confirm low (
      appointment (optional ("serviceType" ∷ "service" ∷ "type" ∷ []))
        (optional ("providerName" ∷ "provider" ∷ "doctor" ∷ "vendor" ∷ []))
        (optional ("appointmentTime" ∷ "dateTime" ∷ "scheduledAt" ∷ []))
        (optional ("location" ∷ "address" ∷ "venue" ∷ []))
        (optional ("confirmationNumber" ∷ "confirmationCode" ∷ "referenceNumber" ∷ []))
        (optional ("notes" ∷ "instructions" ∷ [])))

  unfoldable pub normalize_as : Option ActionType → Option Normalized
  normalize_as (some calendar_add_event) = some normalize_calendar
  normalize_as (some email_draft_reply) = some normalize_draft
  normalize_as (some external_open_link) = some normalize_link
  normalize_as (some manual_todo) = some normalize_todo
  normalize_as (some delivery_track_package) = some normalize_package
  normalize_as (some travel_track_flight) = some normalize_flight
  normalize_as (some finance_pay_bill) = some normalize_bill
  normalize_as (some appointment_confirm) = some normalize_appointment
  normalize_as none = none

  -- `normalizeProposal`
  unfoldable pub normalize_proposal : Option Normalized
  normalize_proposal = normalize_as proposal.type
