-- ===== src/Action/Creation/Laws.antt =====
-- What the created actions are.
use mail_otter.Base.{
  ap, ℕ, ◌≤◌, ◌≡◌, refl, ◌∙◌, List, [], ◌∷◌, ◌∈◌, ◌⊎◌, inl, inr, Bool, true, false, Option, none,
  some, Option-cases, length, length-take-le,
}
use mail_otter.Action.{
  Text, ActionType, calendar_add_event, email_draft_reply, external_open_link, manual_todo,
  delivery_track_package, travel_track_flight, finance_pay_bill, appointment_confirm,
}
use mail_otter.Action.Creation.{
  Payload, calendar, draft, link, todo, parcel, flight, bill, appointment, Proposal, Normalized,
  CreationInput,
}
use mail_otter.Sender.{trim}
use mail_otter.Action.Creation.Urls.{
  or_empty, collapse_spaces, non_empty_or, find_allowed_url, clean_text,
}
use mail_otter.Action.Creation.Proposals.{
  clean_title, clean_description, get_fallback_action_title, get_string, allowed_of, to_manual_todo,
  calendar_or_todo, bill_or_todo, link_or_todo, package_or_todo, flight_or_todo, normalize_calendar,
  normalize_draft, normalize_link, normalize_todo, normalize_package, normalize_flight,
  normalize_bill, normalize_appointment, normalize_as, normalize_proposal,
}
use mail_otter.Action.Creation.Origin.{find_allowed_url-∈}

abbrev pub OptionIn : List Text → Option Text → Type 0
OptionIn urls none = Unit
OptionIn urls (some u) = u ∈ urls

-- The addresses in a payload are among these.
abbrev pub UrlsIn : List Text → Payload → Type 0
UrlsIn urls (link url) = url ∈ urls
UrlsIn urls (parcel _ _ tracking_url) = OptionIn urls tracking_url
UrlsIn urls (flight _ _ _ _ _ tracking_url) = OptionIn urls tracking_url
UrlsIn urls (bill _ _ _ _ _ payment_url) = OptionIn urls payment_url
UrlsIn urls _ = Unit

-- The payload is one of this type.
abbrev pub IsOfType : ActionType → Payload → Type 0
IsOfType calendar_add_event (calendar _ _ _ _ _ _) = Unit
IsOfType email_draft_reply (draft _ _) = Unit
IsOfType external_open_link (link _) = Unit
IsOfType manual_todo (todo _) = Unit
IsOfType delivery_track_package (parcel _ _ _) = Unit
IsOfType travel_track_flight (flight _ _ _ _ _ _) = Unit
IsOfType finance_pay_bill (bill _ _ _ _ _ _) = Unit
IsOfType appointment_confirm (appointment _ _ _ _ _ _) = Unit
IsOfType _ _ = ⊥

-- What a proposal of this type may become.
abbrev pub IsSound : List Text → ActionType → Normalized → Type 0
IsSound urls type n =
    ((n.action_type ≡ type) ⊎ (n.action_type ≡ manual_todo))
    × IsOfType n.action_type n.payload
    × UrlsIn urls n.payload
    × (length n.base.title ≤ 1000)
    × (length n.base.description ≤ 1000)

some_eq : {A : Type 0} {a b : A} → some a ≡ some b → a ≡ b
some_eq e = cc

clean_text-le : (s : Text) → length (clean_text s) ≤ 1000
unfolding clean_text
clean_text-le s = length-take-le 1000 (trim (collapse_spaces false s))

module _ (input : CreationInput) (urls : List Text) (now : ℕ) (p : Proposal) where
  allowed_of-OptionIn : (raw : Option Text) → OptionIn urls (allowed_of input urls now p raw)
  allowed_of-OptionIn none = tt
  allowed_of-OptionIn (some raw) = elim (Option-cases (find_allowed_url raw urls)) [
    | inl e ↦ rw e tt
    | inr (u, e) ↦ rw e (find_allowed_url-∈ raw urls u e)
  ]

  clean_title-le : length (clean_title input urls now p) ≤ 1000
  clean_title-le = clean_text-le (non_empty_or p.title (get_fallback_action_title p.type))

  clean_description-le : length (clean_description input urls now p) ≤ 1000
  clean_description-le = clean_text-le (non_empty_or p.description (clean_title input urls now p))

  tracking_url-OptionIn :
      OptionIn urls (
        allowed_of input urls now p (get_string p.parameters ("trackingUrl" ∷ "url" ∷ "href" ∷ [])))
  tracking_url-OptionIn =
      allowed_of-OptionIn (get_string p.parameters ("trackingUrl" ∷ "url" ∷ "href" ∷ []))

  payment_url-OptionIn :
      OptionIn urls
        (allowed_of input urls now p (get_string p.parameters ("paymentUrl" ∷ "url" ∷ "href" ∷ [])))
  payment_url-OptionIn =
      allowed_of-OptionIn (get_string p.parameters ("paymentUrl" ∷ "url" ∷ "href" ∷ []))

  calendar_or_todo-IsSound :
      (has_dates : Bool)
      → IsSound urls calendar_add_event (calendar_or_todo input urls now p has_dates)
  unfolding to_manual_todo
  calendar_or_todo-IsSound true = (inl refl, tt, tt, clean_title-le, clean_description-le)
  calendar_or_todo-IsSound false = (inr refl, tt, tt, clean_title-le, clean_description-le)

  link_or_todo-IsSound :
      (found : Option Text)
      → OptionIn urls found
      → IsSound urls external_open_link (link_or_todo input urls now p found)
  unfolding to_manual_todo
  link_or_todo-IsSound none h = (inr refl, tt, tt, clean_title-le, clean_description-le)
  link_or_todo-IsSound (some url) h = (inl refl, tt, h, clean_title-le, clean_description-le)

  package_or_todo-IsSound :
      (number : Option Text)
      → IsSound urls delivery_track_package (package_or_todo input urls now p number)
  unfolding to_manual_todo
  package_or_todo-IsSound none = (inr refl, tt, tt, clean_title-le, clean_description-le)
  package_or_todo-IsSound (some number) =
      (inl refl, tt, tracking_url-OptionIn, clean_title-le, clean_description-le)

  flight_or_todo-IsSound :
      (number : Option Text)
      → IsSound urls travel_track_flight (flight_or_todo input urls now p number)
  unfolding to_manual_todo
  flight_or_todo-IsSound none = (inr refl, tt, tt, clean_title-le, clean_description-le)
  flight_or_todo-IsSound (some number) =
      (inl refl, tt, tracking_url-OptionIn, clean_title-le, clean_description-le)

  bill_or_todo-IsSound :
      (payee amount due_date invoice : Option Text)
      → IsSound urls finance_pay_bill (bill_or_todo input urls now p payee amount due_date invoice)
  unfolding to_manual_todo
  bill_or_todo-IsSound none none none none =
      (inr refl, tt, tt, clean_title-le, clean_description-le)
  bill_or_todo-IsSound (some x) a d i =
      (inl refl, tt, payment_url-OptionIn, clean_title-le, clean_description-le)
  bill_or_todo-IsSound none (some x) d i =
      (inl refl, tt, payment_url-OptionIn, clean_title-le, clean_description-le)
  bill_or_todo-IsSound none none (some x) i =
      (inl refl, tt, payment_url-OptionIn, clean_title-le, clean_description-le)
  bill_or_todo-IsSound none none none (some x) =
      (inl refl, tt, payment_url-OptionIn, clean_title-le, clean_description-le)

  -- The action that a proposal of this type becomes.
  Becomes : ActionType → Type 0
  Becomes type =
      (n : Normalized) × (normalize_as input urls now p (some type) ≡ some n) × IsSound urls type n

  becomes : (type : ActionType) → Becomes type
  unfolding Becomes normalize_as normalize_calendar normalize_draft normalize_link normalize_todo
      normalize_package normalize_flight normalize_bill normalize_appointment to_manual_todo
  becomes calendar_add_event =
      (normalize_calendar input urls now p, refl, calendar_or_todo-IsSound _)
  becomes email_draft_reply = (
    normalize_draft input urls now p,
    refl,
    (inl refl, tt, tt, clean_title-le, clean_description-le),
  )
  becomes external_open_link =
      let url = or_empty (get_string p.parameters ("url" ∷ "href" ∷ "link" ∷ [])) in
      (
        normalize_link input urls now p,
        refl,
        link_or_todo-IsSound (find_allowed_url url urls) (allowed_of-OptionIn (some url)),
      )
  becomes manual_todo = (
    normalize_todo input urls now p,
    refl,
    (inl refl, tt, tt, clean_title-le, clean_description-le),
  )
  becomes delivery_track_package =
      (normalize_package input urls now p, refl, package_or_todo-IsSound _)
  becomes travel_track_flight = (normalize_flight input urls now p, refl, flight_or_todo-IsSound _)
  becomes finance_pay_bill = (normalize_bill input urls now p, refl, bill_or_todo-IsSound _ _ _ _)
  becomes appointment_confirm = (
    normalize_appointment input urls now p,
    refl,
    (inl refl, tt, tt, clean_title-le, clean_description-le),
  )

  -- A proposal of a known type becomes an action. The action is of the type that was
  -- proposed, or is left to the user as a manual one; its payload is one of its type; every address
  -- in the payload is among the addresses allowed; and its title and description have at most 1000
  -- code units.
  pub normalize_proposal-IsSound :
      (type : ActionType)
      → p.type ≡ some type
      → (n : Normalized) × (normalize_proposal input urls now p ≡ some n) × IsSound urls type n
  unfolding normalize_proposal Becomes
  normalize_proposal-IsSound type e =
      let (n, h, sound) = becomes type in (n, ap (normalize_as input urls now p) e ∙ h, sound)
