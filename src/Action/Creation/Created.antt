-- ===== src/Action/Creation/Created.antt =====
-- What a run of `createActionsForSummary` creates.
use mail_otter.Base.{
  ℕ, suc, ◌≤◌, ◌≡◌, refl, ap, arith, sym, ◌∙◌, List, [], ◌∷◌, ◌||◌, inl, inr, Bool-cases, Option,
  none, some, Option-cases, All, length, take, length-take-le, is_none, find_where,
}
use mail_otter.Action.{Text, ActionType}
use mail_otter.Action.Store.{Tables, has_id, create, delete_by_processed_message_id}
use mail_otter.Action.Store.Statements.{perform_all}
use mail_otter.Action.Creation.{
  Payload, calendar, draft, link, todo, parcel, flight, bill, appointment, Proposal, Normalized,
  CreationInput,
}
use mail_otter.Action.Creation.Urls.{extract_urls, non_empty}
use mail_otter.Action.Creation.Proposals.{normalize_proposal, normalize_as}
use mail_otter.Action.Creation.Run.{
  CreatedAction, created_action, create_each, create_actions_for_summary, resolve_callback_base_url,
  insert_and, is_empty,
}
use mail_otter.Action.Creation.Origin.{IsPart, extract_urls-IsPart}
use mail_otter.Action.Creation.Laws.{UrlsIn, OptionIn, normalize_proposal-IsSound}

abbrev pub OptionIsPart : Text → Option Text → Type 0
OptionIsPart body none = Unit
OptionIsPart body (some u) = IsPart u body

-- The addresses in a payload stand in the body.
abbrev pub UrlsArePart : Text → Payload → Type 0
UrlsArePart body (link url) = IsPart url body
UrlsArePart body (parcel _ _ tracking_url) = OptionIsPart body tracking_url
UrlsArePart body (flight _ _ _ _ _ tracking_url) = OptionIsPart body tracking_url
UrlsArePart body (bill _ _ _ _ _ payment_url) = OptionIsPart body payment_url
UrlsArePart body _ = Unit

OptionIsPart-extracted :
    (body : Text) (u : Option Text) → OptionIn (extract_urls body) u → OptionIsPart body u
OptionIsPart-extracted body none h = tt
OptionIsPart-extracted body (some u) h = extract_urls-IsPart body u h

UrlsArePart-extracted :
    (body : Text) (payload : Payload)
    → UrlsIn (extract_urls body) payload
    → UrlsArePart body payload
UrlsArePart-extracted body (calendar _ _ _ _ _ _) h = tt
UrlsArePart-extracted body (draft _ _) h = tt
UrlsArePart-extracted body (link url) h = extract_urls-IsPart body url h
UrlsArePart-extracted body (todo _) h = tt
UrlsArePart-extracted body (parcel _ _ u) h = OptionIsPart-extracted body u h
UrlsArePart-extracted body (flight _ _ _ _ _ u) h = OptionIsPart-extracted body u h
UrlsArePart-extracted body (bill _ _ _ _ _ u) h = OptionIsPart-extracted body u h
UrlsArePart-extracted body (appointment _ _ _ _ _ _) h = tt

-- What was created belongs to the message, and shows no address that is not in its body.
abbrev pub FromMessage : CreationInput → CreatedAction → Type 0
FromMessage input c =
    (c.row.processed_message_id ≡ input.processed_message_id)
    × (c.row.payload ≡ input.seal c.normalized.base c.normalized.payload)
    × UrlsArePart input.body c.normalized.payload

module _ (input : CreationInput) where
  normalize_as-UrlsIn :
      (now : ℕ) (p : Proposal) (type : Option ActionType) (n : Normalized)
      → p.type ≡ type
      → normalize_proposal input (extract_urls input.body) now p ≡ some n
      → UrlsIn (extract_urls input.body) n.payload
  unfolding normalize_proposal normalize_as
  normalize_as-UrlsIn now p none n e h =
      let known = ap (normalize_as input (extract_urls input.body) now p) e in
      let bad : none ≡ some n = sym known ∙ h in absurd (ground (arith, bad))
  normalize_as-UrlsIn now p (some type) n e h =
      let (m, same, sound) =
        normalize_proposal-IsSound input (extract_urls input.body) now p type e in
      let eq : m ≡ n = cc in rw (← eq) sound.2

  -- At most `n` actions were created, all of the message.
  abbrev Fine : ℕ → Tables × Option (List CreatedAction) → Type 0
  Fine n (t, none) = Unit
  Fine n (t, some cs) = All (FromMessage input) cs × (length cs ≤ n)

  Fine-weaken : (n m : ℕ) (o : Tables × Option (List CreatedAction)) → n ≤ m → Fine n o → Fine m o
  Fine-weaken n m (t, none) le h = tt
  Fine-weaken n m (t, some cs) more (all, le) = (all, omega arith)

  Fine-insert_and :
      (n : ℕ) (c : CreatedAction) (o : Tables × Option (List CreatedAction))
      → FromMessage input c
      → Fine n o
      → Fine (suc n) (insert_and input c o)
  Fine-insert_and n c (t, none) f h = tt
  Fine-insert_and n c (t, some cs) f (all, le) = ((f, all), omega arith)

  create_each-Fine :
      (base_url : Text) (now k : ℕ) (ps : List Proposal) (t : Tables)
      → Fine (length ps) (create_each input base_url (extract_urls input.body) now k ps t)
  unfolding create_each
  create_each-Fine base_url now k [] t = (tt, omega arith)
  create_each-Fine base_url now k (p ∷ ps) t =
      let urls = extract_urls input.body in
      elim (Option-cases (normalize_proposal input urls now p)) [
        | inl unknown ↦
            rw (unknown, create_each)
              (Fine-weaken (length ps) (suc (length ps))
                (create_each input base_url urls now (suc k) ps t) (omega arith)
                (create_each-Fine base_url now (suc k) ps t))
        | inr (n, known) ↦
            let c = created_action input base_url k n in
            let t1 = perform_all (input.others (suc k)) t in
            elim (Option-cases (create (input.clock (suc k)) c.row t1)) [
              | inl refused ↦ rw (known, create_each, refused) tt
              | inr (t', done) ↦
                  let t2 = perform_all (input.others_between k) t' in
                  elim (Option-cases (find_where (has_id c.row.action_id) t2.actions)) [
                    | inl gone ↦ rw (known, create_each, done, gone) tt
                    | inr (row, there) ↦
                        rw (known, create_each, done, there)
                          (Fine-insert_and (length ps) c
                            (create_each input base_url urls now (suc k) ps t2)
                            (
                              refl,
                              refl,
                              UrlsArePart-extracted input.body n.payload
                                  (normalize_as-UrlsIn now p p.type n refl known),
                            )
                            (create_each-Fine base_url now (suc k) ps t2))
                  ]
            ]
      ]

  Fine-some :
      (t : Tables) (o : Option (List CreatedAction)) (cs : List CreatedAction)
      → o ≡ some cs
      → Fine 4 (t, o)
      → All (FromMessage input) cs × (length cs ≤ 4)
  Fine-some t none cs e h = absurd (ground arith)
  Fine-some t (some ds) cs e h = let same : ds ≡ cs = cc in rw (← same) h

  create_actions_for_summary-Fine :
      (ps : List Proposal) (t : Tables) → Fine 4 (create_actions_for_summary input ps t)
  unfolding create_actions_for_summary
  create_actions_for_summary-Fine ps t =
      let base_url = resolve_callback_base_url input in
      let four = take 4 ps in
      let t' =
        (delete_by_processed_message_id input.processed_message_id
          (perform_all (input.others 0) t)).0 in
      elim (Bool-cases (is_none (non_empty base_url) || is_empty ps)) [
        | inl nothing_to_do ↦ rw nothing_to_do (tt, omega arith)
        | inr some_to_do ↦ rw some_to_do (
            Fine-weaken (length four) 4
              (create_each input base_url (extract_urls input.body) (input.clock 0) 0 four t')
              (length-take-le 4 ps) (create_each-Fine base_url (input.clock 0) 0 four t'))
      ]

  -- Whatever other workers do meanwhile, a run that returns has created at most four actions, each
  -- for the message of the summary and with its payload sealed; and every address in a payload,
  -- to open, to track or to pay at, stands in the body of that message.
  pub create_actions_for_summary-FromMessage :
      (ps : List Proposal) (t : Tables) (cs : List CreatedAction)
      → (create_actions_for_summary input ps t).1 ≡ some cs
      → All (FromMessage input) cs × (length cs ≤ 4)
  unfolding create_actions_for_summary
  create_actions_for_summary-FromMessage ps t cs h =
      let run = create_actions_for_summary input ps t in
      Fine-some run.0 run.1 cs h (create_actions_for_summary-Fine ps t)
