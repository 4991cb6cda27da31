-- ===== src/Action/Creation/Run.antt =====
-- `createActionsForSummary` of packages/backend-services/src/action/ActionCreationService.ts. What other workers
-- send to the tables before access k is `others k`: access 0 is the deletion, and access k + 1 the
-- insertion of the action made of proposal k; `others_between k` come before this action is read again.
use mail_otter.Base.{
  ℕ, suc, String, List, [], ◌∷◌, ◌++◌, Bool, true, false, ◌||◌, Option, none, some, if◌then◌else◌,
  take, codes, is_none, find_where,
}
use mail_otter.Action.{Text}
use mail_otter.Action.Store.{
  Tables, CreateEmailActionInput, has_id, create, delete_by_processed_message_id,
}
use mail_otter.Action.Store.Statements.{perform_all}
use mail_otter.Action.Creation.Urls.{
  non_empty_or, non_empty, or_empty, strip_end, is_slash, extract_urls,
}
use mail_otter.Sender.{trim}
use mail_otter.Action.Creation.{Proposal, Normalized, CreationInput}
use mail_otter.Action.Creation.Proposals.{normalize_proposal}

-- `resolveCallbackBaseUrl`
unfoldable pub resolve_callback_base_url : CreationInput → Text
resolve_callback_base_url input =
    strip_end is_slash
      (non_empty_or (trim (or_empty input.callback_base_url)) input.configured_base_url)

-- `CreatedEmailAction`, with the row's input and the payload that it seals.
pub record CreatedAction : Type 0 where
  pub row : CreateEmailActionInput
  pub normalized : Normalized
  pub token : String
  pub confirmation_url : Text

abbrev pub is_empty : List Proposal → Bool
is_empty [] = true
is_empty (p ∷ ps) = false

module _ (input : CreationInput) where
  abbrev pub row_input : Normalized → String → String → CreateEmailActionInput
  row_input n action_id token = record {
    action_id = action_id;
    processed_message_id = input.processed_message_id;
    application_id = input.application_id;
    user_email = input.user_email;
    user_id = none;
    provider_id = input.provider_id;
    provider_message_id = input.provider_message_id;
    provider_thread_id = input.provider_thread_id;
    action_type = n.action_type;
    risk_level = n.risk_level;
    token_hash = input.hash_token action_id token;
    payload = input.seal n.base n.payload;
    expires_at = n.expires_at;
  }

  abbrev pub created_action : Text → ℕ → Normalized → CreatedAction
  created_action base_url k n =
      let (action_id, token) = input.fresh k in
      record {
        row = row_input n action_id token;
        normalized = n;
        token = token;
        confirmation_url =
            base_url
            ++ codes "/api/actions/"
            ++ input.encode_uri_component action_id
            ++ codes "?token="
            ++ input.encode_uri_component token;
      }

  -- One insertion, and what comes after it; an insertion that throws ends the run.
  abbrev pub insert_and :
      CreatedAction → Tables × Option (List CreatedAction) → Tables × Option (List CreatedAction)
  insert_and c (t, none) = (t, none)
  insert_and c (t, some cs) = (t, some (c ∷ cs))

  -- The loop, from proposal k on
  unfoldable pub create_each :
      Text → List Text → ℕ → ℕ → List Proposal → Tables → Tables × Option (List CreatedAction)
  create_each base_url urls now k [] t = (t, some [])
  create_each base_url urls now k (proposal ∷ proposals) t =
      elim (normalize_proposal input urls now proposal) [
        | none ↦ create_each base_url urls now (suc k) proposals t
        | some n ↦
            let c = created_action base_url k n in
            let t1 = perform_all (input.others (suc k)) t in
            elim (create (input.clock (suc k)) c.row t1) [
              | none ↦ (t1, none)
              | some t' ↦
                  let t2 = perform_all (input.others_between k) t' in
                  elim (find_where (has_id c.row.action_id) t2.actions) [
                    | none ↦ (t2, none)
                    | some _ ↦ insert_and c (create_each base_url urls now (suc k) proposals t2)
                  ]
            ]
      ]

  -- `createActionsForSummary`; `none` is an error of an insertion, or of reading back an action that is gone
  -- already; the rows that were inserted stay.
  unfoldable pub create_actions_for_summary :
      List Proposal → Tables → Tables × Option (List CreatedAction)
  create_actions_for_summary proposals t =
      let base_url = resolve_callback_base_url input in
      if is_none (non_empty base_url) || is_empty proposals
      then (t, some [])
      else create_each base_url (extract_urls input.body) (input.clock 0) 0 (take 4 proposals)
          (delete_by_processed_message_id input.processed_message_id
            (perform_all (input.others 0) t)).0
