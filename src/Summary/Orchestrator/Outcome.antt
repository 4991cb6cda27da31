-- ===== src/Summary/Orchestrator/Outcome.antt =====
-- What an orchestration has done, by how it ended.
use mail_otter.Base.{
  ◌++◌, sym, ◌≤◌, ◌≡◌, refl, ap, arith, List, [], ◌∷◌, Bool, true, false, Option, none, some, All,
  length, str_eq_iff, find_where-holds,
}
use mail_otter.Action.{Text}
use mail_otter.Action.Store.{Tables}
use mail_otter.Action.Creation.{Proposal}
use mail_otter.Action.Creation.Run.{CreatedAction}
use mail_otter.Action.Creation.Created.{UrlsArePart, create_actions_for_summary-FromMessage}
use mail_otter.Message.{
  Table, MessageRow, mark_skipped, skipped, has_key, get_by_message_id, set_status, update_status,
  clip_optional,
}
use mail_otter.Pipeline.{returned, raised}
use mail_otter.Pipeline.Laws.{AllRows, update-AllRows}
use mail_otter.Rule.{Rule, RuleAction, evaluate_pre_processing}
use mail_otter.Sender.{Decision, pass, should_skip}
use mail_otter.Summary.{ProcessingSummary, SummaryResult, summarized, failed}
use mail_otter.Summary.Orchestrator.{
  World, OrchestratorInput, Outcome, skipped_for, creation_for, created_for, after_creation,
  after_summary, summarize_and_act, by_action, by_rule, by_filter, orchestrate, rule_reason,
  context,
}

abbrev pub IsSkipped : MessageRow → Type 0
IsSkipped row = row.status ≡ skipped

-- The action belongs to the row of the message, and every address in its payload, which is sealed, stands
-- in the body of the message.
abbrev pub Belongs : OrchestratorInput → MessageRow → CreatedAction → Type 0
Belongs input row c =
    (c.row.processed_message_id ≡ row.processed_message_id)
    × (c.row.payload ≡ input.creation_settings.seal c.normalized.base c.normalized.payload)
    × UrlsArePart input.body c.normalized.payload

-- The actions that were created are at most four, and belong to the row of the message, which is one of
-- its application and of its id; or there are none.
abbrev pub CreatedFor : OrchestratorInput → Table → List CreatedAction → Type 0
CreatedFor input messages [] = Unit
CreatedFor input messages (c ∷ cs) =
    (row : MessageRow) × (get_by_message_id input.key messages ≡ some row)
    × (row.application_id ≡ input.key.application_id)
    × (row.provider_message_id ≡ input.key.message_id)
    × All (Belongs input row) (c ∷ cs)
    × (length (c ∷ cs) ≤ 4)

-- By how it ended: nothing returned means that the message is marked as skipped and nothing else was
-- touched; a result comes with what was created for it; the messages are left alone save for skipping.
abbrev pub Did : OrchestratorInput → World → Outcome → Type 0
Did input w (w', returned none) =
    AllRows input.key IsSkipped w'.messages × (w'.actions ≡ w.actions) × (w'.usage ≡ w.usage)
Did input w (w', returned (some r)) =
    (w'.messages ≡ w.messages) × CreatedFor input w.messages r.created
Did input w (w', raised e) = w'.messages ≡ w.messages

module _ (input : OrchestratorInput) where
  skipped_for-Did : (reason : Text) (w : World) → Did input w (skipped_for input reason w)
  unfolding mark_skipped update_status
  skipped_for-Did reason w = (
    update-AllRows input.key IsSkipped
        (set_status input.now skipped (clip_optional (some reason)) false) (λ row. refl) w.messages,
    refl,
    refl,
  )

  created_for-CreatedFor :
      (suppress : Bool) (proposals : List Proposal) (messages : Table) (row : Option MessageRow)
      (t : Tables) (cs : List CreatedAction)
      → get_by_message_id input.key messages ≡ row
      → (created_for input suppress proposals row t).1 ≡ some cs
      → CreatedFor input messages cs
  unfolding created_for creation_for get_by_message_id
  created_for-CreatedFor suppress proposals messages row t [] found h = tt
  created_for-CreatedFor true proposals messages row t (c ∷ cs) found h = absurd (ground arith)
  created_for-CreatedFor false proposals messages none t (c ∷ cs) found h = absurd (ground arith)
  created_for-CreatedFor false proposals messages (some row) t (c ∷ cs) found h =
      let (all, le) =
        create_actions_for_summary-FromMessage (creation_for input row) proposals t (c ∷ cs) h in
      let held = find_where-holds (has_key input.key) messages row found in
      let application =
        (str_eq_iff row.application_id input.key.application_id).0 (ground (arith, held)) in
      let id = (str_eq_iff row.provider_message_id input.key.message_id).0 (ground (arith, held)) in
      (row, found, application, id, all, le)

  after_creation-Did :
      (summary : ProcessingSummary Proposal) (attachments : List Text) (w w' : World) (t : Tables)
      (o : Option (List CreatedAction))
      → w'.messages ≡ w.messages
      → ((cs : List CreatedAction) → o ≡ some cs → CreatedFor input w.messages cs)
      → Did input w (after_creation input summary attachments w' (t, o))
  unfolding after_creation
  after_creation-Did summary attachments w w' t none same h = same
  after_creation-Did summary attachments w w' t (some cs) same h = (same, h cs refl)

  after_summary-Did :
      (suppress : Bool) (r : SummaryResult Proposal) (w w' : World)
      → w'.messages ≡ w.messages
      → Did input w (after_summary input suppress r w')
  unfolding after_summary
  after_summary-Did suppress (failed e) w w' same = same
  after_summary-Did suppress (summarized summary) w w' same =
      let analysis = input.analyze_attachments w'.usage in
      let proposals = summary.action_proposals ++ analysis.2 in
      let row = get_by_message_id input.key w'.messages in
      let made = created_for input suppress proposals row w'.actions in
      after_creation-Did summary analysis.1 w (record w' { usage = analysis.0 }) made.0 made.1 same
        (λ cs e.
          created_for-CreatedFor suppress proposals w.messages row w'.actions cs
            (ap (get_by_message_id input.key) (sym same)) e)

  summarize_and_act-Did :
      (suppress : Bool) (instruction : Option Text) (w : World)
      → Did input w (summarize_and_act input suppress instruction w)
  unfolding summarize_and_act
  summarize_and_act-Did suppress instruction w = after_summary-Did suppress _ w _ refl

  by_action-Did :
      (rule : Rule) (action : RuleAction) (w : World) → Did input w (by_action input rule action w)
  by_action-Did rule RuleAction.skip w = skipped_for-Did (rule_reason input rule) w
  by_action-Did rule RuleAction.skip_actions w = summarize_and_act-Did true none w
  by_action-Did rule (RuleAction.prepend_instruction i) w = summarize_and_act-Did false i w
  by_action-Did rule (RuleAction.apply_label l) w = summarize_and_act-Did false none w
  by_action-Did rule RuleAction.archive_message w = summarize_and_act-Did false none w
  by_action-Did rule RuleAction.mark_read w = summarize_and_act-Did false none w
  by_action-Did rule RuleAction.star_message w = summarize_and_act-Did false none w

  by_rule-Did : (rule : Option Rule) (w : World) → Did input w (by_rule input rule w)
  unfolding by_rule
  by_rule-Did none w = summarize_and_act-Did false none w
  by_rule-Did (some rule) w = by_action-Did rule rule.action w

  by_filter-Did : (decision : Decision) (w : World) → Did input w (by_filter input decision w)
  unfolding by_filter
  by_filter-Did (Decision.skip reason) w = skipped_for-Did reason w
  by_filter-Did pass w =
      by_rule-Did (evaluate_pre_processing input.to_lower_case input.rules (context input none)) w

  -- An orchestration that returns nothing has marked every row of the message as skipped, and left the
  -- actions and the recorded use of models as they were. One that returns a result has left the messages
  -- alone and created at most four actions, which belong to the row of the message, and whose addresses all
  -- stand in the body that was summarized. One that ends with an error has left the messages alone.
  pub orchestrate-Did : (w : World) → Did input w (orchestrate input w)
  unfolding orchestrate
  orchestrate-Did w =
      by_filter-Did (should_skip input.to_lower_case input.from input.sender_domain_filters) w
