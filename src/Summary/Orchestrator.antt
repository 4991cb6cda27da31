-- ===== src/Summary/Orchestrator.antt =====
-- `orchestrate` of packages/backend-services/src/email/EmailSummaryOrchestrator.ts: the filters, the summary, the
-- actions and the rules after it. The context of earlier mail, the analysis of attachments, the
-- execution of actions and the rendering are parameters; audit logs are left out.
pub mod Outcome
use mail_otter.Base.{
  ℕ, String, List, [], ◌∷◌, ◌++◌, Bool, true, false, Option, none, some, if◌then◌else◌, ◌&&◌, not,
  map, codes,
}
use mail_otter.Action.{Text}
use mail_otter.Action.Store.{Tables}
use mail_otter.Action.Creation.{Proposal, CreationInput}
use mail_otter.Action.Creation.Run.{CreatedAction, create_actions_for_summary}
use mail_otter.Message.{Table, Key, MessageRow, mark_skipped, get_by_message_id}
use mail_otter.Pipeline.{PipelineError, Ending, returned, raised}
use mail_otter.Rule.{
  Rule, RuleAction, RuleContext, skip, skip_actions, prepend_instruction, evaluate_pre_processing,
  evaluate_post_processing,
}
use mail_otter.Sender.{should_skip, Decision, pass}
use mail_otter.Usage.Daily.{UsageTable}
use mail_otter.Summary.{
  SummaryInput, ProcessingSummary, SummaryResult, summarized, failed, summarize,
}

pub record World : Type 0 where
  pub messages : Table
  pub actions : Tables
  pub usage : UsageTable

-- `OrchestrationResult`, with the rules that are carried out after the summary
pub record Orchestrated : Type 0 where
  pub html : Text
  pub summary_model : String
  pub created : List CreatedAction
  pub organized : List Rule

-- What a message is orchestrated with. `prepare_context` and `analyze_attachments` may record their use
-- of models; the second gives nothing where it is switched off or fails. `auto_execute` is the
-- execution of the actions of the types that are executed at once. `creation_settings` is what the creation
-- of actions reads of the application and the environment, beside the fields that `creation_for` sets.
pub record OrchestratorInput : Type 0 where
  pub to_lower_case : Text → Text
  pub key : Key
  pub now : ℕ
  pub from : Text
  pub subject : Text
  pub body : Text
  pub has_attachment : Option Bool
  pub sender_domain_filters : List Text
  pub rules : List Rule
  pub prepare_context : UsageTable → UsageTable × Option Text
  pub summary_input : Option Text → Option Text → SummaryInput Proposal
  pub analyze_attachments : UsageTable → UsageTable × List Text × List Proposal
  pub callback_base_url : Option Text
  pub creation_settings : CreationInput
  pub insert_error : PipelineError
  pub auto_execute : List CreatedAction → Tables → Tables
  pub type_of : Proposal → Text
  pub has_provider_access : Bool
  pub render : Text → List Text → List CreatedAction → Text

abbrev pub Outcome : Type 0
Outcome = World × Ending Orchestrated

module _ (input : OrchestratorInput) where
  abbrev pub context : Option (List Text) → RuleContext
  context types = record {
    from = input.from;
    subject = input.subject;
    body = input.body;
    has_attachment = input.has_attachment;
    detected_action_types = types;
  }

  abbrev pub skipped_for : Text → World → Outcome
  skipped_for reason w =
      (record w { messages = mark_skipped input.now input.key reason w.messages }, returned none)

  abbrev pub organized_by : List Proposal → List Rule
  organized_by proposals =
      if input.has_provider_access
      then evaluate_post_processing input.to_lower_case input.rules
          (context (some (map input.type_of proposals)))
      else []

  -- What `createActionsForSummary` is given for the row of the message.
  unfoldable pub creation_for : MessageRow → CreationInput
  creation_for row = record input.creation_settings {
    application_id = input.key.application_id;
    processed_message_id = row.processed_message_id;
    provider_message_id = row.provider_message_id;
    provider_thread_id = row.provider_thread_id;
    subject = input.subject;
    from = input.from;
    body = input.body;
    callback_base_url = input.callback_base_url;
  }

  -- The actions that are created, unless a rule suppresses them or the message is gone
  unfoldable pub created_for :
      Bool → List Proposal → Option MessageRow → Tables → Tables × Option (List CreatedAction)
  created_for true proposals row t = (t, some [])
  created_for false proposals none t = (t, some [])
  created_for false proposals (some row) t =
      create_actions_for_summary (creation_for row) proposals t

  abbrev pub executed : List CreatedAction → Tables → Tables
  executed [] t = t
  executed (c ∷ cs) t = input.auto_execute (c ∷ cs) t

  unfoldable pub after_creation :
      ProcessingSummary Proposal
      → List Text
      → World
      → Tables × Option (List CreatedAction)
      → Outcome
  after_creation summary attachments w (t, none) =
      (record w { actions = t }, raised input.insert_error)
  after_creation summary attachments w (t, some created) = (
    record w { actions = executed created t },
    returned (
        some (record {
          html = input.render summary.html attachments created;
          summary_model = summary.summary_model;
          created = created;
          organized = organized_by summary.action_proposals;
        })),
  )

  unfoldable pub after_summary : Bool → SummaryResult Proposal → World → Outcome
  after_summary suppress (failed error) w = (w, raised error)
  after_summary suppress (summarized summary) w =
      let (usage, attachments, proposals) = input.analyze_attachments w.usage in
      let w' = record w { usage = usage } in
      after_creation summary attachments w' (
        created_for suppress (summary.action_proposals ++ proposals)
          (get_by_message_id input.key w'.messages) w'.actions)

  unfoldable pub summarize_and_act : Bool → Option Text → World → Outcome
  summarize_and_act suppress instruction w =
      let (usage, context) = input.prepare_context w.usage in
      let run = summarize (input.summary_input context instruction) usage in
      after_summary suppress run.result (record w { usage = run.usage_table })

  abbrev pub rule_reason : Rule → Text
  rule_reason rule = codes "Matched rule: " ++ codes rule.name

  abbrev pub by_action : Rule → RuleAction → World → Outcome
  by_action rule skip w = skipped_for (rule_reason rule) w
  by_action rule skip_actions w = summarize_and_act true none w
  by_action rule (prepend_instruction instruction) w = summarize_and_act false instruction w
  by_action rule _ w = summarize_and_act false none w

  unfoldable pub by_rule : Option Rule → World → Outcome
  by_rule none w = summarize_and_act false none w
  by_rule (some rule) w = by_action rule rule.action w

  unfoldable pub by_filter : Decision → World → Outcome
  by_filter (Decision.skip reason) w = skipped_for reason w
  by_filter pass w =
      by_rule (evaluate_pre_processing input.to_lower_case input.rules (context none)) w

  -- `orchestrate`
  unfoldable pub orchestrate : World → Outcome
  orchestrate w =
      by_filter (should_skip input.to_lower_case input.from input.sender_domain_filters) w
