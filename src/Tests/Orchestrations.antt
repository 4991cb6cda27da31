-- ===== src/Tests/Orchestrations.antt =====
-- Concrete runs of the orchestration of a message.
use mail_otter.Base.{◌≡◌, refl, List, [], ◌∷◌, false, Option, none, some, codes}
use mail_otter.Action.{Text}
use mail_otter.Action.Creation.{Proposal}
use mail_otter.Pipeline.{PipelineError, Ending}
use mail_otter.Usage.{TextUsage}
use mail_otter.Summary.{ModelAnswer, SummaryInput}
use mail_otter.Summary.Orchestrator.{World, OrchestratorInput, orchestrate, by_filter}
use mail_otter.Sender.{
  should_skip, matches_pattern, starts_with, trim, ends_with, extract_email_address, index_of,
  text_eq,
}
use mail_otter.Summary.Orchestrator.Outcome.{Did, orchestrate-Did}
use mail_otter.Tests.Data.{ascii_lower, letter, failed_letter}
use mail_otter.Tests.Proposals.{message, proposal}

abbrev uncounted : TextUsage
uncounted = record { reported_prompt = none; reported_completion = none; reported_total = none }

abbrev summary_input : Option Text → Option Text → SummaryInput Proposal
summary_input context instruction = record {
  primary_model = "primary";
  fallback_model = "fallback";
  fallback_threshold = 0;
  prompt_text = codes "Summarize";
  run_model = λ model. ModelAnswer.answered (record {
    summary = codes "An order.";
    gist = none;
    action_proposals = some (proposal ∷ []);
    usage = uncounted;
  });
  usage_date = λ k. "2026-01-02";
  clock = λ k. 100;
  read_throws = false;
  write_throws = λ k. false;
  debug_mode = false;
  with_debug = λ t. t;
}

abbrev filtered_by : List Text → OrchestratorInput
filtered_by filters = record {
  to_lower_case = ascii_lower;
  key = letter;
  now = 500;
  from = message.from;
  subject = message.subject;
  body = message.body;
  has_attachment = none;
  sender_domain_filters = filters;
  rules = [];
  prepare_context = λ u. (u, none);
  summary_input = summary_input;
  analyze_attachments = λ u. (u, [], []);
  callback_base_url = message.callback_base_url;
  creation_settings = message;
  insert_error = PipelineError.unclassified (codes "constraint");
  auto_execute = λ cs t. t;
  type_of = λ p. codes "external.open_link";
  has_provider_access = false;
  render = λ html attachments created. html;
}

abbrev start : World
start = record {
  messages = failed_letter ∷ [];
  actions = record { actions = []; executions = [] };
  usage = [];
}

-- The shop is not among the senders that are let through.
filtered_out : (orchestrate (filtered_by (codes "@y.org" ∷ [])) start).1 ≡ Ending.returned none
unfolding orchestrate by_filter should_skip matches_pattern starts_with trim ascii_lower ends_with
    extract_email_address index_of text_eq
filtered_out = refl

orchestrate-Did_example : Did (filtered_by []) start (orchestrate (filtered_by []) start)
orchestrate-Did_example = orchestrate-Did (filtered_by []) start
