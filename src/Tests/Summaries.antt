-- ===== src/Tests/Summaries.antt =====
-- Concrete runs of the choice of a language model.
use mail_otter.Base.{
  ◌+◌, ◌≡◌, refl, arith, String, str_eq, [], ◌∷◌, false, none, some, if◌then◌else◌, codes,
  find_where,
}
use mail_otter.Sender.{trim}
use mail_otter.Pipeline.{PipelineError}
use mail_otter.Usage.{
  TextUsage, get_rates, ceil_millions, estimate_tokens_from_text, estimate_for_token_counts,
}
use mail_otter.Usage.Daily.{get_estimated_neurons_for_date}
use mail_otter.Summary.{
  EmailSummary, ModelAnswer, SummaryInput, SummaryRun, summarize, resolve_summary_model, first_call,
  second_call, finish, record_summary_usage, projected_neurons,
}
use mail_otter.Summary.Laws.{
  neurons_on, total_cost, IsOf, CalledInOrder, WithinThreshold, summarize-Accounts,
  summarize-CalledInOrder,
}

abbrev counted : TextUsage
counted = record {
  reported_prompt = some 1000;
  reported_completion = some 100;
  reported_total = none;
}

abbrev short_summary : EmailSummary String
short_summary = record {
  summary = codes "A parcel comes.";
  gist = some (codes "Parcel");
  action_proposals = none;
  usage = counted;
}

-- The primary model fails once its tokens were spent.
abbrev models : String → ModelAnswer String
models model =
    if str_eq model "primary"
    then ModelAnswer.retryable_failure counted none (PipelineError.retryable (codes "No JSON"))
    else ModelAnswer.answered short_summary

abbrev input : SummaryInput String
input = record {
  primary_model = "primary";
  fallback_model = "fallback";
  fallback_threshold = 9000;
  prompt_text = codes "Summarize";
  run_model = models;
  usage_date = λ k. "2026-01-02";
  clock = λ k. 100;
  read_throws = false;
  write_throws = λ k. false;
  debug_mode = false;
  with_debug = λ t. t;
}

abbrev calls : SummaryRun String
calls = summarize input []

calls_two : calls.called ≡ "primary" ∷ "fallback" ∷ []
unfolding summarize first_call second_call finish record_summary_usage resolve_summary_model
    projected_neurons estimate_for_token_counts estimate_tokens_from_text get_rates ceil_millions
    get_estimated_neurons_for_date find_where str_eq trim
calls_two = refl

summarize-Accounts_example :
    (neurons_on input "2026-01-02" calls.usage_table
      ≡ neurons_on input "2026-01-02" [] + total_cost input calls.called)
    × IsOf input calls.called calls.result
summarize-Accounts_example = summarize-Accounts input "2026-01-02" (λ k. refl) (λ k. refl) []

summarize-CalledInOrder_example :
    CalledInOrder input [] calls.called × WithinThreshold input [] (resolve_summary_model input [])
summarize-CalledInOrder_example = summarize-CalledInOrder input [] refl (omega arith)
