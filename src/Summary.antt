-- ===== src/Summary.antt =====
-- The choice and the use of language models by packages/backend-services/src/email/EmailSummaryOrchestrator.ts, with
-- recordTextGenerationUsage of packages/backend-services/src/ai/AiClient.ts. The models are a
-- parameter, as are the text of the prompt, the configuration and the text that debugging adds.
pub mod Laws
pub mod Orchestrator
use mail_otter.Base.{
  ℕ, ◌+◌, zero, suc, String, str_eq, List, [], ◌∷◌, Bool, true, false, not, Option, none, some,
  if◌then◌else◌, leb,
}
use mail_otter.Action.{Text}
use mail_otter.Pipeline.{PipelineError}
use mail_otter.Usage.{
  TextUsage, Estimate, estimate_tokens_from_text, estimate_for_token_counts,
  estimate_text_generation_usage,
}
use mail_otter.Usage.Daily.{UsageTable, Increment, increment_usage, get_estimated_neurons_for_date}

-- `EmailSummaryResult`; a usage that is not reported has no counts.
pub record EmailSummary (A : Type 0) : Type 0 where
  pub summary : Text
  pub gist : Option Text
  pub action_proposals : Option (List A)
  pub usage : TextUsage

-- How a call of a model ends; an `AiSummaryRetryableError` may carry a usage and a text.
pub data ModelAnswer (A : Type 0) : Type 0 where
  answered : EmailSummary A → ModelAnswer A
  retryable_failure : TextUsage → Option Text → PipelineError → ModelAnswer A
  other_failure : PipelineError → ModelAnswer A

-- What a summary is made with. `usage_date k` is the day, and `clock k` the time, of access k to the
-- table of usage: the reading, the record of the first call, that of the second. An access may throw,
-- which is logged and no more.
pub record SummaryInput (A : Type 0) : Type 0 where
  pub primary_model : String
  pub fallback_model : String
  pub fallback_threshold : ℕ
  pub prompt_text : Text
  pub run_model : String → ModelAnswer A
  pub usage_date : ℕ → String
  pub clock : ℕ → ℕ
  pub read_throws : Bool
  pub write_throws : ℕ → Bool
  pub debug_mode : Bool
  pub with_debug : Text → Text

-- `EmailProcessingSummary`
pub record ProcessingSummary (A : Type 0) : Type 0 where
  pub html : Text
  pub action_proposals : List A
  pub gist : Text
  pub summary_model : String
  pub estimated_neurons : ℕ

pub data SummaryResult (A : Type 0) : Type 0 where
  summarized : ProcessingSummary A → SummaryResult A
  failed : PipelineError → SummaryResult A

-- How a run ends: the table, the models that were called, in this order, and the result.
pub record SummaryRun (A : Type 0) : Type 0 where
  pub usage_table : UsageTable
  pub called : List String
  pub result : SummaryResult A

abbrev pub or_text : Option Text → Text
or_text none = []
or_text (some text) = text

abbrev pub or_none {ℓ} : {A : Type ℓ} → Option (List A) → List A
or_none none = []
or_none (some xs) = xs

abbrev pub neurons : Option Estimate → ℕ
neurons none = 0
neurons (some e) = e.estimated_neurons

module _ {A : Type 0} (s : SummaryInput A) where
  -- `EMAIL_SUMMARY_MAX_COMPLETION_TOKENS`
  abbrev pub max_completion_tokens : ℕ
  max_completion_tokens = 1200

  -- `projectedPrimaryUsage.estimatedNeurons`
  unfoldable pub projected_neurons : ℕ
  projected_neurons =
      (estimate_for_token_counts s.primary_model (estimate_tokens_from_text s.prompt_text)
        max_completion_tokens).estimated_neurons

  -- `resolveSummaryModel`
  unfoldable pub resolve_summary_model : UsageTable → String
  resolve_summary_model t =
      if leb s.fallback_threshold 0
      then s.primary_model
      else if s.read_throws
      then s.primary_model
      else if leb s.fallback_threshold
          (get_estimated_neurons_for_date (s.usage_date 0) t + projected_neurons)
      then s.fallback_model
      else s.primary_model

  abbrev pub increment_of : ℕ → Estimate → Increment
  increment_of k e = record {
    usage_date = s.usage_date k;
    estimated_neurons = e.estimated_neurons;
    prompt_tokens = some e.prompt_tokens;
    completion_tokens = some e.completion_tokens;
    embedding_tokens = none;
    request_count = none;
  }

  -- `recordTextGenerationUsage`, as access k
  unfoldable pub record_summary_usage :
      ℕ → String → TextUsage → Text → UsageTable → UsageTable × Option Estimate
  record_summary_usage k model usage output t =
      let e = estimate_text_generation_usage model usage s.prompt_text output in
      if s.write_throws k
      then (t, none)
      else (increment_usage (s.clock k) (increment_of k e) t, some e)

  -- What comes after the call that succeeded
  unfoldable pub finish : ℕ → String → List String → EmailSummary A → UsageTable → SummaryRun A
  finish k model called result t =
      let (t', e) = record_summary_usage k model result.usage result.summary t in
      record {
        usage_table = t';
        called = called;
        result = summarized (record {
          html = if s.debug_mode then s.with_debug result.summary else result.summary;
          action_proposals = or_none result.action_proposals;
          gist = or_text result.gist;
          summary_model = model;
          estimated_neurons = neurons e;
        });
      }

  abbrev pub fails : UsageTable → List String → PipelineError → SummaryRun A
  fails t called error = record { usage_table = t; called = called; result = failed error }

  -- `recordSummaryFailureUsage`
  abbrev pub record_failure : ℕ → String → TextUsage → Option Text → UsageTable → UsageTable
  record_failure k model usage output t = (record_summary_usage k model usage (or_text output) t).0

  -- The call of the fallback model
  unfoldable pub second_call : List String → ModelAnswer A → UsageTable → SummaryRun A
  second_call called (answered result) t = finish 2 s.fallback_model called result t
  second_call called (retryable_failure usage output error) t =
      fails (record_failure 2 s.fallback_model usage output t) called error
  second_call called (other_failure error) t = fails t called error

  unfoldable pub first_call : String → ModelAnswer A → UsageTable → SummaryRun A
  first_call model (answered result) t = finish 1 model (model ∷ []) result t
  first_call model (other_failure error) t = fails t (model ∷ []) error
  first_call model (retryable_failure usage output error) t =
      let t' = record_failure 1 model usage output t in
      if str_eq model s.fallback_model
      then fails t' (model ∷ []) error
      else second_call (model ∷ s.fallback_model ∷ []) (s.run_model s.fallback_model) t'

  -- `summarize`
  unfoldable pub summarize : UsageTable → SummaryRun A
  summarize t = let model = resolve_summary_model t in first_call model (s.run_model model) t
