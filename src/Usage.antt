-- ===== src/Usage.antt =====
-- packages/backend-services/src/email/AiUsageUtil.ts: the estimate of what a call of a language model
-- costs. Counts of tokens are natural numbers, so that rounding one up does nothing; the products are
-- far below 2 ^ 53, where a quotient of doubles rounds up as that of the integers.
pub mod Laws
pub mod Daily
use mail_otter.Base.{
  ℕ, ◌+◌, ◌*◌, ◌-◌, ◌/◌, max, String, str_eq, Bool, Option, none, some, if◌then◌else◌, length, ◌==◌,
}
use mail_otter.Action.{Text}
use mail_otter.Sender.{trim}

-- `ModelNeuronRates`, for a million tokens
pub record Rates : Type 0 where
  pub input_rate : ℕ
  pub output_rate : Option ℕ

abbrev pub gpt_oss_120b_rates : Rates
gpt_oss_120b_rates = record { input_rate = 31818; output_rate = some 68182 }

abbrev pub kimi_k2_6_rates : Rates
kimi_k2_6_rates = record { input_rate = 86364; output_rate = some 363636 }

abbrev pub bge_m3_rates : Rates
bge_m3_rates = record { input_rate = 1075; output_rate = none }

-- `MODEL_NEURON_RATES[model] ?? fallback`
unfoldable pub get_rates : String → Rates → Rates
get_rates model fallback =
    if str_eq model "@cf/openai/gpt-oss-120b"
    then gpt_oss_120b_rates
    else if str_eq model "@cf/openai/gpt-oss-20b"
    then record { input_rate = 18182; output_rate = some 27273 }
    else if str_eq model "@cf/moonshotai/kimi-k2.6"
    then kimi_k2_6_rates
    else if str_eq model "@cf/google/gemma-4-26b-a4b-it"
    then record { input_rate = 4545; output_rate = some 13636 }
    else if str_eq model "@cf/baai/bge-m3"
    then bge_m3_rates
    else if str_eq model "@cf/meta/llama-3.2-11b-vision-instruct"
    then record { input_rate = 13636; output_rate = some 27273 }
    else fallback

-- `Math.ceil(n / 1_000_000)`
unfoldable pub ceil_millions : ℕ → ℕ
ceil_millions n = (n + 999999) / 1000000

-- `estimateTokensFromText`: four characters are a token.
unfoldable pub estimate_tokens_from_text : Text → ℕ
estimate_tokens_from_text text = (length (trim text) + 3) / 4

-- `AiTextGenerationUsage`
pub record TextUsage : Type 0 where
  pub reported_prompt : Option ℕ
  pub reported_completion : Option ℕ
  pub reported_total : Option ℕ

-- `AiTextGenerationUsageEstimate`
pub record Estimate : Type 0 where
  pub estimated_neurons : ℕ
  pub prompt_tokens : ℕ
  pub completion_tokens : ℕ

abbrev pub output_rate_of : Rates → ℕ
output_rate_of rates = elim rates.output_rate [ none ↦ rates.input_rate | some rate ↦ rate ]

unfoldable pub estimate_for_token_counts : String → ℕ → ℕ → Estimate
estimate_for_token_counts model prompt completion =
    let rates = get_rates model gpt_oss_120b_rates in
    record {
      estimated_neurons =
          ceil_millions (prompt * rates.input_rate + completion * output_rate_of rates);
      prompt_tokens = prompt;
      completion_tokens = completion;
    }

abbrev pub or_estimate : Option ℕ → Text → ℕ
or_estimate none text = estimate_tokens_from_text text
or_estimate (some count) text = count

-- `maxTokenCount`
abbrev pub max_token_count : Option ℕ → Option ℕ → Option ℕ
max_token_count none second = second
max_token_count (some first) none = some first
max_token_count (some first) (some second) = some (max first second)

-- `completionTokensFromTotal`
abbrev pub completion_from_total : Option ℕ → Option ℕ → Option ℕ
completion_from_total (some prompt) (some total) = some (total - prompt)
completion_from_total _ _ = none

-- `estimateTextGenerationUsage`, of a usage that a model reports, each count of which may be missing
unfoldable pub estimate_text_generation_usage : String → TextUsage → Text → Text → Estimate
estimate_text_generation_usage model usage input output =
    estimate_for_token_counts model (or_estimate usage.reported_prompt input) (
      or_estimate
        (max_token_count usage.reported_completion
          (completion_from_total usage.reported_prompt usage.reported_total))
        output)

-- `estimateEmbeddingUsage`: the neurons and the tokens
unfoldable pub estimate_embedding_usage : String → Text → ℕ × ℕ
estimate_embedding_usage model text =
    let tokens = estimate_tokens_from_text text in
    (ceil_millions (tokens * (get_rates model bge_m3_rates).input_rate), tokens)
