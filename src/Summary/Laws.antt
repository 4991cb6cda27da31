-- ===== src/Summary/Laws.antt =====
-- Which models a summary calls, and what is recorded of them.
use mail_otter.Base.{
  ℕ, ◌+◌, ◌≤◌, ◌<◌, ◌≡◌, ◌≢◌, refl, arith, String, str_eq, str_eq_iff, List, [], ◌∷◌, ◌⊎◌, inl, inr,
  false, Bool-cases, Option, leb,
}
use mail_otter.Action.{Text}
use mail_otter.Pipeline.{PipelineError}
use mail_otter.Usage.{TextUsage, estimate_text_generation_usage}
use mail_otter.Usage.Daily.{
  UsageTable, get_estimated_neurons_for_date, get_estimated_neurons_for_date-increment_usage,
}
use mail_otter.Summary.{
  ModelAnswer, answered, retryable_failure, other_failure, SummaryInput, SummaryRun, SummaryResult,
  summarized, failed, projected_neurons, resolve_summary_model, record_summary_usage, increment_of,
  finish, second_call, first_call, summarize, or_text, record_failure,
}

module _ {A : Type 0} (s : SummaryInput A) where
  -- The neurons that a call is estimated at: nothing is known of one that failed otherwise.
  abbrev pub cost : String → ModelAnswer A → ℕ
  cost model (answered r) =
      (estimate_text_generation_usage model r.usage s.prompt_text r.summary).estimated_neurons
  cost model (retryable_failure usage output e) =
      (estimate_text_generation_usage model usage s.prompt_text (or_text output)).estimated_neurons
  cost model (other_failure e) = 0

  abbrev pub total_cost : List String → ℕ
  total_cost [] = 0
  total_cost (model ∷ models) = cost model (s.run_model model) + total_cost models

  abbrev pub neurons_on : String → UsageTable → ℕ
  neurons_on date t = get_estimated_neurons_for_date date t

  -- A result is that of the last model called.
  abbrev pub IsOf : List String → SummaryResult A → Type 0
  IsOf [] r = ⊥
  IsOf (m ∷ []) (summarized r) = r.summary_model ≡ m
  IsOf (m ∷ []) (failed e) = Unit
  IsOf (m ∷ n ∷ ms) r = IsOf (n ∷ ms) r

  module _ (date : String) (same_day : (k : ℕ) → s.usage_date k ≡ date)
      (writable : (k : ℕ) → s.write_throws k ≡ false) where
    record_summary_usage-neurons :
        (k : ℕ) (model : String) (usage : TextUsage) (output : Text) (t : UsageTable)
        → neurons_on date (record_summary_usage s k model usage output t).0
          ≡ neurons_on date t
            + (estimate_text_generation_usage model usage s.prompt_text output).estimated_neurons
    unfolding record_summary_usage
    record_summary_usage-neurons k model usage output t =
        let e = estimate_text_generation_usage model usage s.prompt_text output in
        let added =
          get_estimated_neurons_for_date-increment_usage (s.clock k) (increment_of s k e) t in
        rw (writable k, same_day k) (rw (same_day k) at added)

    -- A run that accounts for its calls.
    abbrev Accounts : UsageTable → SummaryRun A → Type 0
    Accounts t r =
        (neurons_on date r.usage_table ≡ neurons_on date t + total_cost r.called)
        × IsOf r.called r.result

    second_call-Accounts :
        (model : String) (spent : ℕ) (answer : ModelAnswer A) (t t' : UsageTable)
        → s.run_model s.fallback_model ≡ answer
        → cost model (s.run_model model) ≡ spent
        → neurons_on date t' ≡ neurons_on date t + spent
        → Accounts t (second_call s (model ∷ s.fallback_model ∷ []) answer t')
    unfolding second_call finish
    second_call-Accounts model spent (answered r) t t' came first h =
        let recorded = record_summary_usage-neurons 2 s.fallback_model r.usage r.summary t' in
        rw (first, came) (omega (arith, recorded, h), refl)
    second_call-Accounts model spent (retryable_failure usage output e) t t' came first h =
        let recorded = record_summary_usage-neurons 2 s.fallback_model usage (or_text output) t' in
        rw (first, came) (omega (arith, recorded, h), tt)
    second_call-Accounts model spent (other_failure e) t t' came first h =
        rw (first, came) (omega (arith, h), tt)

    first_call-Accounts :
        (model : String) (answer : ModelAnswer A) (t : UsageTable)
        → s.run_model model ≡ answer
        → Accounts t (first_call s model answer t)
    unfolding first_call finish
    first_call-Accounts model (answered r) t came =
        let recorded = record_summary_usage-neurons 1 model r.usage r.summary t in
        rw came (omega (arith, recorded), refl)
    first_call-Accounts model (other_failure e) t came = rw came (omega arith, tt)
    first_call-Accounts model (retryable_failure usage output e) t came =
        let recorded = record_summary_usage-neurons 1 model usage (or_text output) t in
        let t' = record_failure s 1 model usage output t in
        elim (Bool-cases (str_eq model s.fallback_model)) [
          | inl same ↦ rw same (rw came (omega (arith, recorded), tt))
          | inr other ↦ rw other (
              second_call-Accounts model (cost model (s.run_model model))
                (s.run_model s.fallback_model) t t' refl refl (rw came recorded))
        ]

    -- While the table of usage can be written and the day does not change: a summary adds to the day's
    -- neurons the estimates of all models that it called, those that failed in a way that may be tried
    -- again included. A result is that of the last model called.
    pub summarize-Accounts :
        (t : UsageTable)
        → let run = summarize s t in
          (neurons_on date run.usage_table ≡ neurons_on date t + total_cost run.called)
          × IsOf run.called run.result
    unfolding summarize
    summarize-Accounts t =
        first_call-Accounts (resolve_summary_model s t) (s.run_model (resolve_summary_model s t)) t
          refl

  -- One model is called or two, the second after a failure of the first that may be tried again.
  abbrev pub CalledInOrder : UsageTable → List String → Type 0
  CalledInOrder t [] = ⊥
  CalledInOrder t (m ∷ []) = m ≡ resolve_summary_model s t
  CalledInOrder t (m ∷ n ∷ []) =
      (m ≡ resolve_summary_model s t)
      × (n ≡ s.fallback_model)
      × (m ≢ n)
      × (usage : TextUsage) × (output : Option Text) × (e : PipelineError) × (s.run_model m
          ≡ retryable_failure usage output e)
  CalledInOrder t (m ∷ n ∷ k ∷ ms) = ⊥

  second_call-called :
      (called : List String) (answer : ModelAnswer A) (t : UsageTable)
      → (second_call s called answer t).called ≡ called
  unfolding second_call finish
  second_call-called called (answered r) t = refl
  second_call-called called (retryable_failure usage output e) t = refl
  second_call-called called (other_failure e) t = refl

  first_call-CalledInOrder :
      (t0 : UsageTable) (model : String) (answer : ModelAnswer A) (t : UsageTable)
      → model ≡ resolve_summary_model s t0
      → s.run_model model ≡ answer
      → CalledInOrder t0 (first_call s model answer t).called
  unfolding first_call finish
  first_call-CalledInOrder t0 model (answered r) t is came = is
  first_call-CalledInOrder t0 model (other_failure e) t is came = is
  first_call-CalledInOrder t0 model (retryable_failure usage output e) t is came =
      elim (Bool-cases (str_eq model s.fallback_model)) [
        | inl same ↦ rw same is
        | inr other ↦
            rw
              (
                other,
                second_call-called (model ∷ s.fallback_model ∷ []) (s.run_model s.fallback_model)
                    (record_failure s 1 model usage output t),
              )
              (
                is,
                refl,
                λ equal.
                    let bad = (str_eq_iff model s.fallback_model).1 equal in
                    ground (arith, bad, other),
                usage,
                output,
                e,
                came,
              )
      ]

  -- The first model: the fallback model, or the primary one while there is room for it.
  abbrev pub WithinThreshold : UsageTable → String → Type 0
  WithinThreshold t model =
      (model ≡ s.fallback_model)
      ⊎ ((model ≡ s.primary_model)
          × (get_estimated_neurons_for_date (s.usage_date 0) t + projected_neurons s
              < s.fallback_threshold))

  resolve_summary_model-WithinThreshold :
      (t : UsageTable)
      → s.read_throws ≡ false
      → 1 ≤ s.fallback_threshold
      → WithinThreshold t (resolve_summary_model s t)
  unfolding resolve_summary_model
  resolve_summary_model-WithinThreshold t reads on =
      let used = get_estimated_neurons_for_date (s.usage_date 0) t + projected_neurons s in
      let has_threshold : leb s.fallback_threshold 0 ≡ false = ground (arith, on) in
      elim (Bool-cases (leb s.fallback_threshold used)) [
        | inl full ↦ inl (rw (has_threshold, full, reads) refl)
        | inr room ↦ inr (rw (has_threshold, room, reads) refl, ground (arith, room))
      ]

  -- With a threshold and a table of usage that can be read, a summary calls one model or two. The first
  -- is the fallback model, or the primary one while the day's neurons and those that the prompt is
  -- projected to cost stay below the threshold. A second one is called only after the first failed
  -- in a way that may be tried again, and it is the fallback model where the first was another.
  pub summarize-CalledInOrder :
      (t : UsageTable)
      → s.read_throws ≡ false
      → 1 ≤ s.fallback_threshold
      → CalledInOrder t (summarize s t).called × WithinThreshold t (resolve_summary_model s t)
  unfolding summarize
  summarize-CalledInOrder t reads on =
      let model = resolve_summary_model s t in
      (
        first_call-CalledInOrder t model (s.run_model model) t refl refl,
        resolve_summary_model-WithinThreshold t reads on,
      )
