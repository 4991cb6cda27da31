-- ===== src/Rule/Laws.antt =====
-- Which rules apply to a message.
use mail_otter.Base.{
  ◌≡◌, ap, arith, refl, List, [], ◌∷◌, ◌++◌, Bool, true, false, ◌&&◌, Option, none, some,
  if◌then◌else◌, Bool-cases, inl, inr, All,
}
use mail_otter.Action.{Text}
use mail_otter.Rule.{
  Rule, RuleContext, is_pre_processing, matches_conditions, evaluate_pre_processing,
}

module _ (to_lower_case : Text → Text) (ctx : RuleContext) where
  -- The rule applies before the message is summarized.
  abbrev pub applies_before : Rule → Bool
  applies_before rule =
      rule.enabled && (is_pre_processing rule.action && matches_conditions to_lower_case rule ctx)

  -- The rule is the first of the list that applies.
  abbrev pub IsFirst : List Rule → Rule → Type 0
  IsFirst rules rule =
      (earlier : List Rule) × (later : List Rule) × (rules ≡ earlier ++ rule ∷ later)
      × All (λ r. applies_before r ≡ false) earlier
      × (applies_before rule ≡ true)

  -- The answer of a search for the first rule that applies.
  abbrev pub Answers : List Rule → Option Rule → Type 0
  Answers rules none = All (λ r. applies_before r ≡ false) rules
  Answers rules (some rule) = IsFirst rules rule

  later-Answers :
      (r : Rule) (rules : List Rule) (o : Option Rule)
      → applies_before r ≡ false
      → Answers rules o
      → Answers (r ∷ rules) o
  later-Answers r rules none no_match h = (no_match, h)
  later-Answers r rules (some rule) no_match (earlier, later, split, before, here) =
      (r ∷ earlier, later, ap (◌∷◌ r) split, (no_match, before), here)

  evaluate_pre_processing-cons :
      (rule : Rule) (rules : List Rule)
      → evaluate_pre_processing to_lower_case (rule ∷ rules) ctx ≡ (
          if applies_before rule
          then some rule
          else evaluate_pre_processing to_lower_case rules ctx)
  unfolding evaluate_pre_processing
  evaluate_pre_processing-cons rule rules = ground arith

  nothing_chosen : Answers [] (evaluate_pre_processing to_lower_case [] ctx)
  unfolding evaluate_pre_processing
  nothing_chosen = tt

  -- The rule chosen before the summary is the first of the list that is enabled, of that phase and
  -- matches the message; no rule is chosen where none of them does.
  pub evaluate_pre_processing_lem :
      (rules : List Rule) → Answers rules (evaluate_pre_processing to_lower_case rules ctx)
  evaluate_pre_processing_lem [] = nothing_chosen
  evaluate_pre_processing_lem (rule ∷ rules) =
      let ih = evaluate_pre_processing_lem rules in
      let skipping = later-Answers rule rules (evaluate_pre_processing to_lower_case rules ctx) in
      elim (Bool-cases (applies_before rule)) [
        | inr off ↦ rw (evaluate_pre_processing-cons rule rules, off) (skipping off ih)
        | inl on ↦ rw (evaluate_pre_processing-cons rule rules, on) ([], rules, refl, tt, on)
      ]
