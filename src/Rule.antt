-- ===== src/Rule.antt =====
-- packages/backend-services/src/email/EmailRulesUtil.ts and packages/shared/src/model/EmailRule.ts: the
-- rules that a user defines for his messages.
pub mod Laws
use mail_otter.Base.{
  ℕ, String, str_eq, List, [], ◌∷◌, Bool, true, false, ◌&&◌, ◌||◌, not, Option, none, some,
  if◌then◌else◌, any, all, codes,
}
use mail_otter.Action.{Text}
use mail_otter.Sender.{text_eq, includes, extract_email_address, matches_pattern}

pub data MatcherField : Type 0 where
  from subject body has_attachment detected_action_type always : MatcherField

pub data MatcherOp : Type 0 where
  contains not_contains matches_sender is_value includes_type not_includes_type match_all :
      MatcherOp

-- `EmailRuleConditionMatcher`; the value of an `always` matcher is not read.
pub record Matcher : Type 0 where
  pub field : MatcherField
  pub op : MatcherOp
  pub value : Text

pub data Operator : Type 0 where
  all_of any_of : Operator

pub data RuleAction : Type 0 where
  skip skip_actions : RuleAction
  prepend_instruction : Option Text → RuleAction
  apply_label : Text → RuleAction
  archive_message mark_read star_message : RuleAction

-- `EmailProcessingRule`, its condition in two fields
pub record Rule : Type 0 where
  pub rule_id : String
  pub name : String
  pub enabled : Bool
  pub operator : Operator
  pub matchers : List Matcher
  pub action : RuleAction

pub record RuleContext : Type 0 where
  pub from : Text
  pub subject : Text
  pub body : Text
  pub has_attachment : Option Bool
  pub detected_action_types : Option (List Text)

-- `isPreProcessingRule`, by the set of PRE_PROCESSING_ACTION_TYPES
unfoldable pub is_pre_processing : RuleAction → Bool
is_pre_processing skip = true
is_pre_processing skip_actions = true
is_pre_processing (prepend_instruction _) = true
is_pre_processing _ = false

-- `isPostProcessingRule`, by the set of POST_PROCESSING_ACTION_TYPES
unfoldable pub is_post_processing : RuleAction → Bool
is_post_processing (apply_label _) = true
is_post_processing archive_message = true
is_post_processing mark_read = true
is_post_processing star_message = true
is_post_processing _ = false

-- `ctx.hasAttachment === true`
abbrev pub is_true : Option Bool → Bool
is_true (some true) = true
is_true _ = false

abbrev pub or_empty : Option (List Text) → List Text
or_empty none = []
or_empty (some types) = types

abbrev pub is_includes : MatcherOp → Bool
is_includes includes_type = true
is_includes _ = false

abbrev pub is_contains : MatcherOp → Bool
is_contains contains = true
is_contains _ = false

abbrev pub field_value : MatcherField → RuleContext → Text
field_value from ctx = ctx.from
field_value subject ctx = ctx.subject
field_value body ctx = ctx.body
field_value _ ctx = []

module _ (to_lower_case : Text → Text) where
  -- The last part of `matchesMatcher`: a test of a text, or of the sender.
  matches_text : MatcherField → MatcherOp → Text → RuleContext → Bool
  matches_text field matches_sender value ctx =
      matches_pattern to_lower_case (extract_email_address to_lower_case ctx.from) value
  matches_text field op value ctx =
      let found = includes (to_lower_case (field_value field ctx)) (to_lower_case value) in
      if is_contains op then found else not found

  matches_field : MatcherField → MatcherOp → Text → RuleContext → Bool
  unfolding matches_text
  matches_field always op value ctx = true
  matches_field has_attachment op value ctx =
      let present = is_true ctx.has_attachment in
      if text_eq value (codes "true") then present else not present
  matches_field detected_action_type op value ctx =
      let found = any (text_eq value) (or_empty ctx.detected_action_types) in
      if is_includes op then found else not found
  matches_field field op value ctx = matches_text field op value ctx

  unfoldable pub matches_matcher : Matcher → RuleContext → Bool
  unfolding matches_field
  matches_matcher m ctx = matches_field m.field m.op m.value ctx

  matches_operator : Operator → List Matcher → RuleContext → Bool
  matches_operator any_of ms ctx = any (λ m. matches_matcher m ctx) ms
  matches_operator all_of ms ctx = all (λ m. matches_matcher m ctx) ms

  unfoldable pub matches_conditions : Rule → RuleContext → Bool
  unfolding matches_operator
  matches_conditions rule ctx = matches_operator rule.operator rule.matchers ctx

  -- The first rule that is enabled, of the phase before the summary, and matches.
  unfoldable pub evaluate_pre_processing : List Rule → RuleContext → Option Rule
  evaluate_pre_processing [] ctx = none
  evaluate_pre_processing (rule ∷ rules) ctx =
      if not rule.enabled || not (is_pre_processing rule.action)
      then evaluate_pre_processing rules ctx
      else if matches_conditions rule ctx
      then some rule
      else evaluate_pre_processing rules ctx

  -- All rules that are enabled, of the phase after the summary, and match, in their order.
  unfoldable pub evaluate_post_processing : List Rule → RuleContext → List Rule
  evaluate_post_processing [] ctx = []
  evaluate_post_processing (rule ∷ rules) ctx =
      let rest = evaluate_post_processing rules ctx in
      if not rule.enabled || not (is_post_processing rule.action)
      then rest
      else if matches_conditions rule ctx
      then rule ∷ rest
      else rest
