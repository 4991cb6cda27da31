-- ===== src/Tests/Filters.antt =====
-- Runs of the filter of senders and of the rules.
use mail_otter.Base.{◌∈◌, ◌⊎◌, arith, ◌≡◌, ◌↔◌, refl, [], ◌∷◌, true, none, codes}
use mail_otter.Action.{Text}
use mail_otter.Action.{Text}
use mail_otter.Sender.{
  should_skip, pass, trim_start, ends_with, text_eq, index_of, index_of_from, extract_email_address,
  matches_pattern, trim, starts_with,
}
use mail_otter.Sender.Laws.{extract_email_address-brackets}
use mail_otter.Sender.Filter.{Admits, should_skip-pass}
use mail_otter.Rule.{
  Rule, RuleContext, RuleAction, Matcher, MatcherField, MatcherOp, Operator,
  evaluate_pre_processing,
}
use mail_otter.Rule.Laws.{Answers, evaluate_pre_processing_lem}
use mail_otter.Tests.Data.{ascii_lower}

extract_email_address-brackets_example :
    extract_email_address ascii_lower (codes "Bob <Bob@X.org> (work)") ≡ codes "bob@x.org"
unfolding trim ascii_lower
extract_email_address-brackets_example =
    extract_email_address-brackets ascii_lower (codes "Bob ") (codes "Bob@X.org") (codes " (work)")
      (ground arith) (ground arith)

should_skip-pass_example :
    (should_skip ascii_lower (codes "Bob <bob@x.org>") (codes "a@y.org" ∷ codes " @X.org" ∷ [])
      ≡ pass)
    ↔ ((codes "a@y.org" ∷ codes " @X.org" ∷ [] ≡ [])
        ⊎ ((r : Text) × (r ∈ codes "a@y.org" ∷ codes " @X.org" ∷ [])
            × Admits ascii_lower (extract_email_address ascii_lower (codes "Bob <bob@x.org>")) r))
should_skip-pass_example =
    should_skip-pass ascii_lower (codes "Bob <bob@x.org>") (codes "a@y.org" ∷ codes " @X.org" ∷ [])

domain_passes :
    should_skip ascii_lower (codes "Bob <bob@x.org>") (codes "a@y.org" ∷ codes " @X.org" ∷ [])
    ≡ pass
unfolding should_skip extract_email_address matches_pattern trim trim_start starts_with ends_with
    text_eq index_of index_of_from ascii_lower
domain_passes = refl

abbrev about_sales : Matcher
about_sales = record { field = MatcherField.subject; op = MatcherOp.contains; value = codes "Sale" }

abbrev drop_sales : Rule
drop_sales = record {
  rule_id = "r1";
  name = "No sales";
  enabled = true;
  operator = Operator.any_of;
  matchers = about_sales ∷ [];
  action = RuleAction.skip;
}

abbrev file_sales : Rule
file_sales = record drop_sales { rule_id = "r0"; action = RuleAction.archive_message }

abbrev sale : RuleContext
sale = record {
  from = codes "shop@x.org";
  subject = codes "Summer sale";
  body = [];
  has_attachment = none;
  detected_action_types = none;
}

evaluate_pre_processing_example :
    Answers ascii_lower sale
      (file_sales ∷ drop_sales ∷ [])
      (evaluate_pre_processing ascii_lower (file_sales ∷ drop_sales ∷ []) sale)
evaluate_pre_processing_example =
    evaluate_pre_processing_lem ascii_lower sale (file_sales ∷ drop_sales ∷ [])
