-- ===== src/Tests/Messages.antt =====
-- Runs of the operations on messages, and of the pipeline.
use mail_otter.Base.{
  String, ℕ, ◌+◌, ◌≤◌, ◌≡◌, arith, refl, str_eq_refl, List, [], ◌∷◌, none, some, true, false,
  count_where, codes,
}
use mail_otter.Action.{ProviderId}
use mail_otter.Message.{
  Statement, has_key, perform, perform_all, try_start, MessageStatus, claim_retry, insert_or_ignore,
}
use mail_otter.Message.Claims.{all_takes, takes_of}
use mail_otter.Message.Once.{taken_once}
use mail_otter.Pipeline.{
  PipelineError, classify_pipeline_error, FetchedEmail, Fetch, Ending, Stages, run_generate,
  process, after_fetch, settle, take_up, record_fetch_error,
}
use mail_otter.Pipeline.Laws.{Recorded, run_generate_records, run_generate_fetch-Recorded}
use mail_otter.Tests.Data.{letter, letter_input, failed_letter}

abbrev again : Statement
again = Statement.retry 100 letter MessageStatus.error (some "t1") none

abbrev rush : List Statement
rush =
    Statement.insert 200 "m2" letter_input
    ∷ Statement.retry 900 letter MessageStatus.processing none none
    ∷ Statement.prune 100 (MessageStatus.processing ∷ []) 10
    ∷ []

again_takes : takes_of letter again (failed_letter ∷ []) ≡ 1
unfolding takes_of perform claim_retry count_where
again_takes = rw (str_eq_refl "app", str_eq_refl "g1") refl

one_letter : count_where (has_key letter) (failed_letter ∷ []) ≤ 1
unfolding count_where
one_letter = rw (str_eq_refl "app", str_eq_refl "g1") (omega arith)

taken_once_example : all_takes letter rush (perform again (failed_letter ∷ [])).0 ≡ 0
taken_once_example =
    taken_once letter again (failed_letter ∷ []) one_letter (omega (arith, again_takes)) rush
      (tt, (omega arith, (omega arith, tt)))

abbrev clock : ℕ → ℕ
clock k = 1000 + k

abbrev nobody : ℕ → List Statement
nobody k = []

abbrev email : FetchedEmail
email = record {
  message_id = "g1";
  thread_id = none;
  from = codes "Bob <bob@x.org>";
  subject = codes "Hello";
  body = codes "Hi";
  has_attachment = false;
  fingerprint_input = none;
}

abbrev no_answer : PipelineError
no_answer = PipelineError.unclassified (codes "no answer")

-- Stages at the first attempt, whose summary fails.
abbrev stages : Fetch → Stages String
stages fetch = record {
  application_id = "app";
  provider_id = ProviderId.google_gmail;
  retry_attempt = some 1;
  clock = clock;
  others = nobody;
  fresh_id = "m1";
  is_daily = λ e. false;
  fetch = fetch;
  record_error = true;
  fingerprint = λ input. none;
  summarize = λ email t. (t, Ending.raised no_answer);
}

abbrev answer : PipelineError
answer = PipelineError.retryable (codes "no answer")

failing_run : (run_generate (stages (Fetch.fetched email)) []).1 ≡ Ending.raised answer
unfolding run_generate after_fetch process settle take_up try_start insert_or_ignore perform_all
    classify_pipeline_error
failing_run = refl

run_generate_records_example :
    Recorded
      (stages (Fetch.fetched email))
      "g1"
      answer
      (run_generate (stages (Fetch.fetched email)) []).0
run_generate_records_example =
    run_generate_records (stages (Fetch.fetched email)) email [] answer refl failing_run

failing_fetch :
    (run_generate (stages (Fetch.fetch_failed "g1" no_answer)) []).1 ≡ Ending.raised answer
unfolding run_generate after_fetch record_fetch_error take_up try_start insert_or_ignore perform_all
    classify_pipeline_error
failing_fetch = refl

run_generate_fetch-Recorded_example :
    Recorded
      (stages (Fetch.fetch_failed "g1" no_answer))
      "g1"
      answer
      (run_generate (stages (Fetch.fetch_failed "g1" no_answer)) []).0
run_generate_fetch-Recorded_example =
    run_generate_fetch-Recorded (stages (Fetch.fetch_failed "g1" no_answer)) "g1" no_answer []
      answer refl refl failing_fetch
