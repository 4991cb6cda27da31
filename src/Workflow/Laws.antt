-- ===== src/Workflow/Laws.antt =====
-- What a run of the workflow does, in what order, and what it has done where it finishes.
use mail_otter.Base.{ℕ, ◌≡◌, arith, String, List, [], ◌∈◌, Option}
use mail_otter.Workflow.{
  Result, ok, err, Answer, outlook, jmap, Payload, gmail_notification, outlook_notification,
  jmap_notification, imap_notification, MessageList, Event, resolved, listed, connected, closed,
  Log, Flow, Platform, Services, ◌>>◌, call, bare_call, unless_failed, finally, imap_refs,
  handle_messages, on_gmail_list, on_gmail, on_imap, on_payload, on_workflow,
}
use mail_otter.Workflow.Steps.{Documented, Ensures}
use mail_otter.Workflow.Order.{
  ListHandled, Handled, AllHandled, Entitled, InOrder, AllHandled-later, Lasting, Kept, sequel,
  with_facts,
}
use mail_otter.Workflow.Messages.{
  call_step-Ensures, handle_message-Handled, handle_messages-Handled, on_gmail_list-Handled,
}

unless_failed-ok : (c r : Result Unit) (a : Unit) → unless_failed c r ≡ ok a → r ≡ ok tt
unless_failed-ok (ok b) r a e = e
unless_failed-ok (err w) r a e = absurd (ground arith)

module _ {S : Type 0} where
  -- What a run that finishes has done: the Gmail history was read, and what it listed was dealt with
  -- and the history moved on; or the messages of the notification were dealt with.
  abbrev pub Done : Payload → Log S → Type 0
  Done (gmail_notification history_id) log =
      (o : Option MessageList) × (listed (ok o) ∈ log) × ListHandled o log
  Done (outlook_notification message_id) log = Handled (outlook message_id) log
  Done (jmap_notification email_id) log = Handled (jmap email_id) log
  Done (imap_notification uids) log = AllHandled (imap_refs uids) log

  abbrev NoFact : Log S → Type 0
  NoFact log = Unit

  lasting_trivially : Lasting NoFact
  lasting_trivially e log h = tt

  bare_call-Ensures :
      (F : Log S → Type 0) (event : Event S) (service : Log S → Answer Unit)
      → Lasting F
      → ((log : Log S) → Entitled event log)
      → Ensures (Kept F) (λ _ log. NoFact log) (bare_call event service)
  bare_call-Ensures F event service lasting entitled log (o, f) =
      (((entitled log, o), lasting event log f), λ a e. tt)

  -- A flow whose clean-up is one call ensures what lasts.
  finally-Ensures :
      (Q : Log S → Type 0) (m : Flow S Unit) (event : Event S) (service : Log S → Answer Unit)
      → Lasting Q
      → ((log : Log S) → Entitled event log)
      → Ensures (Kept NoFact) (λ _ log. Q log) m
      → Ensures (Kept NoFact) (λ _ log. Q log) (finally m (bare_call event service))
  finally-Ensures Q m event service lasting entitled main log h =
      let (kept, post) = main log h in
      let c = (bare_call event service (m log).0).1 in
      (
        ((entitled (m log).0, kept.0), tt),
        λ a e. lasting event (m log).0 (post tt (unless_failed-ok c (m log).1 a e)),
      )

module _ {R S : Type 0} (p : Platform S) (s : Services R S) (doc : Documented p) where
  on_gmail-Done :
      (r : R) (history_id : String)
      → Ensures
          (Kept NoFact)
          (λ _ log. Done (gmail_notification history_id) log)
          (on_gmail p s r history_id)
  unfolding on_gmail
  on_gmail-Done r history_id =
      sequel NoFact (λ o log. (n : ℕ) × (listed (ok o) ∈ log))
        (λ _ log. Done (gmail_notification history_id) log)
        (p.step_do 3 (λ _. call listed (s.list_messages r history_id))) (on_gmail_list p s r)
        (call_step-Ensures p s doc NoFact 3 (λ _. listed) (λ _. s.list_messages r history_id)
          lasting_trivially (λ n a log f. tt))
        (λ o log kept.
          let (after, post) = on_gmail_list-Handled p s doc r o log (kept.0, kept.1.1) in
          ((after.0, (tt, after.1)), λ a e. (o, after.1.1, post a e)))

  on_imap-Done :
      (r : R) (uids : List ℕ)
      → Ensures (Kept NoFact) (λ _ log. AllHandled (imap_refs uids) log) (on_imap p s r uids)
  unfolding on_imap
  on_imap-Done r uids =
      let refs = imap_refs uids in
      let main = bare_call connected (s.connect r) >> handle_messages p s r refs in
      finally-Ensures (AllHandled refs) main closed s.close
        (λ e log h. AllHandled-later refs e log h) (λ log. tt)
        (sequel NoFact (λ _ log. NoFact log) (λ _ log. AllHandled refs log)
          (bare_call connected (s.connect r)) (λ _. handle_messages p s r refs)
          (bare_call-Ensures NoFact connected (s.connect r) lasting_trivially (λ log. tt))
          (λ _.
            handle_messages-Handled p s doc (λ log. NoFact log × NoFact log) r refs
              (λ e log h. (tt, tt))))

  on_payload-Done :
      (payload : Payload) (r : R)
      → Ensures (Kept NoFact) (λ _ log. Done payload log) (on_payload p s payload r)
  unfolding on_payload
  on_payload-Done (gmail_notification history_id) r = on_gmail-Done r history_id
  on_payload-Done (outlook_notification message_id) r =
      handle_message-Handled p s doc NoFact r (outlook message_id) lasting_trivially
  on_payload-Done (jmap_notification email_id) r =
      handle_message-Handled p s doc NoFact r (jmap email_id) lasting_trivially
  on_payload-Done (imap_notification uids) r = on_imap-Done r uids

  on_workflow-Done :
      (payload : Payload)
      → Ensures (Kept NoFact) (λ _ log. Done payload log) (on_workflow p s payload)
  unfolding on_workflow
  on_workflow-Done payload =
      sequel NoFact (λ _ log. NoFact log) (λ _ log. Done payload log)
        (p.step_do 3 (λ _. call (λ _. resolved) s.resolve_application)) (on_payload p s payload)
        (with_facts NoFact (λ (a : R) log. (n : ℕ) × (resolved ∈ log)) (λ _ log. NoFact log)
          (p.step_do 3 (λ _. call (λ _. resolved) s.resolve_application)) (λ a log f h. tt)
          (call_step-Ensures p s doc NoFact 3 (λ _ _. resolved) (λ _. s.resolve_application)
            lasting_trivially (λ n a log f. tt)))
        (λ r log kept.
          let (after, post) = on_payload-Done payload r log (kept.0, tt) in
          ((after.0, (tt, tt)), post))

  -- Whatever the services answer, and however often the platform repeats a step, as long as it keeps to
  -- the documented contract of a step: in the calls that a
  -- run makes, a summary is sent only after it was generated for some message, it is passed to the
  -- integrations only after it was sent, and the Gmail history is moved on, to where a list of
  -- messages said, only after every message of this list was dealt with.
  pub on_workflow-InOrder : (payload : Payload) → InOrder (on_workflow p s payload []).0
  on_workflow-InOrder payload = (on_workflow-Done payload [] (tt, tt)).0.0

  -- On a platform that keeps to the contract of a step, a run that finishes has dealt with every message of its notification: each was found to need no
  -- summary, or its summary was generated, sent and passed on. For Gmail these are the messages that
  -- the provider listed, if it gave a list, and then the history was moved on.
  pub on_workflow_finished :
      (payload : Payload)
      → (on_workflow p s payload []).1 ≡ ok tt
      → Done payload (on_workflow p s payload []).0
  on_workflow_finished payload e = (on_workflow-Done payload [] (tt, tt)).1 tt e
