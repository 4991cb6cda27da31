-- ===== src/Workflow/Bounds.antt =====
-- How many calls a run of the workflow makes.
use mail_otter.Base.{
  ℕ, suc, ◌+◌, ◌*◌, ◌≤◌, ◌≡◌, refl, ap, arith, String, List, [], ◌∷◌, Option, none, some, length,
}
use mail_otter.Workflow.{
  Result, ok, err, Answer, gave, threw, MessageRef, outlook, jmap, Payload, gmail_notification,
  outlook_notification, jmap_notification, imap_notification, MessageList, Event, resolved, listed,
  generated, sent, integrated, history_updated, connected, Log, Flow, Platform, Services, ◌>>=◌,
  ◌>>◌, resume, call, bare_call, caught, gmail_refs, imap_refs, deliver, handle_message,
  handle_messages, update_history_step, on_gmail_list, on_gmail, on_imap, on_payload, on_workflow,
}
use mail_otter.Workflow.Steps.{Documented, Attempts, finished, failed, again}

abbrev Whatever : Unit {0} → Type 0
Whatever _ = Unit

module _ {S : Type 0} where
  -- `m` makes at most `k` calls, and a value that it gives satisfies `Q`.
  abbrev Within : {A : Type 0} → ℕ → (A → Type 0) → Flow S A → Type 0
  Within {A = A} k Q m =
      (log : Log S) → (length (m log).0 ≤ length log + k) × ((a : A) → (m log).1 ≡ ok a → Q a)

  Attempts-Within :
      {A : Type 0} (Q : A → Type 0) (limit : ℕ) (body : ℕ → Flow S A)
      → ((n : ℕ) → Within 1 Q (body n))
      → (n : ℕ) (log : Log S) (o : Log S × Result A) → Attempts limit body n log o
      → n ≤ limit + 1
      → (length o.0 + n ≤ length log + limit + 2) × ((a : A) → o.1 ≡ ok a → Q a)
  Attempts-Within Q limit body one n log o finished le = let (l, q) = one n log in (omega arith, q)
  Attempts-Within Q limit body one n log o (failed e) le =
      let (l, q) = one n log in (omega arith, λ a bad. absurd (ground arith))
  Attempts-Within Q limit body one n log o (again more_left more) le =
      let (l, q) = one n log in
      let (ls, qs) = Attempts-Within Q limit body one (suc n) (body n log).0 o more (omega arith) in
      (omega arith, qs)

  bind-Within :
      {A B : Type 0} (k j : ℕ) (Q : A → Type 0) (P : B → Type 0) (m : Flow S A) (f : A → Flow S B)
      → Within k Q m
      → ((a : A) → Q a → Within j P (f a))
      → Within (k + j) P (m >>= f)
  unfolding ◌>>=◌
  bind-Within {A = A} {B = B} k j Q P m f first second log = after (m log) (first log)
    where
      after :
          (o : Log S × Result A)
          → (length o.0 ≤ length log + k) × ((a : A) → o.1 ≡ ok a → Q a)
          → (length (resume o f).0 ≤ length log + (k + j)) × ((b : B) → (resume o f).1 ≡ ok b → P b)
      after (log', ok a) (l, q) = let (l', post) = second a (q a refl) log' in (omega arith, post)
      after (log', err e) (l, q) = (omega arith, λ b bad. absurd (ground arith))

  weaken_Within :
      {A : Type 0} (k j : ℕ) (Q : A → Type 0) (m : Flow S A) → k ≤ j → Within k Q m → Within j Q m
  weaken_Within k j Q m le h log = let (l, q) = h log in (omega arith, q)

length-gmail_refs : (ids : List String) → length (gmail_refs ids) ≡ length ids
length-gmail_refs [] = refl
length-gmail_refs (id ∷ ids) = ap suc (length-gmail_refs ids)

length-imap_refs : (uids : List ℕ) → length (imap_refs uids) ≡ length uids
length-imap_refs [] = refl
length-imap_refs (uid ∷ uids) = ap suc (length-imap_refs uids)

caught-ok : {A : Type 0} (r : Answer A) (a : A) → caught r ≡ ok a → r ≡ gave a
caught-ok (gave b) a e = ground arith
caught-ok (threw f) a e = absurd (ground arith)

-- The provider lists at most `n` messages.
abbrev pub ListsAtMost : ℕ → Option MessageList → Type 0
ListsAtMost n none = Unit
ListsAtMost n (some l) = length l.message_ids ≤ n

-- How many messages a notification is about.
abbrev pub size : ℕ → Payload → ℕ
size n (gmail_notification _) = n
size n (outlook_notification _) = 1
size n (jmap_notification _) = 1
size n (imap_notification uids) = length uids

module _ {R S : Type 0} (p : Platform S) (s : Services R S) (doc : Documented p) where
  -- A step that makes one call in each attempt.
  call_step-Within :
      {A : Type 0} (Q : A → Type 0) (limit : ℕ) (event : ℕ → Result A → Event S)
      (service : ℕ → Log S → Answer A)
      → ((n : ℕ) (log : Log S) (a : A) → caught (service n log) ≡ ok a → Q a)
      → Within (limit + 1) Q (p.step_do limit (λ n. call (event n) (service n)))
  call_step-Within {A = A} Q limit event service holds log =
      let body = λ (n : ℕ). call (event n) (service n) in
      let (l, q) =
        Attempts-Within Q limit body (λ n log'. (omega arith, λ a e. holds n log' a e)) 1 log
          (p.step_do limit body log) (doc A limit body log) (omega arith) in
      (omega arith, q)

  plain_step-Within :
      (limit : ℕ) (event : ℕ → Result Unit → Event S) (service : ℕ → Log S → Answer Unit)
      → Within (limit + 1) Whatever (p.step_do limit (λ n. call (event n) (service n)))
  plain_step-Within limit event service =
      call_step-Within Whatever limit event service (λ n log a e. tt)

  deliver-Within : (o : Option S) → Within 7 Whatever (deliver p s o)
  unfolding deliver
  deliver-Within none = λ log. (omega arith, λ a e. tt)
  deliver-Within (some d) =
      bind-Within 4 3 Whatever Whatever (p.step_do 3 (λ _. call (sent d) (s.send_summary d)))
        (λ _. p.step_do 2 (λ _. call (integrated d) (s.send_to_integrations d)))
        (plain_step-Within 3 (λ _. sent d) (λ _. s.send_summary d))
        (λ a q. plain_step-Within 2 (λ _. integrated d) (λ _. s.send_to_integrations d))

  handle_message-Within : (r : R) (m : MessageRef) → Within 13 Whatever (handle_message p s r m)
  unfolding handle_message
  handle_message-Within r m =
      bind-Within 6 7 (λ _. Unit) Whatever
        (p.step_do 5 (λ n. call (generated m n) (s.generate_summary r m n))) (deliver p s)
        (call_step-Within (λ _. Unit) 5 (generated m) (s.generate_summary r m) (λ n log a e. tt))
        (λ o q. deliver-Within o)

  handle_messages-Within :
      (r : R) (ms : List MessageRef) → Within (13 * length ms) Whatever (handle_messages p s r ms)
  unfolding handle_messages
  handle_messages-Within r [] = λ log. (omega arith, λ a e. tt)
  handle_messages-Within r (m ∷ ms) =
      weaken_Within (13 + 13 * length ms) (13 * length (m ∷ ms)) Whatever
        (handle_message p s r m >> handle_messages p s r ms) (omega arith)
        (bind-Within 13 (13 * length ms) Whatever Whatever (handle_message p s r m)
          (λ _. handle_messages p s r ms) (handle_message-Within r m)
          (λ a q. handle_messages-Within r ms))

  on_gmail_list-Within :
      (n : ℕ) (r : R) (o : Option MessageList)
      → ListsAtMost n o
      → Within (13 * n + 4) Whatever (on_gmail_list p s r o)
  unfolding on_gmail_list update_history_step
  on_gmail_list-Within n r none le = λ log. (omega arith, λ a e. tt)
  on_gmail_list-Within n r (some l) le =
      let refs = gmail_refs l.message_ids in
      weaken_Within (13 * length refs + 4) (13 * n + 4) Whatever
        (handle_messages p s r refs >> update_history_step p s l)
        (omega (arith, length-gmail_refs l.message_ids))
        (bind-Within (13 * length refs) 4 Whatever Whatever (handle_messages p s r refs)
          (λ _. update_history_step p s l) (handle_messages-Within r refs)
          (λ a q.
            plain_step-Within 3 (λ _. history_updated l.subscription_id l.history_id)
              (λ _. s.update_history l.subscription_id l.history_id)))

  module _ (n : ℕ)
      (lists : (r : R) (h : String) (log : Log S) (o : Option MessageList)
        → s.list_messages r h log ≡ gave o
        → ListsAtMost n o) where
    on_payload-Within :
        (payload : Payload) (r : R)
        → Within (8 + 13 * size n payload) Whatever (on_payload p s payload r)
    unfolding on_payload on_gmail on_imap
    on_payload-Within (gmail_notification h) r =
        weaken_Within (4 + (13 * n + 4)) (8 + 13 * n) Whatever (on_gmail p s r h) (omega arith) (
          bind-Within 4 (13 * n + 4) (ListsAtMost n) Whatever
            (p.step_do 3 (λ _. call listed (s.list_messages r h))) (on_gmail_list p s r)
            (call_step-Within (ListsAtMost n) 3 (λ _. listed) (λ _. s.list_messages r h)
              (λ k log o e. lists r h log o (caught-ok (s.list_messages r h log) o e)))
            (on_gmail_list-Within n r))
    on_payload-Within (outlook_notification id) r =
        weaken_Within 13 21 Whatever (handle_message p s r (outlook id)) (omega arith)
          (handle_message-Within r (outlook id))
    on_payload-Within (jmap_notification id) r =
        weaken_Within 13 21 Whatever (handle_message p s r (jmap id)) (omega arith)
          (handle_message-Within r (jmap id))
    on_payload-Within (imap_notification uids) r = λ log.
        let refs = imap_refs uids in
        let (l, q) =
          bind-Within 1 (13 * length refs) Whatever Whatever (bare_call connected (s.connect r))
            (λ _. handle_messages p s r refs) (λ log. (omega arith, λ a e. tt))
            (λ a q. handle_messages-Within r refs) log in
        (omega (arith, length-imap_refs uids), λ a e. tt)

    -- On a platform that keeps to the contract of a step, where the provider never lists more than `n` messages, a run of the workflow makes at most
    -- 12 calls and 13 more for each message: `n` of them for Gmail, one for Outlook and JMAP, and the
    -- messages of the notification for IMAP.
    pub on_workflow-length :
        (payload : Payload) → length (on_workflow p s payload []).0 ≤ 12 + 13 * size n payload
    unfolding on_workflow
    on_workflow-length payload =
        let (l, q) =
          bind-Within 4 (8 + 13 * size n payload) (λ _. Unit) Whatever
            (p.step_do 3 (λ _. call (λ _. resolved) s.resolve_application)) (on_payload p s payload)
            (call_step-Within (λ _. Unit) 3 (λ _ _. resolved) (λ _. s.resolve_application)
              (λ k log a e. tt))
            (λ r q. on_payload-Within payload r) [] in
        omega arith
