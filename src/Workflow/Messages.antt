-- ===== src/Workflow/Messages.antt =====
-- What the steps of messages and of the history keep and achieve.
use mail_otter.Base.{ℕ, refl, List, [], ◌∷◌, ◌∈◌, inl, inr, Option, none, some}
use mail_otter.Workflow.{
  Result, ok, Answer, MessageRef, MessageList, Event, listed, generated, sent, integrated,
  history_updated, Log, Platform, Services, call, gmail_refs, deliver, handle_message,
  handle_messages, update_history_step, on_gmail_list,
}
use mail_otter.Workflow.Steps.{Documented, Ensures, step_do-Ensures}
use mail_otter.Workflow.Order.{
  ListHandled, Handled, AllHandled, Entitled, Handled-later, AllHandled-later, Lasting, Kept,
  call-Ensures, sequel, with_facts, pure-Ensures,
}

module _ {R S : Type 0} (p : Platform S) (s : Services R S) (doc : Documented p) where
  -- A step that makes one call.
  pub call_step-Ensures :
      {A : Type 0} (F : Log S → Type 0) (limit : ℕ) (event : ℕ → Result A → Event S)
      (service : ℕ → Log S → Answer A)
      → Lasting F
      → ((n : ℕ) (r : Result A) (log : Log S) → F log → Entitled (event n r) log)
      → Ensures
          (Kept F)
          (λ a log. (n : ℕ) × (event n (ok a) ∈ log))
          (p.step_do limit (λ n. call (event n) (service n)))
  call_step-Ensures F limit event service lasting entitled =
      step_do-Ensures p (Kept F) (λ a log. (n : ℕ) × (event n (ok a) ∈ log)) limit
        (λ n. call (event n) (service n)) doc
        (λ n.
          with_facts F (λ a log. event n (ok a) ∈ log) (λ a log. (n : ℕ) × (event n (ok a) ∈ log))
            (call (event n) (service n)) (λ a log f h. (n, h))
            (call-Ensures F (event n) (service n) lasting (entitled n)))

  pub deliver-Handled :
      (F : Log S → Type 0) (m : MessageRef) (o : Option S)
      → Lasting F
      → ((log : Log S) → F log → (n : ℕ) × (generated m n (ok o) ∈ log))
      → Ensures (Kept F) (λ _ log. Handled m log) (deliver p s o)
  unfolding deliver
  deliver-Handled F m none lasting known =
      pure-Ensures F (λ _ log. Handled m log) tt (λ log f. inl (known log f))
  deliver-Handled F m (some d) lasting known =
      sequel F (λ _ log. (n : ℕ) × (sent d (ok tt) ∈ log)) (λ _ log. Handled m log)
        (p.step_do 3 (λ _. call (sent d) (s.send_summary d)))
        (λ _. p.step_do 2 (λ _. call (integrated d) (s.send_to_integrations d)))
        (call_step-Ensures F 3 (λ _. sent d) (λ _. s.send_summary d) lasting
          (λ n r log f. (m, (known log f).0, (known log f).1)))
        (λ _.
          let G = λ (log : Log S). F log × ((n : ℕ) × (sent d (ok tt) ∈ log)) in
          with_facts G (λ _ log. (n : ℕ) × (integrated d (ok tt) ∈ log)) (λ _ log. Handled m log)
            (p.step_do 2 (λ _. call (integrated d) (s.send_to_integrations d)))
            (λ _ log g i. inr (d, known log g.0, g.1.1, i.1))
            (call_step-Ensures G 2 (λ _. integrated d) (λ _. s.send_to_integrations d)
              (λ e log g. (lasting e log g.0, (g.1.0, inr g.1.1))) (λ n r log g. g.1.1)))

  pub handle_message-Handled :
      (F : Log S → Type 0) (r : R) (m : MessageRef)
      → Lasting F
      → Ensures (Kept F) (λ _ log. Handled m log) (handle_message p s r m)
  unfolding handle_message
  handle_message-Handled F r m lasting =
      sequel F (λ o log. (n : ℕ) × (generated m n (ok o) ∈ log)) (λ _ log. Handled m log)
        (p.step_do 5 (λ n. call (generated m n) (s.generate_summary r m n))) (deliver p s)
        (call_step-Ensures F 5 (generated m) (s.generate_summary r m) lasting (λ n a log f. tt))
        (λ o.
          deliver-Handled (λ log. F log × ((n : ℕ) × (generated m n (ok o) ∈ log))) m o
            (λ e log g. (lasting e log g.0, (g.1.0, inr g.1.1))) (λ log g. g.1))

  pub handle_messages-Handled :
      (F : Log S → Type 0) (r : R) (ms : List MessageRef)
      → Lasting F
      → Ensures (Kept F) (λ _ log. AllHandled ms log) (handle_messages p s r ms)
  unfolding handle_messages
  handle_messages-Handled F r [] lasting =
      pure-Ensures F (λ _ log. AllHandled [] log) tt (λ log f. tt)
  handle_messages-Handled F r (m ∷ ms) lasting =
      sequel F (λ _ log. Handled m log) (λ _ log. AllHandled (m ∷ ms) log) (handle_message p s r m)
        (λ _. handle_messages p s r ms) (handle_message-Handled F r m lasting)
        (λ _.
          let G = λ (log : Log S). F log × Handled m log in
          with_facts G (λ _ log. AllHandled ms log) (λ _ log. AllHandled (m ∷ ms) log)
            (handle_messages p s r ms) (λ _ log g h. (g.1, h))
            (handle_messages-Handled G r ms
              (λ e log g. (lasting e log g.0, Handled-later m e log g.1))))

  update_history-Handled :
      (l : MessageList)
      → Ensures
          (Kept (λ log.
            ((n : ℕ) × (listed (ok (some l)) ∈ log)) × AllHandled (gmail_refs l.message_ids) log))
          (λ _ log. ListHandled (some l) log)
          (update_history_step p s l)
  unfolding update_history_step
  update_history-Handled l =
      let refs = gmail_refs l.message_ids in
      let G = λ (log : Log S). ((n : ℕ) × (listed (ok (some l)) ∈ log)) × AllHandled refs log in
      let updated = history_updated l.subscription_id l.history_id in
      let service = s.update_history l.subscription_id l.history_id in
      with_facts G (λ _ log. (n : ℕ) × (updated (ok tt) ∈ log)) (λ _ log. ListHandled (some l) log)
        (p.step_do 3 (λ _. call updated service)) (λ _ log g u. (g.1, u.1))
        (call_step-Ensures G 3 (λ _. updated) (λ _. service)
          (λ e log g. ((g.0.0, inr g.0.1), AllHandled-later refs e log g.1))
          (λ n r log g. (l, g.0.1, refl, refl, g.1)))

  pub on_gmail_list-Handled :
      (r : R) (o : Option MessageList)
      → Ensures
          (Kept (λ log. (n : ℕ) × (listed (ok o) ∈ log)))
          (λ _ log. ListHandled o log)
          (on_gmail_list p s r o)
  unfolding on_gmail_list
  on_gmail_list-Handled r none =
      pure-Ensures (λ log. (n : ℕ) × (listed (ok none) ∈ log)) (λ _ log. ListHandled none log) tt
        (λ log f. tt)
  on_gmail_list-Handled r (some l) =
      let F = λ (log : Log S). (n : ℕ) × (listed (ok (some l)) ∈ log) in
      let refs = gmail_refs l.message_ids in
      sequel F (λ _ log. AllHandled refs log) (λ _ log. ListHandled (some l) log)
        (handle_messages p s r refs) (λ _. update_history_step p s l)
        (handle_messages-Handled F r refs (λ e log f. (f.0, inr f.1)))
        (λ _. update_history-Handled l)
