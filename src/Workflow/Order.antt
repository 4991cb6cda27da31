-- ===== src/Workflow/Order.antt =====
-- The order in which a run of the workflow makes its calls, and rules that keep it.
use mail_otter.Base.{Option, ℕ, ◌≡◌, ap, sym, List, [], ◌∷◌, ◌∈◌, ◌⊎◌, inl, inr, none, some, All}
use mail_otter.Workflow.{
  Result, ok, Answer, MessageRef, MessageList, Event, listed, generated, sent, integrated,
  history_updated, Log, Flow, ◌>>=◌, pure, call, caught, gmail_refs,
}
use mail_otter.Workflow.Steps.{Ensures, bind-Ensures}

module _ {S : Type 0} where
  -- The message was dealt with: no summary was due, or it was generated, sent and passed on.
  abbrev pub Handled : MessageRef → Log S → Type 0
  Handled m log =
      ((n : ℕ) × (generated m n (ok none) ∈ log))
      ⊎ ((d : S) × ((n : ℕ) × (generated m n (ok (some d)) ∈ log))
          × (sent d (ok tt) ∈ log)
          × (integrated d (ok tt) ∈ log))

  abbrev pub AllHandled : List MessageRef → Log S → Type 0
  AllHandled ms log = All (λ m. Handled m log) ms

  -- What a list of messages demands, once it is known.
  abbrev pub ListHandled : Option MessageList → Log S → Type 0
  ListHandled none log = Unit
  ListHandled (some l) log =
      AllHandled (gmail_refs l.message_ids) log
      × (history_updated l.subscription_id l.history_id (ok tt) ∈ log)

  -- A call comes after what entitles to it: a summary is sent after it was generated, and passed on
  -- after it was sent; the history moves on after every message listed was dealt with.
  abbrev pub Entitled : Event S → Log S → Type 0
  Entitled (sent d r) log = (m : MessageRef) × (n : ℕ) × (generated m n (ok (some d)) ∈ log)
  Entitled (integrated d r) log = sent d (ok tt) ∈ log
  Entitled (history_updated subscription_id history_id r) log =
      (l : MessageList) × (listed (ok (some l)) ∈ log)
      × (l.subscription_id ≡ subscription_id)
      × (l.history_id ≡ history_id)
      × AllHandled (gmail_refs l.message_ids) log
  Entitled _ log = Unit

  abbrev pub InOrder : Log S → Type 0
  InOrder [] = Unit
  InOrder (e ∷ log) = Entitled e log × InOrder log

  pub Handled-later :
      (m : MessageRef) (e : Event S) (log : Log S) → Handled m log → Handled m (e ∷ log)
  Handled-later m e log (inl (n, h)) = inl (n, inr h)
  Handled-later m e log (inr (d, (n, g), s, i)) = inr (d, (n, inr g), inr s, inr i)

  pub AllHandled-later :
      (ms : List MessageRef) (e : Event S) (log : Log S)
      → AllHandled ms log
      → AllHandled ms (e ∷ log)
  AllHandled-later [] e log h = tt
  AllHandled-later (m ∷ ms) e log (h, hs) = (Handled-later m e log h, AllHandled-later ms e log hs)

  -- A fact that no further call takes away.
  abbrev pub Lasting : (Log S → Type 0) → Type 0
  Lasting F = (e : Event S) (log : Log S) → F log → F (e ∷ log)

  -- A call keeps the order where the log entitles to it, and keeps what lasts.
  pub call-Ensures :
      {A : Type 0} (F : Log S → Type 0) (event : Result A → Event S) (service : Log S → Answer A)
      → Lasting F
      → ((r : Result A) (log : Log S) → F log → Entitled (event r) log)
      → Ensures (λ log. InOrder log × F log) (λ a log. event (ok a) ∈ log) (call event service)
  call-Ensures F event service lasting entitled log (o, f) =
      let r = caught (service log) in
      (((entitled r log f, o), lasting (event r) log f), λ a e. inl (ap event (sym e)))

  -- The invariant of a run, with facts that last.
  abbrev pub Kept : (Log S → Type 0) → Log S → Type 0
  Kept F log = InOrder log × F log

  -- One flow after another; the facts that the first ensures last in the second.
  pub sequel :
      {A B : Type 0} (F : Log S → Type 0) (Q : A → Log S → Type 0) (P : B → Log S → Type 0)
      (m : Flow S A) (f : A → Flow S B)
      → Ensures (Kept F) Q m
      → ((a : A) → Ensures (Kept (λ log. F log × Q a log)) P (f a))
      → Ensures (Kept F) P (m >>= f)
  sequel {A = A} F Q P m f first second = bind-Ensures (Kept F) Q P m f first (λ (a : A) log h.
      let (kept, post) = second a log (h.0.0, (h.0.1, h.1)) in
      (((kept.0, kept.1.0), kept.1.1), post))

  -- What was known before is known after, beside what the flow ensures.
  pub with_facts :
      {A : Type 0} (F : Log S → Type 0) (Q P : A → Log S → Type 0) (m : Flow S A)
      → ((a : A) (log : Log S) → F log → Q a log → P a log)
      → Ensures (Kept F) Q m
      → Ensures (Kept F) P m
  with_facts F Q P m both h log kept =
      let (after, post) = h log kept in (after, λ a e. both a (m log).0 after.1 (post a e))

  pub pure-Ensures :
      {A : Type 0} (F : Log S → Type 0) (Q : A → Log S → Type 0) (a : A)
      → ((log : Log S) → F log → Q a log)
      → Ensures (Kept F) Q (pure a)
  pure-Ensures F Q a h log kept = (kept, λ b e. let same : a ≡ b = cc in rw (← same) (h log kept.1))
