-- ===== src/Workflow/Steps.antt =====
-- What the platform documents of `step.do`, and rules to reason about the flows of the workflow.
use mail_otter.Base.{ℕ, suc, ◌≤◌, ◌≡◌, refl, arith}
use mail_otter.Workflow.{Result, ok, err, WorkflowError, Log, Flow, Platform, ◌>>=◌, resume}

module _ {S A : Type 0} (limit : ℕ) (body : ℕ → Flow S A) where
  -- A step runs its body in attempts, counted up to one more than the limit of retries, each on what
  -- the one before left. The last one gives the step its value, or the step throws. Any attempt may be
  -- followed by another, also one that did its work and ran out of time.
  pub data Attempts : ℕ → Log S → Log S × Result A → Type 0 where
    finished : {n : ℕ} {log : Log S} → Attempts n log (body n log)
    failed : {n : ℕ} {log : Log S} (e : WorkflowError) → Attempts n log ((body n log).0, err e)
    again :
        {n : ℕ} {log : Log S} {o : Log S × Result A}
        → n ≤ limit
        → Attempts (suc n) (body n log).0 o
        → Attempts n log o

-- The platform keeps to this.
abbrev pub Documented : {S : Type 0} → Platform S → Type 1
Documented {S = S} p =
    (A : Type 0) (limit : ℕ) (body : ℕ → Flow S A) (log : Log S)
    → Attempts limit body 1 log (p.step_do limit body log)

module _ {S : Type 0} where
  -- `m` keeps `I`, and where it gives a value, `Q` holds of it.
  abbrev pub Ensures : {A : Type 0} → (Log S → Type 0) → (A → Log S → Type 0) → Flow S A → Type 0
  Ensures {A = A} I Q m =
      (log : Log S) → I log → I (m log).0 × ((a : A) → (m log).1 ≡ ok a → Q a (m log).0)

  Attempts-Ensures :
      {A : Type 0} (I : Log S → Type 0) (Q : A → Log S → Type 0) (limit : ℕ) (body : ℕ → Flow S A)
      → ((n : ℕ) → Ensures I Q (body n))
      → (n : ℕ) (log : Log S) (o : Log S × Result A) → Attempts limit body n log o
      → I log
      → I o.0 × ((a : A) → o.1 ≡ ok a → Q a o.0)
  Attempts-Ensures I Q limit body keeps n log o finished h = keeps n log h
  Attempts-Ensures I Q limit body keeps n log o (failed e) h =
      ((keeps n log h).0, λ a bad. absurd (ground arith))
  Attempts-Ensures I Q limit body keeps n log o (again le more) h =
      Attempts-Ensures I Q limit body keeps (suc n) (body n log).0 o more (keeps n log h).0

  -- A step ensures what its body does.
  pub step_do-Ensures :
      {A : Type 0} (p : Platform S) (I : Log S → Type 0) (Q : A → Log S → Type 0) (limit : ℕ)
      (body : ℕ → Flow S A)
      → Documented p
      → ((n : ℕ) → Ensures I Q (body n))
      → Ensures I Q (p.step_do limit body)
  step_do-Ensures {A = A} p I Q limit body doc keeps log h =
      Attempts-Ensures I Q limit body keeps 1 log (p.step_do limit body log) (doc A limit body log)
        h

  -- One flow after another, the second of which may rely on what the first ensures.
  pub bind-Ensures :
      {A B : Type 0} (I : Log S → Type 0) (Q : A → Log S → Type 0) (P : B → Log S → Type 0)
      (m : Flow S A) (f : A → Flow S B)
      → Ensures I Q m
      → ((a : A) → Ensures (λ log. I log × Q a log) P (f a))
      → Ensures I P (m >>= f)
  unfolding ◌>>=◌
  bind-Ensures {A = A} {B = B} I Q P m f first second log h = after (m log) (first log h)
    where
      after :
          (o : Log S × Result A)
          → I o.0 × ((a : A) → o.1 ≡ ok a → Q a o.0)
          → I (resume o f).0 × ((b : B) → (resume o f).1 ≡ ok b → P b (resume o f).0)
      after (log', ok a) (i, q) = let (iq, post) = second a log' (i, q a refl) in (iq.0, post)
      after (log', err e) (i, q) = (i, λ b bad. absurd (ground arith))
