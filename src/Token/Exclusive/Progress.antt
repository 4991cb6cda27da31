-- ===== src/Token/Exclusive/Progress.antt =====
-- Which operation of the chain can go on.
use mail_otter.Base.{
  ℕ, ◌+◌, ◌≡◌, arith, refl, List, [], ◌∷◌, Bool, true, ◌||◌, ◌⊎◌, Option, ◌==◌, length, any, inl,
  inr,
}
use mail_otter.Token.Exclusive.{
  Phase, waiting, running, settled, Operation, is_running, idle, has_settled, can_begin, Event,
  occur_all,
}
use mail_otter.Token.Exclusive.Laws.{AllSettled, Fits, Ordered, occur_all-Chained}

-- One of the operations runs, or waits for one that has settled.
abbrev pub can_go_on : List Operation → List Operation → Bool
can_go_on all os = any (λ o. is_running o.phase || can_begin o.id all o) os

head_settled :
    (p : ℕ) (os : List Operation)
    → Ordered os
    → p + 1 ≡ length os
    → AllSettled os
    → has_settled p os ≡ true
unfolding has_settled
head_settled p [] h l s = absurd (omega arith)
head_settled p (o ∷ os) h l s = ground (arith, h.0, s.0)

later-settled :
    (p : ℕ) (o : Operation) (os : List Operation)
    → has_settled p os ≡ true
    → has_settled p (o ∷ os) ≡ true
unfolding has_settled
later-settled p o os h = ground (arith, h)

id_refl : (n : ℕ) → (n == n) ≡ true
id_refl n = ground arith

newest_goes_on :
    (all : List Operation) (o : Operation) (os : List Operation) (phase : Phase) (q : Option ℕ)
    → Ordered os
    → ((p : ℕ) → has_settled p os ≡ true → has_settled p all ≡ true)
    → o.phase ≡ phase
    → o.predecessor ≡ q
    → Fits phase q os
    → AllSettled os
    → AllSettled (o ∷ os) ⊎ (can_go_on all (o ∷ os) ≡ true)
newest_goes_on all o os settled q h found e g f done = inl (rw e refl, done)
newest_goes_on all o os running q h found e g f done = inr (rw e refl)
newest_goes_on all o os waiting q h found e g (p, l, n) done =
    inr (rw (e, g, l, found p (head_settled p os h n done), id_refl o.id) refl)

goes_on_or_AllSettled :
    (all os : List Operation)
    → Ordered os
    → ((p : ℕ) → has_settled p os ≡ true → has_settled p all ≡ true)
    → AllSettled os ⊎ (can_go_on all os ≡ true)
goes_on_or_AllSettled all [] h found = inl tt
goes_on_or_AllSettled all (o ∷ os) h found =
    let found' : (p : ℕ) → has_settled p os ≡ true → has_settled p all ≡ true =
      λ p s. found p (later-settled p o os s) in
    elim (goes_on_or_AllSettled all os h.2 found') [
      | inr on ↦ inr (ground (arith, on))
      | inl done ↦ newest_goes_on all o os o.phase o.predecessor h.2 found' refl refl h.1 done
    ]

-- Whatever requests arrive, and in whatever order operations begin, settle and are finished with: as
-- long as not all operations have settled, one of them runs or waits for one that has, and can begin.
pub run_exclusive_goes_on :
    (events : List Event)
    → let os = (occur_all events idle).operations in AllSettled os ⊎ (can_go_on os os ≡ true)
run_exclusive_goes_on events =
    let os = (occur_all events idle).operations in
    goes_on_or_AllSettled os os (occur_all-Chained events idle (tt, tt)).0 (λ p s. s)
