-- ===== src/Workflow/Dispatch/Laws.antt =====
-- What the dispatcher does of the messages of a batch.
use mail_otter.Base.{◌≡◌, ◌⊎◌, Bool, List, [], ◌∷◌, true, false, some}
use mail_otter.Action.{Text}
use mail_otter.Workflow.Dispatch.{
  QueueMessage, InstanceOptions, Fate, acked, retried, Workflows, is_duplicate_workflow_error,
  workflow_input,
}

module _ {B W : Type 0} (sha256_hex : Text → Text) (platform : Workflows B W) (queue : Text) where
  -- The platform refused to create the instance, with an error of which `b` is whether it says that there
  -- is one already.
  abbrev pub Refused : InstanceOptions B → Bool → Type 0
  Refused i b =
      (w : W) × (message : Text) × ((platform.create i w).1 ≡ some message)
      × (is_duplicate_workflow_error message ≡ b)

  -- An acknowledged message has its workflow at the end, or creating this was refused as a duplicate; one
  -- that had its workflow from the start is acknowledged; and for one that is to come again, creating
  -- its workflow was refused, and not as a duplicate.
  abbrev pub Justified : (W → Text → Type 0) → W → W → InstanceOptions B → Fate → Type 0
  Justified Exists start end i f =
      (f ≡ acked → Exists end i.id ⊎ Refused i true)
      × (Exists start i.id → f ≡ acked)
      × (f ≡ retried → Refused i false)

  -- One fate for each message, in the order of the batch, and for a reason.
  abbrev pub Accounted : (W → Text → Type 0) → W → W → List (QueueMessage B) → List Fate → Type 0
  Accounted Exists start end [] [] = Unit
  Accounted Exists start end [] (f ∷ fs) = ⊥
  Accounted Exists start end (m ∷ ms) [] = ⊥
  Accounted Exists start end (m ∷ ms) (f ∷ fs) =
      Justified Exists start end (workflow_input sha256_hex platform queue m) f
      × Accounted Exists start end ms fs
