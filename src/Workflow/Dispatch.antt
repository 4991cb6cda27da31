-- ===== src/Workflow/Dispatch.antt =====
-- apps/background/src/EmailEventsDispatcherWorker.ts: the consumer of the queue, which starts a
-- workflow for every message. The workflows of the platform and the hash are parameters. The messages
-- that are dispatched one by one start in the order of the batch, and the platform is called in that order.
pub mod Laws
use mail_otter.Base.{
  starts_with_ignoring_case, ℕ, ◌+◌, List, [], ◌∷◌, ◌++◌, Bool, true, false, ◌&&◌, ◌||◌, Option,
  none, some, if◌then◌else◌, ◌==◌, leb, codes, take,
}
use mail_otter.Action.{Text}

-- A message of the queue, and the instance of the workflow that is asked for.
pub record QueueMessage (B : Type 0) : Type 0 where
  pub id : Text
  pub body : B

pub record InstanceOptions (B : Type 0) : Type 0 where
  pub id : Text
  pub params : B

-- What became of a message: `ack()` or `retry()`.
pub data Fate : Type 0 where
  acked retried : Fate

-- The binding EMAIL_PROCESSING_WORKFLOW, whose instances are a `W`; a refusal is an error with its message.
pub record Workflows (B W : Type 0) : Type 0 where
  pub create_batch : List (InstanceOptions B) → W → W × Option Text
  pub create : InstanceOptions B → W → W × Option Text

-- The pattern, in lower case, stands somewhere in the text.
unfoldable pub matches : Text → Text → Bool
matches pattern [] = starts_with_ignoring_case pattern []
matches pattern (d ∷ ds) = starts_with_ignoring_case pattern (d ∷ ds) || matches pattern ds

-- `isDuplicateWorkflowError`, on the error's message
unfoldable pub is_duplicate_workflow_error : Text → Bool
is_duplicate_workflow_error message =
    matches (codes "already exists") message
    || matches (codes "duplicate") message
    || matches (codes "exists") message

-- `getWorkflowInstanceId`
unfoldable pub get_workflow_instance_id : (Text → Text) → Text → Text → Text
get_workflow_instance_id sha256_hex queue_name message_id =
    codes "emw_" ++ take 60 (sha256_hex (queue_name ++ codes ":" ++ message_id))

module _ {B W : Type 0} (sha256_hex : Text → Text) (platform : Workflows B W) (queue : Text) where
  unfoldable pub workflow_input : QueueMessage B → InstanceOptions B
  workflow_input message = record {
    id = get_workflow_instance_id sha256_hex queue message.id;
    params = message.body;
  }

  unfoldable pub workflow_inputs : List (QueueMessage B) → List (InstanceOptions B)
  workflow_inputs [] = []
  workflow_inputs (message ∷ messages) = workflow_input message ∷ workflow_inputs messages

  unfoldable pub fate_of : Option Text → Fate
  fate_of none = acked
  fate_of (some message) = if is_duplicate_workflow_error message then acked else retried

  unfoldable pub dispatch_each : List (QueueMessage B) → W → W × List Fate
  dispatch_each [] w = (w, [])
  dispatch_each (message ∷ messages) w =
      let (w', refusal) = platform.create (workflow_input message) w in
      let (w'', fates) = dispatch_each messages w' in (w'', fate_of refusal ∷ fates)

  abbrev pub all_acked : List (QueueMessage B) → List Fate
  all_acked [] = []
  all_acked (message ∷ messages) = acked ∷ all_acked messages

  abbrev pub after_batch : List (QueueMessage B) → W × Option Text → W × List Fate
  after_batch messages (w, none) = (w, all_acked messages)
  after_batch messages (w, some refusal) = dispatch_each messages w

  -- `onQueue`, with the fate of each message, in the order of the batch
  unfoldable pub on_queue : List (QueueMessage B) → W → W × List Fate
  on_queue messages w = after_batch messages (platform.create_batch (workflow_inputs messages) w)
