-- ===== src/Token/Exclusive.antt =====
-- `runExclusive` of apps/background/src/OAuth2TokenRefreshWorker.ts: the chain of promises on which the
-- object puts its operations. Its event loop is a list of events: a request arrives, a waiting
-- operation begins once its predecessor has settled, an operation settles, with a value or an
-- error, and the `finally` of a settled operation runs. An event that cannot occur changes nothing.
pub mod Laws
pub mod Progress
use mail_otter.Base.{
  ℕ, ◌+◌, List, [], ◌∷◌, Bool, true, false, ◌&&◌, Option, none, some, if◌then◌else◌, ◌==◌, length,
  any, update_where,
}

pub data Phase : Type 0 where
  waiting running settled : Phase

-- An operation and its promise; `predecessor` is the promise that `.then` chained it onto.
pub record Operation : Type 0 where
  pub id : ℕ
  pub predecessor : Option ℕ
  pub phase : Phase

-- `current` is `currentOperation`; the operations stand with the newest first.
pub record Queue : Type 0 where
  pub operations : List Operation
  pub current : Option ℕ

abbrev pub is_waiting : Phase → Bool
is_waiting waiting = true
is_waiting _ = false

abbrev pub is_running : Phase → Bool
is_running running = true
is_running _ = false

abbrev pub is_settled : Phase → Bool
is_settled settled = true
is_settled _ = false

abbrev pub idle : Queue
idle = record { operations = []; current = none }

abbrev pub first_phase : Option ℕ → Phase
first_phase none = running
first_phase (some _) = waiting

-- `runExclusive`, as far as it runs at once
unfoldable pub run_exclusive : Queue → Queue
run_exclusive q =
    let id = length q.operations in
    record {
      operations =
          record { id = id; predecessor = q.current; phase = first_phase q.current } ∷ q.operations;
      current = some id;
    }

abbrev pub is_settled_as : ℕ → Operation → Bool
is_settled_as id o = o.id == id && is_settled o.phase

unfoldable pub has_settled : ℕ → List Operation → Bool
has_settled id os = any (is_settled_as id) os

abbrev pub predecessor_settled : Option ℕ → List Operation → Bool
predecessor_settled none os = false
predecessor_settled (some id) os = has_settled id os

abbrev pub can_begin : ℕ → List Operation → Operation → Bool
can_begin id os o = o.id == id && (is_waiting o.phase && predecessor_settled o.predecessor os)

abbrev pub in_phase : Phase → Operation → Operation
in_phase phase o = record o { phase = phase }

unfoldable pub begin : ℕ → Queue → Queue
begin id q = record q {
  operations = update_where (can_begin id q.operations) (in_phase running) q.operations;
}

abbrev pub can_settle : ℕ → Operation → Bool
can_settle id o = o.id == id && is_running o.phase

unfoldable pub settle : ℕ → Queue → Queue
settle id q = record q { operations = update_where (can_settle id) (in_phase settled) q.operations }

abbrev pub is_current : ℕ → Option ℕ → Bool
is_current id none = false
is_current id (some current) = current == id

-- The `finally` of an operation
unfoldable pub finish : ℕ → Queue → Queue
finish id q =
    if is_current id q.current && has_settled id q.operations
    then record q { current = none }
    else q

pub data Event : Type 0 where
  call : Event
  begins settles finishes : ℕ → Event

unfoldable pub occur : Event → Queue → Queue
occur call q = run_exclusive q
occur (begins id) q = begin id q
occur (settles id) q = settle id q
occur (finishes id) q = finish id q

unfoldable pub occur_all : List Event → Queue → Queue
occur_all [] q = q
occur_all (event ∷ events) q = occur_all events (occur event q)
