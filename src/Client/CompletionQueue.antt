-- ===== src/Client/CompletionQueue.antt =====
-- The completion queue of a connection (crates/rdows-client/src/completion.rs).
use rdows.Prelude.{
  ℕ, ◌++◌, ◌≤◌, List, [], ◌∷◌, Bool, true, false, Result, ok, panic, with_capacity, length, take,
  drop, min, leb, ◌==◌, if◌then◌else◌,
}
use rdows.Core.Queue.Completion.{CompletionQueueEntry}

pub record CompletionQueue : Type 0 where
  pub entries : List CompletionQueueEntry
  pub capacity : ℕ

-- `CompletionQueue::new`. An entry takes 24 bytes in memory.
unfoldable pub new_queue : {E : Type 0} → ℕ → Result E CompletionQueue
new_queue {E} capacity = elim (with_capacity {E = E} capacity 24) [
  | ok _ ↦ ok (record { entries = []; capacity = capacity })
  | _ ↦ panic
]

unfoldable pub is_full : CompletionQueue → Bool
is_full q = leb q.capacity (length q.entries)

unfoldable pub is_empty : CompletionQueue → Bool
is_empty q = length q.entries == 0

-- `push`: false, and the entry is lost, where the queue is full.
unfoldable pub push : CompletionQueueEntry → CompletionQueue → Bool × CompletionQueue
push cqe q =
    if leb q.capacity (length q.entries)
    then (false, q)
    else (true, record q { entries = q.entries ++ (cqe ∷ []) })

unfoldable pub poll_cq : ℕ → CompletionQueue → List CompletionQueueEntry × CompletionQueue
poll_cq max q =
    let n : ℕ = min max (length q.entries) in
    (take n q.entries, record q { entries = drop n q.entries })

-- No more entries than the capacity.
pub IsBounded : CompletionQueue → Type 0
IsBounded q = length q.entries ≤ q.capacity
