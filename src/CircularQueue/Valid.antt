-- ===== src/CircularQueue/Valid.antt =====
-- The representation invariant of the circular queue.
use modelsrv.Prelude.{
  ℕ, ◌+◌, ◌%◌, ◌≤◌, ◌<◌, ◌≡◌, refl, arith, pos, succ, to_ℕ, length, length-replicate,
}
use modelsrv.CircularQueue.{CircularQueue, new_circular_queue}

-- Where `rear` points next: one past it.
abbrev pub next_rear {ℓ} : {T : Type ℓ} → CircularQueue T → ℕ
next_rear c = to_ℕ (succ c.rear)

-- The slots are allocated, the indices point into them, and the slot after `rear` is the one that
-- lies `size` slots after `front`, round the ring.
pub record IsValid {ℓ} {T : Type ℓ} (c : CircularQueue T) : Type 0 where
  pub allocated : length c.items ≡ c.capacity
  pub some_slot : 0 < c.capacity
  pub size_in : c.size ≤ c.capacity
  pub front_in : c.front < c.capacity
  pub rear_next : succ c.rear ≡ pos (next_rear c)
  pub rear_at : next_rear c % c.capacity ≡ (c.front + c.size) % c.capacity

module _ {ℓ} {T : Type ℓ} where
  -- A new queue with at least one slot is valid.
  pub new_circular_queue-IsValid :
      (z : T) (capacity : ℕ) → 0 < capacity → IsValid (new_circular_queue z capacity)
  unfolding new_circular_queue
  new_circular_queue-IsValid z capacity h = record {
    allocated = length-replicate capacity z;
    some_slot = h;
    size_in = omega arith;
    front_in = h;
    rear_next = refl;
    rear_at = refl;
  }
