-- ===== src/CircularQueue.antt =====
-- internal/util/circular_queue.go: the bounded queue over a ring of slots. A method that changes
-- the queue returns an outcome: the error that it returns, a runtime panic (an index out of range),
-- or the value with the new queue.
pub mod Valid
pub mod Refine
pub mod Run
pub mod PushBack
mod Tests
use modelsrv.Prelude.{
  ℕ, ◌+◌, ◌-◌, ◌%◌, Bool, Option, none, some, List, ℤ, pos, negsuc, succ, rem, nat_beq, ltb,
  get_elem?, set, replicate, length, if◌then◌else◌, [], ◌∷◌,
}

-- `CircularQueue[T]`.
pub record CircularQueue {ℓ} (T : Type ℓ) : Type ℓ where
  pub items : List T
  pub capacity : ℕ
  pub front : ℕ
  pub rear : ℤ
  pub size : ℕ

pub data Error : Type 0 where
  queue_full queue_empty : Error

pub data Outcome {ℓ} (A : Type ℓ) : Type ℓ where
  ok : A → Outcome A
  err : Error → Outcome A
  fault : Outcome A

module _ {ℓ} {T : Type ℓ} where
  -- `NewCircularQueue`; `make` fills the slots with the zero value of `T`.
  pub new_circular_queue : T → ℕ → CircularQueue T
  new_circular_queue zero_value capacity = record {
    items = replicate capacity zero_value;
    capacity = capacity;
    front = 0;
    rear = negsuc 0;
    size = 0;
  }

  pub is_full : CircularQueue T → Bool
  is_full c = nat_beq c.size c.capacity

  pub is_empty : CircularQueue T → Bool
  is_empty c = nat_beq c.size 0

  -- `c.data[i] = x`, and the read of `c.data[i]`: `none` where Go panics.
  abbrev pub write_at : List T → ℤ → T → Option (List T)
  write_at slots (pos i) x = if ltb i (length slots) then some (set slots i x) else none
  write_at slots (negsuc i) x = none

  unfoldable pub enqueue : CircularQueue T → T → Outcome (CircularQueue T)
  unfolding is_full
  enqueue c x =
      let rear = rem (succ c.rear) c.capacity in
      if is_full c then err queue_full else elim (write_at c.items rear x) [
        | none ↦ fault
        | some slots ↦ ok (record c { rear = rear; items = slots; size = c.size + 1 })
      ]

  unfoldable pub dequeue : CircularQueue T → Outcome (T × CircularQueue T)
  unfolding is_empty
  dequeue c = if is_empty c then err queue_empty else elim (get_elem? c.items c.front) [
    | none ↦ fault
    | some x ↦ ok (x, record c { front = (c.front + 1) % c.capacity; size = c.size - 1 })
  ]

  unfoldable pub push : CircularQueue T → T → Outcome (CircularQueue T)
  unfolding is_full
  push c x =
      let front = (c.front + 1) % c.capacity in
      if is_full c then err queue_full else elim (write_at c.items (pos front) x) [
        | none ↦ fault
        | some slots ↦ ok (record c { front = front; items = slots; size = c.size + 1 })
      ]

  unfoldable pub peek : CircularQueue T → Outcome T
  unfolding is_empty
  peek c =
      if is_empty c
      then err queue_empty
      else elim (get_elem? c.items c.front) [ none ↦ fault | some x ↦ ok x ]

-- A client's calls in order, and what each returns. A run goes on after an error.
pub data Op {ℓ} (T : Type ℓ) : Type ℓ where
  put : T → Op T
  get look : Op T

module _ {ℓ} {T : Type ℓ} where
  abbrev pub after : CircularQueue T → Outcome (CircularQueue T) → CircularQueue T
  after c (ok d) = d
  after c (err e) = c
  after c fault = c

  abbrev pub reply : Outcome (CircularQueue T) → Outcome (Option T)
  reply (ok d) = ok none
  reply (err e) = err e
  reply fault = fault

  abbrev pub after_get : CircularQueue T → Outcome (T × CircularQueue T) → CircularQueue T
  after_get c (ok (x, d)) = d
  after_get c (err e) = c
  after_get c fault = c

  abbrev pub reply_get {κ} : {R : Type κ} → Outcome (T × R) → Outcome (Option T)
  reply_get (ok (x, r)) = ok (some x)
  reply_get (err e) = err e
  reply_get fault = fault

  abbrev pub reply_look : Outcome T → Outcome (Option T)
  reply_look (ok x) = ok (some x)
  reply_look (err e) = err e
  reply_look fault = fault

  unfoldable pub run : CircularQueue T → List (Op T) → List (Outcome (Option T))
  run c [] = []
  run c (put x ∷ ops) = let r = enqueue c x in reply r ∷ run (after c r) ops
  run c (get ∷ ops) = let r = dequeue c in reply_get r ∷ run (after_get c r) ops
  run c (look ∷ ops) = reply_look (peek c) ∷ run c ops
