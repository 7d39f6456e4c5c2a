-- ===== src/CircularQueue/PushBack.antt =====
-- `Push`, which is meant to put an item in front of the queue.
use native.Mathlib.Nat.{mod-add-mod, mod-lt, mod-eq_of_lt, mod-eq-sub-mod}
use native.Mathlib.Decide.{dec_lt}
use modelsrv.Prelude.{
  ℕ, ◌+◌, ◌%◌, ◌<◌, ◌≡◌, ◌≢◌, ◌-◌, ap, subst, ◌∙◌, sym, arith, set, get_elem?-set_self,
}
use modelsrv.CircularQueue.{CircularQueue, ok, err, queue_full, push, dequeue}
use modelsrv.CircularQueue.Valid.{IsValid, next_rear}

-- Two steps round a ring of more than two slots lead elsewhere.
two_further : (a m : ℕ) → 2 < m → (a + 2) % m ≢ a % m
two_further a m h e = elim (dec_lt (a % m + 2) m) [
  | yes p ↦ omega (arith, step, mod-lt a {m = m} (omega arith), mod-eq_of_lt p)
  | no p ↦ omega (
    arith,
    step,
    mod-lt a {m = m} (omega arith),
    mod-eq-sub-mod {n = a % m + 2} {m = m} (omega arith),
    mod-eq_of_lt {n = a % m + 2 - m} {m = m} (omega (arith, mod-lt a {m = m} (omega arith))),
  )
]
  where
    step : (a % m + 2) % m ≡ a % m
    step = mod-add-mod a m 2 ∙ e

module _ {T : Type 0} where
  pushed : CircularQueue T → T → CircularQueue T
  pushed c x = record c {
    front = (c.front + 1) % c.capacity;
    items = set c.items ((c.front + 1) % c.capacity) x;
    size = c.size + 1;
  }

  push-ok :
      (c : CircularQueue T) (x : T) → IsValid c → c.size < c.capacity → push c x ≡ ok (pushed c x)
  unfolding push pushed
  push-ok c x v h = ground arith

  push-full : (c : CircularQueue T) (x : T) → c.size ≡ c.capacity → push c x ≡ err queue_full
  unfolding push
  push-full c x h = ground arith

  -- A push that returns a queue had a free slot.
  push_inv :
      (c d : CircularQueue T) (x : T)
      → IsValid c
      → push c x ≡ ok d
      → (c.size < c.capacity) × (d ≡ pushed c x)
  push_inv c d x v h = elim (dec_lt c.size c.capacity) [
    | yes l ↦ (l, cc (push-ok c x v l))
    | no f ↦ cc (push-full c x (omega arith))
  ]

  -- An item that `Push` puts on a valid queue is the one that the next `Dequeue` returns, and
  -- after both the queue has as many items as before.
  pub dequeue-push :
      (c d : CircularQueue T) (x : T)
      → IsValid c
      → push c x ≡ ok d
      → (e : CircularQueue T) × (dequeue d ≡ ok (x, e)) × (e.size ≡ c.size)
  unfolding dequeue pushed
  dequeue-push c d x v h =
      let p = push_inv c d x v h in
      let f : ℕ = (c.front + 1) % c.capacity in
      let e = record (pushed c x) { front = (f + 1) % c.capacity; size = c.size + 1 - 1 } in
      (e, rw p.1 (ground (arith, get_elem?-set_self c.items f x)), omega arith)

  -- On every valid queue of more than two slots a `Push` that succeeds breaks the ring: the
  -- front moves on over a stored item, or onto a slot that holds none.
  pub push-not-IsValid :
      (c d : CircularQueue T) (x : T) → IsValid c → 2 < c.capacity → push c x ≡ ok d → ¬ IsValid d
  unfolding pushed
  push-not-IsValid c d x v h e w =
      let p = push_inv c d x v e in
      let at : next_rear c % c.capacity ≡ ((c.front + 1) % c.capacity + (c.size + 1)) % c.capacity =
        subst (λ q. next_rear q % q.capacity ≡ (q.front + q.size) % q.capacity) p.1 w.rear_at in
      two_further (c.front + c.size) c.capacity h (
        ap (λ k. k % c.capacity) (omega arith)
        ∙ sym (mod-add-mod (c.front + 1) c.capacity (c.size + 1))
        ∙ sym at
        ∙ v.rear_at)
