-- ===== src/CircularQueue/Refine.antt =====
-- A valid circular queue behaves as the bounded list of the items that it holds, oldest first.
mod Fifo
unfoldable pub use Fifo.*
use native.Mathlib.Nat.{mod-add-mod, mod-mod, mod-eq_of_lt, mod-eq-sub-mod, add-zero}
use native.Mathlib.Decide.{dec_lt}
use modelsrv.Prelude.{
  ℕ, zero, suc, ◌+◌, ◌-◌, ◌%◌, ◌≤◌, ◌<◌, ◌≡◌, refl, ◌∙◌, ap, ◌≢◌, List, [], ◌∷◌, ◌++◌, some, arith,
  pos, length, length-set, length-append, get_elem?, set, get_elem?-set_self, get_elem?-set_ne,
  ◌≡⟨◌⟩◌, ◌∎, nat_beq, Bool-cases, inl, inr,
}
use modelsrv.CircularQueue.{
  CircularQueue, new_circular_queue, enqueue, dequeue, peek, Outcome, ok, err, fault, queue_full,
  queue_empty,
}
use modelsrv.CircularQueue.Valid.{IsValid, next_rear, new_circular_queue-IsValid}

-- Fewer than `limit` steps round the ring do not come back to the start.
few_steps-ne :
    (at steps limit : ℕ) → 0 < steps → steps < limit → at < limit → (at + steps) % limit ≢ at
few_steps-ne at steps limit some_steps few at_in = elim (dec_lt (at + steps) limit) [
  | yes inside ↦ omega (arith, mod-eq_of_lt inside)
  | no round ↦ omega (
    mod-eq_of_lt {n = at + steps - limit} {m = limit} (omega arith),
    mod-eq-sub-mod {n = at + steps} {m = limit} (omega arith),
    arith,
  )
]

step_round : (a h n m : ℕ) → a % m ≡ (h + n) % m → suc a % m ≡ (h + (n + 1)) % m
step_round a h n m e =
    suc a % m
    ≡⟨ rw mod-add-mod (ap (λ k. k % m) (omega arith)) ⟩ (a % m + 1) % m
    ≡⟨ rw (e, mod-add-mod) (ap (λ k. k % m) (omega arith)) ⟩ (h + (n + 1)) % m ∎

drop_round : (h n m : ℕ) → n ≢ 0 → (h + n) % m ≡ ((h + 1) % m + (n - 1)) % m
drop_round h n m e = rw mod-add-mod (ap (λ k. k % m) (omega arith))

module _ {T : Type 0} where
  -- The slots from index `h` on hold `xs`, going round at `limit`.
  abbrev pub Window : List T → ℕ → ℕ → List T → Type 0
  Window slots limit h [] = Unit
  Window slots limit h (x ∷ xs) =
      (get_elem? slots h ≡ some x) × Window slots limit ((h + 1) % limit) xs

  abbrev pub Holds : CircularQueue T → List T → Type 0
  Holds c xs = IsValid c × (length xs ≡ c.size) × Window c.items c.capacity c.front xs

  -- The two sides give the same error, or leave a queue that holds the list.
  abbrev pub Agrees : ℕ → Outcome (CircularQueue T) → Outcome (List T) → Type 0
  Agrees limit (ok c) (ok xs) = Holds c xs × (c.capacity ≡ limit)
  Agrees limit (err e) (err f) = (e ≡ f)
  Agrees limit _ _ = ⊥

  Window-set :
      (slots : List T) (limit : ℕ) (x : T) (xs : List T) (h i : ℕ)
      → length slots ≡ limit
      → h < limit
      → length xs < limit
      → i ≡ (h + length xs) % limit
      → Window slots limit h xs
      → Window (set slots i x) limit h (xs ++ (x ∷ []))
  Window-set slots limit x [] h i hs hh hn e w =
      (rw (e, add-zero, mod-eq_of_lt hh) (get_elem?-set_self slots h x (omega arith)), tt)
  Window-set slots limit x (y ∷ ys) h i hs hh hn e w = (
    get_elem?-set_ne slots x (rw e (few_steps-ne h (suc (length ys)) limit (omega arith) hn hh))
        ∙ w.0,
    Window-set slots limit x ys ((h + 1) % limit) i hs (omega arith) (omega arith) (e ∙ shift) w.1,
  )
    where
      shift : (h + suc (length ys)) % limit ≡ ((h + 1) % limit + length ys) % limit
      shift = rw mod-add-mod (ap (λ k. k % limit) (omega arith))

  -- The slot after `rear`, and the queue with the item written there.
  slot : CircularQueue T → ℕ
  slot c = next_rear c % c.capacity

  grown : CircularQueue T → T → CircularQueue T
  unfolding slot
  grown c x = record c { rear = pos (slot c); items = set c.items (slot c) x; size = c.size + 1 }

  enqueue-ok :
      (c : CircularQueue T) (x : T) → IsValid c → c.size < c.capacity → enqueue c x ≡ ok (grown c x)
  unfolding enqueue grown
  enqueue-ok c x v h = rw v.rear_next (ground arith)

  grown-IsValid :
      (c : CircularQueue T) (x : T) → IsValid c → c.size < c.capacity → IsValid (grown c x)
  unfolding grown
  grown-IsValid c x v h = record {
    allocated = length-set c.items (slot c) x ∙ v.allocated;
    some_slot = v.some_slot;
    size_in = omega arith;
    front_in = v.front_in;
    rear_next = refl;
    rear_at = step_round (slot c) c.front c.size c.capacity (rw mod-mod v.rear_at);
  }

  grown-Holds :
      (c : CircularQueue T) (xs : List T) (x : T)
      → Holds c xs
      → c.size < c.capacity
      → Holds (grown c x) (xs ++ (x ∷ []))
  unfolding grown
  grown-Holds c xs x (v, n, w) h = (
    grown-IsValid c x v h,
    omega (arith, length-append xs (x ∷ [])),
    Window-set c.items c.capacity x xs c.front (slot c) v.allocated v.front_in (omega arith)
        (rw n v.rear_at) w,
  )

  enqueue-full : (c : CircularQueue T) (x : T) → c.size ≡ c.capacity → enqueue c x ≡ err queue_full
  unfolding enqueue
  enqueue-full c x h = ground arith

  -- `Enqueue` on a queue that holds xs does what appending does: an error on a full queue, which
  -- stays as it is, and else a queue that holds xs and then the item. It does not panic.
  pub enqueue_refines :
      (c : CircularQueue T) (xs : List T) (x : T)
      → Holds c xs
      → Agrees c.capacity (enqueue c x) (fifo_enqueue c.capacity xs x)
  unfolding grown
  enqueue_refines c xs x (v, n, w) = elim (Bool-cases (nat_beq c.size c.capacity)) [
    | inl e ↦ rw (n, e, enqueue-full c x (ground arith)) refl
    | inr e ↦
        rw (n, e, enqueue-ok c x v (ground arith))
          (grown-Holds c xs x (v, n, w) (ground arith), refl)
  ]

  -- The queue without its front item.
  shrunk : CircularQueue T → CircularQueue T
  shrunk c = record c { front = (c.front + 1) % c.capacity; size = c.size - 1 }

  shrunk-IsValid : (c : CircularQueue T) → IsValid c → c.size ≢ 0 → IsValid (shrunk c)
  unfolding shrunk
  shrunk-IsValid c v h = record {
    allocated = v.allocated;
    some_slot = v.some_slot;
    size_in = omega arith;
    front_in = omega arith;
    rear_next = v.rear_next;
    rear_at = v.rear_at ∙ drop_round c.front c.size c.capacity h;
  }

  abbrev pub AgreesRest : ℕ → Outcome (T × CircularQueue T) → Outcome (T × List T) → Type 0
  AgreesRest limit (ok (x, c)) (ok (y, ys)) = (x ≡ y) × Holds c ys × (c.capacity ≡ limit)
  AgreesRest limit (err e) (err f) = e ≡ f
  AgreesRest limit _ _ = ⊥

  dequeue-empty : (c : CircularQueue T) → c.size ≡ 0 → dequeue c ≡ err queue_empty
  unfolding dequeue
  dequeue-empty c h = ground arith

  dequeue-ok :
      (c : CircularQueue T) (x : T)
      → c.size ≢ 0
      → get_elem? c.items c.front ≡ some x
      → dequeue c ≡ ok (x, shrunk c)
  unfolding dequeue shrunk
  dequeue-ok c x h e = ground arith

  -- `Dequeue` on a queue that holds xs gives the oldest item and leaves a queue that holds the
  -- rest, or the error on an empty queue. It does not panic.
  pub dequeue_refines :
      (c : CircularQueue T) (xs : List T)
      → Holds c xs
      → AgreesRest c.capacity (dequeue c) (fifo_dequeue xs)
  dequeue_refines c [] (v, n, w) = rw (dequeue-empty c (omega arith)) refl
  dequeue_refines c (x ∷ xs) (v, n, w) =
      rw (dequeue-ok c x (omega arith) w.0)
        (unfold shrunk in (refl, (shrunk-IsValid c v (omega arith), omega arith, w.1), refl))

  -- `Peek` gives the oldest item, or the error on an empty queue.
  pub peek_refines : (c : CircularQueue T) (xs : List T) → Holds c xs → peek c ≡ fifo_peek xs
  unfolding peek
  peek_refines c [] (v, n, w) = ground arith
  peek_refines c (x ∷ xs) (v, n, w) = ground arith
