-- ===== src/CircularQueue/Run.antt =====
-- Sequences of Enqueue, Dequeue and Peek against the bounded list.
use modelsrv.Prelude.{ℕ, ◌<◌, ◌≡◌, refl, ap₂, List, [], ◌∷◌, subst}
use modelsrv.CircularQueue.{
  CircularQueue, new_circular_queue, enqueue, dequeue, Outcome, ok, err, fault, Op, put, get, look,
  after, after_get, reply, reply_get, run,
}
use modelsrv.CircularQueue.Valid.{new_circular_queue-IsValid}
use modelsrv.CircularQueue.Refine.{
  Holds, Agrees, AgreesRest, enqueue_refines, dequeue_refines, peek_refines, fifo_enqueue,
  fifo_dequeue, fifo_after, fifo_reply, fifo_rest, fifo_run,
}

module _ {T : Type 0} where
  -- What a call leaves behind, for the queue and for the list.
  abbrev Next : ℕ → CircularQueue T → List T → Type 0
  Next limit c xs = Holds c xs × (c.capacity ≡ limit)

  put_step :
      (limit : ℕ) (c : CircularQueue T) (xs : List T) (r : Outcome (CircularQueue T))
      (s : Outcome (List T))
      → Next limit c xs
      → Agrees limit r s
      → (reply r ≡ fifo_reply s) × Next limit (after c r) (fifo_after xs s)
  put_step limit c xs (ok d) (ok ys) h a = (refl, a)
  put_step limit c xs (ok d) (err f) h a = absurd a
  put_step limit c xs (ok d) fault h a = absurd a
  put_step limit c xs (err e) (ok ys) h a = absurd a
  put_step limit c xs (err e) (err f) h a = (cc, h)
  put_step limit c xs (err e) fault h a = absurd a
  put_step limit c xs fault s h a = absurd a

  get_step :
      (limit : ℕ) (c : CircularQueue T) (xs : List T) (r : Outcome (T × CircularQueue T))
      → Next limit c xs
      → AgreesRest limit r (fifo_dequeue xs)
      → (reply_get r ≡ reply_get (fifo_dequeue xs)) × Next limit (after_get c r) (fifo_rest xs)
  get_step limit c [] (ok d) h a = absurd a
  get_step limit c [] (err e) h a = (cc, h)
  get_step limit c [] fault h a = absurd a
  get_step limit c (x ∷ xs) (ok (y, d)) h a = (cc, (a.1, a.2))
  get_step limit c (x ∷ xs) (err e) h a = absurd a
  get_step limit c (x ∷ xs) fault h a = absurd a

  run_refines :
      (limit : ℕ) (c : CircularQueue T) (xs : List T) (ops : List (Op T))
      → Holds c xs
      → c.capacity ≡ limit
      → run c ops ≡ fifo_run limit xs ops
  unfolding run fifo_run
  run_refines limit c xs [] h e = refl
  run_refines limit c xs (put x ∷ ops) h e =
      let a =
        subst (λ n. Agrees n (enqueue c x) (fifo_enqueue n xs x)) e (enqueue_refines c xs x h) in
      let s = put_step limit c xs (enqueue c x) (fifo_enqueue limit xs x) (h, e) a in
      ap₂ ◌∷◌ s.0 (run_refines limit (after c (enqueue c x)) _ ops s.1.0 s.1.1)
  run_refines limit c xs (get ∷ ops) h e =
      let a = subst (λ n. AgreesRest n (dequeue c) (fifo_dequeue xs)) e (dequeue_refines c xs h) in
      let s = get_step limit c xs (dequeue c) (h, e) a in
      ap₂ ◌∷◌ s.0 (run_refines limit (after_get c (dequeue c)) _ ops s.1.0 s.1.1)
  run_refines limit c xs (look ∷ ops) h e =
      ap₂ ◌∷◌ (rw (peek_refines c xs h)) (run_refines limit c xs ops h e)

  -- No sequence of Enqueue, Dequeue and Peek calls tells a new circular queue with at least one slot
  -- from an empty list of at most `capacity` items: every reply is that list's, errors included,
  -- and no call panics.
  pub run-new_circular_queue :
      (z : T) (capacity : ℕ) (ops : List (Op T))
      → 0 < capacity
      → run (new_circular_queue z capacity) ops ≡ fifo_run capacity [] ops
  unfolding new_circular_queue
  run-new_circular_queue z capacity ops h =
      run_refines capacity (new_circular_queue z capacity) [] ops
        (new_circular_queue-IsValid z capacity h, refl, tt) refl
