-- ===== src/CircularQueue/Refine/Fifo.antt =====
-- The specification: a list of at most `limit` items, oldest first.
use modelsrv.Prelude.{ℕ, Option, none, List, [], ◌∷◌, ◌++◌, nat_beq, length, if◌then◌else◌}
use modelsrv.CircularQueue.{
  Outcome, ok, err, queue_full, queue_empty, fault, Op, put, get, look, reply_get, reply_look,
}

module _ {ℓ} {T : Type ℓ} where
  abbrev pub fifo_dequeue : List T → Outcome (T × List T)
  fifo_dequeue [] = err queue_empty
  fifo_dequeue (x ∷ xs) = ok (x, xs)

  abbrev pub fifo_enqueue : ℕ → List T → T → Outcome (List T)
  fifo_enqueue limit xs x =
      if nat_beq (length xs) limit then err queue_full else ok (xs ++ (x ∷ []))

  abbrev pub fifo_peek : List T → Outcome T
  fifo_peek [] = err queue_empty
  fifo_peek (x ∷ xs) = ok x

  abbrev pub fifo_after : List T → Outcome (List T) → List T
  fifo_after xs (ok ys) = ys
  fifo_after xs (err e) = xs
  fifo_after xs fault = xs

  abbrev pub fifo_reply : Outcome (List T) → Outcome (Option T)
  fifo_reply (ok ys) = ok none
  fifo_reply (err e) = err e
  fifo_reply fault = fault

  abbrev pub fifo_rest : List T → List T
  fifo_rest [] = []
  fifo_rest (x ∷ xs) = xs

  unfoldable pub fifo_run : ℕ → List T → List (Op T) → List (Outcome (Option T))
  fifo_run limit xs [] = []
  fifo_run limit xs (put x ∷ ops) =
      let r = fifo_enqueue limit xs x in fifo_reply r ∷ fifo_run limit (fifo_after xs r) ops
  fifo_run limit xs (get ∷ ops) = reply_get (fifo_dequeue xs) ∷ fifo_run limit (fifo_rest xs) ops
  fifo_run limit xs (look ∷ ops) = reply_look (fifo_peek xs) ∷ fifo_run limit xs ops
