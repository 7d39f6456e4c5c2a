-- ===== src/CircularQueue/Tests.antt =====
-- Runs of the circular queue.
use modelsrv.Prelude.{ℕ, ◌≡◌, refl, List, [], ◌∷◌, none, some, pos, arith}
use modelsrv.CircularQueue.{
  CircularQueue, new_circular_queue, is_full, is_empty, enqueue, dequeue, push, peek, ok, err,
  queue_full, queue_empty, Op, put, get, look, run,
}
use modelsrv.CircularQueue.Valid.{IsValid}
use modelsrv.CircularQueue.Refine.{fifo_run}
use modelsrv.CircularQueue.Run.{run-new_circular_queue}
use modelsrv.CircularQueue.PushBack.{push-not-IsValid}

abbrev calls : List (Op ℕ)
calls = look ∷ put 1 ∷ put 2 ∷ put 3 ∷ get ∷ put 4 ∷ look ∷ get ∷ get ∷ get ∷ []

-- The ring wraps round, and the errors do not stop the run.
run-calls :
    run (new_circular_queue 0 2) calls
    ≡ err queue_empty
      ∷ ok none
      ∷ ok none
      ∷ err queue_full
      ∷ ok (some 1)
      ∷ ok none
      ∷ ok (some 2)
      ∷ ok (some 2)
      ∷ ok (some 4)
      ∷ err queue_empty
      ∷ []
unfolding run new_circular_queue enqueue dequeue peek is_full is_empty
run-calls = refl

run-new_circular_queue_example : run (new_circular_queue 0 2) calls ≡ fifo_run 2 [] calls
run-new_circular_queue_example = run-new_circular_queue 0 2 calls (omega arith)

abbrev two_items : CircularQueue ℕ
two_items = record { items = 7 ∷ 8 ∷ 0 ∷ []; capacity = 3; front = 0; rear = pos 1; size = 2 }

-- The second item is gone.
abbrev overwritten_items : CircularQueue ℕ
overwritten_items = record {
  items = 7 ∷ 9 ∷ 0 ∷ [];
  capacity = 3;
  front = 1;
  rear = pos 1;
  size = 3;
}

two_items-IsValid : IsValid two_items
two_items-IsValid = record {
  allocated = refl;
  some_slot = omega arith;
  size_in = omega arith;
  front_in = omega arith;
  rear_next = refl;
  rear_at = refl;
}

two_items-push : push two_items 9 ≡ ok overwritten_items
unfolding push is_full
two_items-push = refl

push-not-IsValid_example : ¬ IsValid overwritten_items
push-not-IsValid_example =
    push-not-IsValid two_items overwritten_items 9 two_items-IsValid (omega arith) two_items-push
