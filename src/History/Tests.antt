-- ===== src/History/Tests.antt =====
-- Runs of the history ring.
use modelsrv.Prelude.{ℕ, ◌+◌, ◌≡◌, refl, ◌≤◌, List, [], ◌∷◌, pos, length}
use modelsrv.Event.{StoredEvent}
use modelsrv.History.{new_history_ring, add, make_room, snapshot, compaction_boundary}
use modelsrv.History.Retained.{add_all, recent, boundary, snapshot-add_all}

abbrev entry : ℕ → StoredEvent ℕ
entry n = record {
  sequence_id = n;
  timestamp = 10 + n;
  resource_type = "Node";
  operation = "Create";
  resource_id = 7;
  objects = n ∷ [];
}

abbrev five : List (StoredEvent ℕ)
five = entry 1 ∷ entry 2 ∷ entry 3 ∷ entry 4 ∷ entry 5 ∷ []

-- Two of the five are gone, and the boundary is the second.
five_added :
    let r = add_all (new_history_ring (pos 3)) five in
    (snapshot r ≡ entry 3 ∷ entry 4 ∷ entry 5 ∷ []) × (compaction_boundary r ≡ (2, 12))
unfolding add_all new_history_ring add make_room snapshot compaction_boundary
five_added = (refl, refl)

snapshot-add_all_example :
    let r = add_all (new_history_ring (pos 3)) five in
    (snapshot r ≡ recent 3 five)
    × (compaction_boundary r ≡ boundary 3 five)
    × (length (snapshot r) ≤ 3)
snapshot-add_all_example = snapshot-add_all (pos 3) five
