-- ===== src/History/Ring.antt =====
-- The ring's invariant, and what one Add does to its snapshot.
use modelsrv.Prelude.{
  ℕ, zero, suc, ◌+◌, ◌%◌, ◌≤◌, ◌<◌, ◌≡◌, refl, ap, sym, ◌∙◌, List, [], ◌∷◌, ◌++◌, arith, length,
  length-set, length-replicate, length-append, length-take, length-drop, take, drop, get_or, set,
  take-all, drop-all, take-set, drop-set, drop-get, append-nil, append_assoc, ℤ, ltb, nat_beq,
  nat_beq_iff, true, false, if◌then◌else◌, pos, negsuc,
}
use native.Mathlib.Nat.{mod-eq_of_lt, mod_self}
use native.Mathlib.Numerals.{add-one}
use native.Mathlib.Decide.{dec_lt}
use modelsrv.Event.{StoredEvent, zero_event}
use modelsrv.History.{HistoryRing, ring_limit, new_history_ring, add, snapshot}

pub record IsValid {ℓ} {O : Type ℓ} (r : HistoryRing O) : Type 0 where
  pub allocated : length r.buf ≡ r.limit
  pub next_in : r.next < r.limit
  pub size_in : r.size ≤ r.limit
  pub filling : r.size < r.limit → r.next ≡ r.size

pub ring_limit_positive : (n : ℤ) → 0 < ring_limit n
ring_limit_positive (pos zero) = omega arith
ring_limit_positive (pos (suc n)) = omega arith
ring_limit_positive (negsuc n) = omega arith

module _ {ℓ} {O : Type ℓ} where
  pub new_history_ring-IsValid : (n : ℤ) → IsValid (new_history_ring {O = O} n)
  unfolding new_history_ring
  new_history_ring-IsValid n = record {
    allocated = length-replicate (ring_limit n) zero_event;
    next_in = ring_limit_positive n;
    size_in = omega arith;
    filling = λ _. refl;
  }

  -- What Add does to a full ring, and to one with room.
  unfoldable pub overwritten : HistoryRing O → StoredEvent O → HistoryRing O
  overwritten r ev =
      let evicted = get_or r.buf r.next zero_event in
      record r {
        buf = set r.buf r.next ev;
        next = (r.next + 1) % r.limit;
        compaction_seq = evicted.sequence_id;
        compaction_at = evicted.timestamp;
      }

  unfoldable pub extended : HistoryRing O → StoredEvent O → HistoryRing O
  extended r ev = record r {
    buf = set r.buf r.next ev;
    next = (r.next + 1) % r.limit;
    size = r.size + 1;
  }

  pub add-full :
      (r : HistoryRing O) (ev : StoredEvent O) → r.size ≡ r.limit → add r ev ≡ overwritten r ev
  unfolding add overwritten
  add-full r ev h = rw ((nat_beq_iff r.size r.limit).1 h)

  pub add-room :
      (r : HistoryRing O) (ev : StoredEvent O) → r.size < r.limit → add r ev ≡ extended r ev
  unfolding add extended
  add-room r ev h = let e : nat_beq r.size r.limit ≡ false = ground arith in rw e

  -- One Add keeps the invariant: no index ever leaves the buffer.
  pub add-IsValid : (r : HistoryRing O) (ev : StoredEvent O) → IsValid r → IsValid (add r ev)
  unfolding overwritten extended
  add-IsValid r ev v = elim (dec_lt r.size r.limit) [
    | yes h ↦ rw (add-room r ev h) (record {
      allocated = length-set r.buf r.next ev ∙ v.allocated;
      next_in = omega arith;
      size_in = omega arith;
      filling = λ q. ap (λ k. (k + 1) % r.limit) (v.filling h) ∙ mod-eq_of_lt q;
    })
    | no h ↦ rw (add-full r ev (omega arith)) (record {
      allocated = length-set r.buf r.next ev ∙ v.allocated;
      next_in = omega arith;
      size_in = v.size_in;
      filling = λ q. omega arith;
    })
  ]

  -- The buffer read from index n round to it.
  round_from : ℕ → List (StoredEvent O) → List (StoredEvent O)
  round_from n xs = drop n xs ++ take n xs

  round_from-set :
      (xs : List (StoredEvent O)) (n : ℕ) (ev : StoredEvent O)
      → n < length xs
      → round_from ((n + 1) % length xs) (set xs n ev) ≡ drop (suc n) xs ++ (take n xs ++ (ev ∷ []))
  unfolding round_from
  round_from-set xs n ev h = elim (dec_lt (n + 1) (length xs)) [
    | yes p ↦ rw (mod-eq_of_lt p, add-one) (rw (drop-set xs n ev, take-set xs n ev h))
    | no p ↦
        let e : n + 1 ≡ length xs = omega arith in
        rw (e, mod_self, append-nil, drop-all (suc n) xs (omega arith), ← take-set xs n ev h)
          (sym (take-all (suc n) (set xs n ev) (omega (arith, length-set xs n ev))))
  ]

  -- What stays of a snapshot when an entry is added to a ring of `size` entries.
  abbrev pub kept : HistoryRing O → List (StoredEvent O)
  kept r = if nat_beq r.size r.limit then drop 1 (snapshot r) else snapshot r

  snapshot-full : (r : HistoryRing O) → r.size ≡ r.limit → snapshot r ≡ round_from r.next r.buf
  unfolding snapshot round_from
  snapshot-full r h = let e : ltb r.size r.limit ≡ false = ground arith in rw e

  snapshot-room : (r : HistoryRing O) → r.size < r.limit → snapshot r ≡ take r.size r.buf
  unfolding snapshot
  snapshot-room r h = let e : ltb r.size r.limit ≡ true = ground arith in rw e

  -- After the write the buffer, read from the new place, ends with the entry.
  round_from-add :
      (r : HistoryRing O) (ev : StoredEvent O)
      → IsValid r
      → round_from ((r.next + 1) % r.limit) (set r.buf r.next ev)
        ≡ drop (suc r.next) r.buf ++ (take r.next r.buf ++ (ev ∷ []))
  round_from-add r ev v =
      ap (λ k. round_from ((r.next + 1) % k) (set r.buf r.next ev)) (sym v.allocated)
      ∙ round_from-set r.buf r.next ev (omega arith)

  snapshot-overwritten :
      (r : HistoryRing O) (ev : StoredEvent O)
      → IsValid r
      → r.size ≡ r.limit
      → snapshot (overwritten r ev) ≡ drop 1 (snapshot r) ++ (ev ∷ [])
  unfolding overwritten round_from
  snapshot-overwritten r ev v h =
      rw (snapshot-full r h, drop-get r.buf r.next zero_event (omega arith), append_assoc)
        (snapshot-full (overwritten r ev) h ∙ round_from-add r ev v)

  snapshot-extended :
      (r : HistoryRing O) (ev : StoredEvent O)
      → IsValid r
      → r.size < r.limit
      → snapshot (extended r ev) ≡ snapshot r ++ (ev ∷ [])
  unfolding extended
  snapshot-extended r ev v h = rw (snapshot-room r h) (elim (dec_lt (r.size + 1) r.limit) [
    | yes p ↦
        snapshot-room (extended r ev) p
        ∙ (rw (add-one, v.filling h) (take-set r.buf r.size ev (omega arith)))
    | no p ↦
        snapshot-full (extended r ev) (omega arith)
        ∙ (round_from-add r ev v
            ∙ rw (drop-all (suc r.next) r.buf (omega (arith, v.filling h)), v.filling h))
  ])

  -- Add puts the entry at the end of the snapshot; on a full ring the oldest entry leaves it.
  pub snapshot-add :
      (r : HistoryRing O) (ev : StoredEvent O)
      → IsValid r
      → snapshot (add r ev) ≡ kept r ++ (ev ∷ [])
  snapshot-add r ev v = elim (dec_lt r.size r.limit) [
    | yes h ↦
        let e : nat_beq r.size r.limit ≡ false = ground arith in
        rw (add-room r ev h, e) (snapshot-extended r ev v h)
    | no h ↦
        let e : r.size ≡ r.limit = omega arith in
        rw (add-full r ev e, (nat_beq_iff r.size r.limit).1 e) (snapshot-overwritten r ev v e)
  ]

  -- The entry that a full ring overwrites is the oldest of its snapshot.
  pub get_or-snapshot :
      (r : HistoryRing O)
      → IsValid r
      → r.size ≡ r.limit
      → get_or (snapshot r) 0 zero_event ≡ get_or r.buf r.next zero_event
  unfolding round_from
  get_or-snapshot r v h =
      rw (snapshot-full r h, drop-get r.buf r.next zero_event (omega arith)) refl

  pub length-snapshot : (r : HistoryRing O) → IsValid r → length (snapshot r) ≡ r.size
  unfolding round_from
  length-snapshot r v = elim (dec_lt r.size r.limit) [
    | yes h ↦ rw (snapshot-room r h) (omega (arith, length-take r.size r.buf))
    | no h ↦ rw (snapshot-full r (omega arith)) (
        omega (
          arith,
          length-append (drop r.next r.buf) (take r.next r.buf),
          length-take r.next r.buf,
          length-drop r.next r.buf,
        ))
  ]
