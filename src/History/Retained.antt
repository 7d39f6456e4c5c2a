-- ===== src/History/Retained.antt =====
-- The ring against the whole history: it retains the most recent entries, and its boundary is the
-- last entry that it has let go.
use native.Mathlib.Decide.{dec_lt}
use modelsrv.Prelude.{
  ℕ, zero, suc, ◌+◌, ◌-◌, ◌≤◌, ◌<◌, ◌≡◌, refl, ap, sym, ◌∙◌, List, [], ◌∷◌, ◌++◌, arith, length,
  length-append, drop, get_or, append-nil, append_assoc, ℤ, ltb, nat_beq, if◌then◌else◌, true,
  false, min,
}
use modelsrv.Event.{StoredEvent, zero_event}
use modelsrv.History.{HistoryRing, ring_limit, new_history_ring, add, snapshot, compaction_boundary}
use modelsrv.History.Ring.{
  IsValid, new_history_ring-IsValid, ring_limit_positive, add-IsValid, snapshot-add, add-full,
  add-room, get_or-snapshot, overwritten, extended, length-snapshot,
}

module _ {ℓ} {O : Type ℓ} where
  -- The entries of a history, added in order.
  unfoldable pub add_all : HistoryRing O → List (StoredEvent O) → HistoryRing O
  add_all r [] = r
  add_all r (ev ∷ evs) = add_all (add r ev) evs

  -- The last k entries of a history, and the entry before them.
  abbrev pub recent : ℕ → List (StoredEvent O) → List (StoredEvent O)
  recent k h = drop (length h - k) h

  abbrev pub boundary : ℕ → List (StoredEvent O) → ℕ × ℕ
  boundary k h =
      let e = get_or h (length h - k - 1) zero_event in
      if ltb k (length h) then (e.sequence_id, e.timestamp) else (0, 0)

  drop-append :
      (n : ℕ) (xs ys : List (StoredEvent O)) → n ≤ length xs → drop n (xs ++ ys) ≡ drop n xs ++ ys
  drop-append zero xs ys h = refl
  drop-append (suc n) [] ys h = absurd (omega arith)
  drop-append (suc n) (x ∷ xs) ys h = drop-append n xs ys (omega arith)

  get_or-append :
      (n : ℕ) (xs ys : List (StoredEvent O))
      → n < length xs
      → get_or (xs ++ ys) n zero_event ≡ get_or xs n zero_event
  get_or-append n [] ys h = absurd (omega arith)
  get_or-append zero (x ∷ xs) ys h = refl
  get_or-append (suc n) (x ∷ xs) ys h = get_or-append n xs ys (omega arith)

  get_or-drop :
      (n : ℕ) (xs : List (StoredEvent O)) → get_or (drop n xs) 0 zero_event ≡ get_or xs n zero_event
  get_or-drop zero [] = refl
  get_or-drop zero (x ∷ xs) = refl
  get_or-drop (suc n) [] = refl
  get_or-drop (suc n) (x ∷ xs) = get_or-drop n xs

  drop-drop_one : (n : ℕ) (xs : List (StoredEvent O)) → drop 1 (drop n xs) ≡ drop (suc n) xs
  drop-drop_one zero xs = refl
  drop-drop_one (suc n) [] = refl
  drop-drop_one (suc n) (x ∷ xs) = drop-drop_one n xs

  -- The ring stands for the history h.
  pub record Retains (k : ℕ) (r : HistoryRing O) (h : List (StoredEvent O)) : Type ℓ where
    pub valid : IsValid r
    pub limit_is : r.limit ≡ k
    pub tail_is : snapshot r ≡ recent k h
    pub size_is : r.size ≡ min (length h) k
    pub boundary_is : compaction_boundary r ≡ boundary k h

  recent-snoc_room :
      (k : ℕ) (h : List (StoredEvent O)) (ev : StoredEvent O)
      → length h < k
      → recent k (h ++ (ev ∷ [])) ≡ recent k h ++ (ev ∷ [])
  recent-snoc_room k h ev l = rw (length-append h (ev ∷ [])) (
      let e : length h + 1 - k ≡ 0 = omega arith in
      let e' : length h - k ≡ 0 = omega arith in rw (e, e'))

  recent-snoc_full :
      (k : ℕ) (h : List (StoredEvent O)) (ev : StoredEvent O)
      → 0 < k
      → k ≤ length h
      → recent k (h ++ (ev ∷ [])) ≡ drop 1 (recent k h) ++ (ev ∷ [])
  recent-snoc_full k h ev p l = rw (length-append h (ev ∷ [])) (
      let e : length h + 1 - k ≡ suc (length h - k) = omega arith in
      rw (e, drop-drop_one, drop-append (suc (length h - k)) h (ev ∷ []) (omega arith)))

  boundary-snoc_room :
      (k : ℕ) (h : List (StoredEvent O)) (ev : StoredEvent O)
      → length h < k
      → boundary k (h ++ (ev ∷ [])) ≡ boundary k h
  boundary-snoc_room k h ev l =
      let n : ltb k (length (h ++ (ev ∷ []))) ≡ false = ground (arith, length-append h (ev ∷ [])) in
      let n' : ltb k (length h) ≡ false = ground arith in rw (n, n')

  boundary-snoc_full :
      (k : ℕ) (h : List (StoredEvent O)) (ev : StoredEvent O)
      → 0 < k
      → k ≤ length h
      → let e = get_or (recent k h) 0 zero_event in
        boundary k (h ++ (ev ∷ [])) ≡ (e.sequence_id, e.timestamp)
  boundary-snoc_full k h ev p l =
      let n : ltb k (length (h ++ (ev ∷ []))) ≡ true = ground (arith, length-append h (ev ∷ [])) in
      let i : length (h ++ (ev ∷ [])) - k - 1 ≡ length h - k =
        omega (arith, length-append h (ev ∷ [])) in
      let g : get_or (h ++ (ev ∷ [])) (length h - k) zero_event ≡ get_or (recent k h) 0 zero_event =
        get_or-append (length h - k) h (ev ∷ []) (omega arith)
        ∙ sym (get_or-drop (length h - k) h) in
      rw (n, i, g)

  Retains-add_room :
      (k : ℕ) (r : HistoryRing O) (h : List (StoredEvent O)) (ev : StoredEvent O)
      → Retains k r h
      → r.size < r.limit
      → Retains k (add r ev) (h ++ (ev ∷ []))
  unfolding extended compaction_boundary
  Retains-add_room k r h ev c l =
      let s = snapshot-add r ev c.valid in
      let n : nat_beq r.size r.limit ≡ false = ground arith in
      let short : length h < k = ground (arith, c.limit_is, c.size_is) in
      record {
        valid = add-IsValid r ev c.valid;
        limit_is = rw (add-room r ev l) c.limit_is;
        tail_is = s ∙ rw (n, c.tail_is) (sym (recent-snoc_room k h ev short));
        size_is = rw (add-room r ev l) (omega (arith, c.size_is, length-append h (ev ∷ [])));
        boundary_is = rw (add-room r ev l) (c.boundary_is ∙ sym (boundary-snoc_room k h ev short));
      }

  Retains-add_full :
      (k : ℕ) (r : HistoryRing O) (h : List (StoredEvent O)) (ev : StoredEvent O)
      → Retains k r h
      → r.size ≡ r.limit
      → Retains k (add r ev) (h ++ (ev ∷ []))
  unfolding overwritten compaction_boundary
  Retains-add_full k r h ev c l =
      let s = snapshot-add r ev c.valid in
      let n : nat_beq r.size r.limit ≡ true = ground arith in
      let long : k ≤ length h = ground (arith, c.limit_is, c.size_is) in
      let p : 0 < k = omega (arith, c.limit_is, c.valid.next_in) in
      record {
        valid = add-IsValid r ev c.valid;
        limit_is = rw (add-full r ev l) c.limit_is;
        tail_is = s ∙ rw (n, c.tail_is) (sym (recent-snoc_full k h ev p long));
        size_is = rw (add-full r ev l) (omega (arith, c.size_is, length-append h (ev ∷ [])));
        boundary_is = rw (add-full r ev l) (
            ap (λ (e : StoredEvent O). (e.sequence_id, e.timestamp))
              (sym (get_or-snapshot r c.valid l) ∙ ap (λ xs. get_or xs 0 zero_event) c.tail_is)
            ∙ sym (boundary-snoc_full k h ev p long));
      }

  -- One Add on a ring that stands for h leaves one that stands for h and then the entry.
  pub Retains-add :
      (k : ℕ) (r : HistoryRing O) (h : List (StoredEvent O)) (ev : StoredEvent O)
      → Retains k r h
      → Retains k (add r ev) (h ++ (ev ∷ []))
  Retains-add k r h ev c = elim (dec_lt r.size r.limit) [
    | yes l ↦ Retains-add_room k r h ev c l
    | no n ↦ Retains-add_full k r h ev c (omega (arith, c.valid.size_in))
  ]

  pub new_history_ring-Retains : (n : ℤ) → Retains (ring_limit n) (new_history_ring n) []
  unfolding new_history_ring snapshot compaction_boundary
  new_history_ring-Retains n =
      let p = ring_limit_positive n in
      let t : ltb 0 (ring_limit n) ≡ true = ground arith in
      let f : ltb (ring_limit n) 0 ≡ false = ground arith in
      let z : 0 - ring_limit n ≡ 0 = omega arith in
      record {
        valid = new_history_ring-IsValid n;
        limit_is = refl;
        tail_is = rw (t, z);
        size_is = omega arith;
        boundary_is = rw f;
      }

  add_all-Retains :
      (k : ℕ) (r : HistoryRing O) (h evs : List (StoredEvent O))
      → Retains k r h
      → Retains k (add_all r evs) (h ++ evs)
  unfolding add_all
  add_all-Retains k r h [] c = rw (append-nil) c
  add_all-Retains k r h (ev ∷ evs) c =
      rw (append_assoc h (ev ∷ []) evs) at
        (add_all-Retains k (add r ev) (h ++ (ev ∷ [])) evs (Retains-add k r h ev c))

  -- After any history, a new ring's Snapshot is the last `limit` entries in order, or all of them if
  -- there are no more than that; and its boundary is the number and time of the newest entry that
  -- was let go, or zeros.
  pub snapshot-add_all :
      (n : ℤ) (evs : List (StoredEvent O))
      → let r = add_all (new_history_ring n) evs in
        (snapshot r ≡ recent (ring_limit n) evs)
        × (compaction_boundary r ≡ boundary (ring_limit n) evs)
        × (length (snapshot r) ≤ ring_limit n)
  snapshot-add_all n evs =
      let c =
        add_all-Retains (ring_limit n) (new_history_ring n) [] evs (new_history_ring-Retains n) in
      (c.tail_is, c.boundary_is, omega (arith, length-snapshot _ c.valid, c.size_is))
