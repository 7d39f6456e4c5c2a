-- ===== src/Manager/CatchUp/Above.antt =====
-- The numbers of what a query returns: above the boundary in the tail, the boundary in the prefix.
use modelsrv.Prelude.{
  ℕ, zero, suc, ◌-◌, ◌≤◌, ◌<◌, ◌≡◌, refl, ap, subst, List, [], ◌∷◌, arith, length, drop, get_or,
  ltb, leb, true, false, ℤ, none, Bool-cases, inl, inr,
}
use modelsrv.Event.{Event, StoredEvent, EventQuery, zero_event, new_stored_event}
use modelsrv.History.Retained.{recent, boundary}
use modelsrv.Manager.Query.{matches, matching, synthesize}
use modelsrv.Manager.Log.{Entry, stored, Rising}

-- The query for everything after a number.
abbrev pub everything : ℕ → ℤ → EventQuery
everything since limit = record {
  operation = none;
  resource_type = none;
  resource_id = none;
  since_seq = since;
  limit = limit;
  include_payload = true;
}

module _ {O : Type 0} where
  abbrev pub AllAbove : ℕ → List (StoredEvent O) → Type 0
  AllAbove low [] = Unit
  AllAbove low (ev ∷ evs) = (low < ev.sequence_id) × AllAbove low evs

  pub AllAbove-mono :
      (low high : ℕ) (evs : List (StoredEvent O))
      → low ≤ high
      → AllAbove high evs
      → AllAbove low evs
  AllAbove-mono low high [] h a = tt
  AllAbove-mono low high (ev ∷ evs) h a = (omega arith, AllAbove-mono low high evs h a.1)

  -- A query for everything passes whatever is above its number, as it is.
  pub matching-everything :
      (since : ℕ) (limit : ℤ) (evs : List (StoredEvent O))
      → AllAbove since evs
      → matching (everything since limit) evs ≡ evs
  unfolding matching matches
  matching-everything since limit [] a = refl
  matching-everything since limit (ev ∷ evs) a =
      let over : leb ev.sequence_id since ≡ false = ground arith in
      rw (over, matching) (ap (◌∷◌ ev) (matching-everything since limit evs a.1))

  pub AllAbove-synthesize :
      (low : ℕ) (tail : List (StoredEvent O)) (seq at : ℕ) (evs : List (Event O))
      → low < seq
      → AllAbove low (synthesize tail seq at evs)
  unfolding synthesize new_stored_event
  AllAbove-synthesize low tail seq at [] h = tt
  AllAbove-synthesize low tail seq at (ev ∷ evs) h =
      ground (arith, AllAbove-synthesize low tail seq at evs h)

  -- The number before the n-th entry.
  before : ℕ → List (Entry O) → ℕ → ℕ
  before low h zero = low
  before low [] (suc n) = low
  before low (x ∷ xs) (suc n) = before x.seq xs n

  AllAbove-before :
      (low high : ℕ) (h : List (Entry O)) (n : ℕ)
      → Rising low high h
      → AllAbove (before low h n) (drop n (stored h))
  unfolding before new_stored_event
  AllAbove-before low high [] zero r = tt
  AllAbove-before low high [] (suc n) r = tt
  AllAbove-before low high (x ∷ xs) zero r = (
    r.0,
    AllAbove-mono low x.seq (stored xs) (omega arith) (AllAbove-before x.seq high xs zero r.1),
  )
  AllAbove-before low high (x ∷ xs) (suc n) r = AllAbove-before x.seq high xs n r.1

  before-get_or :
      (low : ℕ) (h : List (Entry O)) (n : ℕ)
      → n < length h
      → before low h (suc n) ≡ (get_or (stored h) n zero_event).sequence_id
  unfolding before new_stored_event
  before-get_or low [] n l = absurd (omega arith)
  before-get_or low (x ∷ xs) zero l = refl
  before-get_or low (x ∷ xs) (suc n) l = before-get_or x.seq xs n (omega arith)

  pub length-stored : (h : List (Entry O)) → length (stored h) ≡ length h
  length-stored [] = refl
  length-stored (x ∷ xs) = ap suc (length-stored xs)

  pub drop-stored : (n : ℕ) (h : List (Entry O)) → drop n (stored h) ≡ stored (drop n h)
  drop-stored zero h = refl
  drop-stored (suc n) [] = refl
  drop-stored (suc n) (x ∷ xs) = drop-stored n xs

  -- The entries retained lie above the boundary.
  pub AllAbove-boundary :
      (k high : ℕ) (h : List (Entry O))
      → Rising 0 high h
      → AllAbove (boundary k (stored h)).0 (recent k (stored h))
  unfolding before
  AllAbove-boundary k high h r = elim (Bool-cases (ltb k (length (stored h)))) [
    | inl t ↦
        let i = length (stored h) - k - 1 in
        let l : k < length (stored h) = ground arith in
        let e : suc i ≡ length (stored h) - k = omega arith in
        rw t (
          subst (λ b. AllAbove b (recent k (stored h)))
            (before-get_or 0 h i (omega (arith, length-stored h)))
            (subst (λ n. AllAbove (before 0 h (suc i)) (drop n (stored h))) e
              (AllAbove-before 0 high h (suc i) r)))
    | inr t ↦
        let z : length (stored h) - k ≡ 0 = ground arith in rw (t, z) (AllAbove-before 0 high h 0 r)
  ]

  get_or-above :
      (low high : ℕ) (h : List (Entry O)) (i : ℕ)
      → Rising low high h
      → i < length h
      → low < (get_or (stored h) i zero_event).sequence_id
  unfolding new_stored_event
  get_or-above low high [] i r l = absurd (omega arith)
  get_or-above low high (x ∷ xs) zero r l = r.0
  get_or-above low high (x ∷ xs) (suc i) r l =
      omega (arith, r.0, get_or-above x.seq high xs i r.1 (omega arith))

  -- A boundary of zero means that nothing is gone.
  pub boundary_zero :
      (k high : ℕ) (h : List (Entry O))
      → Rising 0 high h
      → (boundary k (stored h)).0 ≡ 0
      → length (stored h) - k ≡ 0
  boundary_zero k high h r z = elim (Bool-cases (ltb k (length (stored h)))) [
    | inl t ↦
        let i = length (stored h) - k - 1 in
        let l : k < length (stored h) = ground arith in
        let z' : (get_or (stored h) i zero_event).sequence_id ≡ 0 = rw t at z in
        absurd (omega (arith, z', get_or-above 0 high h i r (omega (arith, length-stored h))))
    | inr t ↦ ground arith
  ]

  -- All of a history lies above zero.
  pub AllAbove-zero : (high : ℕ) (h : List (Entry O)) → Rising 0 high h → AllAbove 0 (stored h)
  unfolding before
  AllAbove-zero high h r = AllAbove-before 0 high h 0 r
