-- ===== src/Manager/Page.antt =====
-- A page of results: which entries it holds.
use modelsrv.Prelude.{
  ℕ, zero, suc, ◌+◌, ◌-◌, ◌≤◌, ◌<◌, ◌≡◌, refl, ap, sym, ◌∙◌, true, List, [], ◌∷◌, ◌++◌, arith,
  length, length-append, take, take-all, ltb, leb, append-nil, append_assoc, Option-cases,
  Bool-cases, inl, inr, if◌then◌else◌, ℤ, pos, negsuc, is_nonpositive, to_ℕ,
}
use modelsrv.Event.{StoredEvent, EventQuery}
use modelsrv.History.{snapshot}
use modelsrv.Manager.{EventManager}
use modelsrv.Manager.Query.{
  matches, matching, page_from, query_events, synthetic_of, limit_of_query,
}

-- How many entries of the tail fit behind n results: at least one.
abbrev pub room : ℕ → ℕ → ℕ
room limit n = if ltb n limit then limit - n else 1

pub limit_of_query_positive : (q : EventQuery) → 0 < limit_of_query q
limit_of_query_positive q = positive q.limit
  where
    positive : (n : ℤ) → 0 < (if is_nonpositive n then 100 else to_ℕ n)
    positive (pos zero) = omega arith
    positive (pos (suc n)) = omega arith
    positive (negsuc n) = omega arith

enough : (limit n m k : ℕ) → n + m ≤ limit → k ≤ m → k ≤ room limit n
enough limit n m k h l = ground arith

module _ {O : Type 0} where
  take-nil : (n : ℕ) → take {A = StoredEvent O} n [] ≡ []
  take-nil zero = refl
  take-nil (suc n) = refl

  take-cons_room :
      (limit n : ℕ) (x : StoredEvent O) (xs : List (StoredEvent O))
      → suc n < limit
      → take (room limit n) (x ∷ xs) ≡ x ∷ take (room limit (suc n)) xs
  take-cons_room limit n x xs h =
      let l : ltb n limit ≡ true = ground arith in
      let l' : ltb (suc n) limit ≡ true = ground arith in
      let e : limit - n ≡ suc (limit - suc n) = omega arith in rw (l, l', e)

  take-cons_last :
      (limit n : ℕ) (x : StoredEvent O) (xs : List (StoredEvent O))
      → limit ≤ suc n
      → take (room limit n) (x ∷ xs) ≡ x ∷ []
  take-cons_last limit n x xs h = let e : room limit n ≡ 1 = ground arith in rw e

  grown_page :
      (q : EventQuery) (limit : ℕ) (results : List (StoredEvent O)) (entry : StoredEvent O)
      (rest : List (StoredEvent O))
      → length (results ++ (entry ∷ [])) ≡ suc (length results)
      → suc (length results) < limit
      → (results ++ (entry ∷ [])) ++ take (room limit (length (results ++ (entry ∷ [])))) rest
        ≡ results ++ take (room limit (length results)) (entry ∷ rest)
  grown_page q limit results entry rest n h =
      rw (n, append_assoc, take-cons_room limit (length results) entry rest h)

  page_from_lem :
      (q : EventQuery) (limit : ℕ) (results tail : List (StoredEvent O))
      → page_from q limit results tail
        ≡ results ++ take (room limit (length results)) (matching q tail)
  unfolding page_from matching
  page_from_lem q limit results [] = sym (rw take-nil (append-nil results))
  page_from_lem q limit results (ev ∷ tail) = elim (Option-cases (matches q ev)) [
    | inl e ↦ rw (e, page_from, matching) (page_from_lem q limit results tail)
    | inr (entry, e) ↦
        let n : length (results ++ (entry ∷ [])) ≡ suc (length results) =
          omega (arith, length-append results (entry ∷ [])) in
        elim (Bool-cases (leb limit (length (results ++ (entry ∷ []))))) [
          | inl stop ↦ rw (
            e,
            page_from,
            matching,
            stop,
            take-cons_last limit (length results) entry (matching q tail) (ground arith),
          )
          | inr more ↦
              rw (e, page_from, matching, more)
                (page_from_lem q limit (results ++ (entry ∷ [])) tail
                  ∙ grown_page q limit results entry (matching q tail) n (ground arith))
        ]
  ]

  -- A query gives the whole matching prefix, whatever the limit, and behind it the matching entries
  -- of the tail in order: as many as the limit leaves room for, but one at least.
  pub query_events_lem :
      (e : EventManager O) (q : EventQuery)
      → let prefix = matching q (synthetic_of e q) in
        query_events e q
        ≡ prefix
          ++ take (room (limit_of_query q) (length prefix)) (matching q (snapshot e.history_tail))
  unfolding query_events
  query_events_lem e q =
      page_from_lem q (limit_of_query q) (matching q (synthetic_of e q)) (snapshot e.history_tail)

  pub length-matching :
      (q : EventQuery) (evs : List (StoredEvent O)) → length (matching q evs) ≤ length evs
  unfolding matching
  length-matching q [] = omega arith
  length-matching q (ev ∷ evs) = ground (arith, length-matching q evs)

  -- So a limit that the tail cannot exceed gives everything that matches.
  pub query_events-all :
      (e : EventManager O) (q : EventQuery)
      → length (matching q (synthetic_of e q)) + length (snapshot e.history_tail) ≤ limit_of_query q
      → query_events e q ≡ matching q (synthetic_of e q) ++ matching q (snapshot e.history_tail)
  query_events-all e q h =
      query_events_lem e q
      ∙ ap (◌++◌ (matching q (synthetic_of e q))) (
          take-all _ (matching q (snapshot e.history_tail)) (
            enough (limit_of_query q) (length (matching q (synthetic_of e q)))
              (length (snapshot e.history_tail)) (length (matching q (snapshot e.history_tail))) h
              (length-matching q (snapshot e.history_tail))))
