-- ===== src/Notifier/Machine/Fresh.antt =====
-- Events that are still on their way: what they say of a resource is what the store holds.
use modelsrv.Prelude.{
  ◌≡◌, ap, sym, ◌∙◌, Option, Bool, true, false, List, [], ◌∷◌, ◌++◌, arith, ◌==◌, Option-cases, inl,
  inr, if◌then◌else◌,
}
use modelsrv.Event.{Event}
use modelsrv.View.{
  ResourceKey, resource_key_eq, event_key, outcome, put, last_update, last_update-append, updated,
  updated_twice,
}
use modelsrv.Latest.{LatestStateStore}
use modelsrv.Latest.Replay.{live, live-receive, receive_event, updates, updates-append}

-- A value that is either set or left alone, where what follows leaves alone what was there.
settled :
    {V : Type 0} (x : V) {old now : V} (b : Bool) (after : V → V)
    → now ≡ (if b then x else old)
    → after old ≡ old
    → (if b then x else after now) ≡ now
settled x true after p h = sym p
settled x false after p h = ap after p ∙ (h ∙ sym p)

module _ {O : Type 0} where
  abbrev pub says : List (Event O) → ResourceKey → Option (Option (List O))
  says evs k = last_update (updates evs) k

  -- The events, taken in by somebody who holds what the store holds, change nothing.
  abbrev pub IsFresh : LatestStateStore O → List (Event O) → Type 0
  IsFresh s evs = (k : ResourceKey) → updated (says evs k) (live s k) ≡ live s k

  pub says-append :
      (xs ys : List (Event O)) (k : ResourceKey)
      → says (xs ++ ys) k ≡ updated_twice (says xs k) (says ys k)
  says-append xs ys k =
      ap (λ l. last_update l k) (updates-append xs ys)
      ∙ last_update-append (updates xs) (updates ys) k

  -- An event that comes last decides of its own resource.
  pub says-snoc :
      (evs : List (Event O)) (ev : Event O) (k : ResourceKey) (old : Option (List O))
      → updated (says (evs ++ (ev ∷ [])) k) old
        ≡ (if event_key ev == k then outcome ev else updated (says evs k) old)
  unfolding last_update
  says-snoc evs ev k old = rw (says-append evs (ev ∷ []) k) (ground arith)

  -- An event that goes first is overruled by the rest.
  pub says-cons :
      (ev : Event O) (evs : List (Event O)) (k : ResourceKey) (old : Option (List O))
      → updated (says (ev ∷ evs) k) old
        ≡ updated (says evs k) (put (event_key ev) (outcome ev) (λ _. old) k)
  unfolding last_update
  says-cons ev evs k old = ground arith

  pub IsFresh-record :
      (s : LatestStateStore O) (evs : List (Event O)) (ev : Event O)
      → IsFresh s evs
      → IsFresh (receive_event s ev) (evs ++ (ev ∷ []))
  IsFresh-record s evs ev f k =
      says-snoc evs ev k (live (receive_event s ev) k)
      ∙ settled (outcome ev) (event_key ev == k) (updated (says evs k)) (live-receive s ev k) (f k)

  pub IsFresh-tail :
      (s : LatestStateStore O) (ev : Event O) (evs : List (Event O))
      → IsFresh s (ev ∷ evs)
      → IsFresh s evs
  unfolding last_update
  IsFresh-tail s ev evs f k = elim (Option-cases (says evs k)) [
    | inl e ↦ rw e
    | inr (y, e) ↦ ground (arith, e, f k)
  ]
