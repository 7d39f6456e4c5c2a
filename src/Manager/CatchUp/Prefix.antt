-- ===== src/Manager/CatchUp/Prefix.antt =====
-- The synthesized prefix: what it says of a resource that the tail does not mention.
use modelsrv.Prelude.{
  ℕ, ◌≡◌, refl, ap, sym, ◌∙◌, Option, none, some, true, false, List, [], ◌∷◌, ◌==◌, Bool-cases, inl,
  inr,
}
use modelsrv.Event.{Event, StoredEvent}
use modelsrv.Event.Wire.{create_operation, operation_eq}
use modelsrv.View.{
  ResourceKey, resource_key_eq, event_key, outcome, last_update, last_of, replay-updated, updated,
}
use modelsrv.Latest.{LatestStateStore, get_events}
use modelsrv.Latest.Valid.{IsValid}
use modelsrv.Latest.Replay.{
  updates, AllCreate, get_events-keys, replay-get_events, live, or_kept, no_resources,
}
use modelsrv.Manager.Query.{synthesize, in_tail, tail_resource_key_eq}
use modelsrv.Manager.CatchUp.Names.{wire_key, stored_updates, stored_update_lem}

module _ {O : Type 0} where
  outcome-create : (ev : Event O) → ev.operation ≡ create_operation → outcome ev ≡ some ev.objects
  outcome-create ev h = rw h

  -- Keys that a list tells apart are different.
  apart :
      (tail : List (StoredEvent O)) (j k : ResourceKey)
      → in_tail (wire_key j) tail ≡ true
      → in_tail (wire_key k) tail ≡ false
      → (j == k) ≡ false
  apart tail j k t f = elim (Bool-cases (j == k)) [
    | inl e ↦
        let same = ap (λ i. in_tail (wire_key i) tail) ((resource_key_eq.equals_iff j k).0 e) in
        cc (same, t, f)
    | inr e ↦ e
  ]

  last_of-false : (l : Option (Option (List O))) (x : Option (List O)) → l ≡ last_of l false x
  last_of-false none x = refl
  last_of-false (some y) x = refl

  last_update-synthesize :
      (tail : List (StoredEvent O)) (seq at : ℕ) (evs : List (Event O)) (k : ResourceKey)
      → AllCreate evs
      → in_tail (wire_key k) tail ≡ false
      → last_update (stored_updates (synthesize tail seq at evs)) (wire_key k)
        ≡ last_update (updates evs) k
  unfolding synthesize last_update
  last_update-synthesize tail seq at [] k c n = refl
  last_update-synthesize tail seq at (ev ∷ evs) k c n =
      elim (Bool-cases (in_tail (wire_key (event_key ev)) tail)) [
        | inl t ↦
            let other = apart tail (event_key ev) k t n in
            rw (t, synthesize)
              (last_update-synthesize tail seq at evs k c.1 n
                ∙ rw other (last_of-false (last_update (updates evs) k) (outcome ev)))
        | inr t ↦
            rw (t, synthesize)
              (stored_update_lem seq at ev.resource_type create_operation ev.resource_id ev.objects
                  (synthesize tail seq at evs) k
                ∙ λ i.
                    last_of (last_update-synthesize tail seq at evs k c.1 n i) (event_key ev == k)
                      (sym (outcome-create ev c.0) i))
      ]

  or_kept-none : (l : Option (List O)) → or_kept l none ≡ l
  or_kept-none none = refl
  or_kept-none (some x) = refl

  -- A resource that the tail does not mention has in the prefix what the store holds of it, and
  -- nothing if it is not live.
  pub prefix_update :
      (s : LatestStateStore O) (tail : List (StoredEvent O)) (seq at : ℕ) (k : ResourceKey)
      → IsValid s
      → in_tail (wire_key k) tail ≡ false
      → updated
          (last_update (stored_updates (synthesize tail seq at (get_events s))) (wire_key k))
          none
        ≡ live s k
  prefix_update s tail seq at k v n =
      ap (λ l. updated l none)
        (last_update-synthesize tail seq at (get_events s) k (get_events-keys s v).1 n)
      ∙ (sym (replay-updated (updates (get_events s)) no_resources k)
          ∙ (replay-get_events s no_resources k v ∙ or_kept-none (live s k)))
