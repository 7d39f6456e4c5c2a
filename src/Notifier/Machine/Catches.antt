-- ===== src/Notifier/Machine/Catches.antt =====
-- Events that bring a subscriber to what the store holds.
use modelsrv.Prelude.{◌≡◌, refl, ap, sym, ◌∙◌, Option, none, some, List, [], ◌∷◌, ◌++◌, arith}
use modelsrv.Event.{Event}
use modelsrv.View.{ResourceKey, resource_key_eq, replay-updated, updated, updated_twice}
use modelsrv.Latest.{LatestStateStore, get_events}
use modelsrv.Latest.Valid.{IsValid}
use modelsrv.Latest.Replay.{live, live-receive, receive_event, updates, replay-get_events, or_kept}
use modelsrv.Notifier.Machine.{seen}
use modelsrv.Notifier.Machine.Fresh.{says, says-append, says-snoc, says-cons, IsFresh}

updated-updated_twice :
    {V : Type 0} (a b : Option (Option V)) (old : Option V)
    → updated (updated_twice a b) old ≡ updated b (updated a old)
updated-updated_twice a none old = refl
updated-updated_twice a (some y) old = refl

module _ {O : Type 0} where
  -- The events, taken in by the subscriber, bring it to what the store holds of live resources.
  abbrev pub Catches :
      LatestStateStore O → List (Event O) → (ResourceKey → Option (List O)) → Type 0
  Catches s evs view =
      (k : ResourceKey) (x : List O) → live s k ≡ some x → updated (says evs k) (view k) ≡ some x

  pub Catches-record :
      (s : LatestStateStore O) (evs : List (Event O)) (view : ResourceKey → Option (List O))
      (ev : Event O)
      → Catches s evs view
      → Catches (receive_event s ev) (evs ++ (ev ∷ [])) view
  Catches-record s evs view ev c k x h =
      says-snoc evs ev k (view k) ∙ ground (arith, h, live-receive s ev k, c k x)

  pub Catches-seen :
      (s : LatestStateStore O) (evs : List (Event O)) (view : ResourceKey → Option (List O))
      (ev : Event O)
      → Catches s (ev ∷ evs) view
      → Catches s evs (seen ev view)
  Catches-seen s evs view ev c k x h = sym (says-cons ev evs k (view k)) ∙ c k x h

  pub Catches-snapshot :
      (s : LatestStateStore O) (evs : List (Event O)) (view : ResourceKey → Option (List O))
      → IsValid s
      → IsFresh s evs
      → Catches s (get_events s ++ evs) view
  Catches-snapshot s evs view v f k x h =
      let held : updated (says (get_events s) k) (view k) ≡ some x =
        sym (replay-updated (updates (get_events s)) view k)
        ∙ (replay-get_events s view k v ∙ ap (λ l. or_kept l (view k)) h) in
      ap (λ a. updated a (view k)) (says-append (get_events s) evs k)
      ∙ (updated-updated_twice (says (get_events s) k) (says evs k) (view k)
          ∙ (ap (updated (says evs k)) (held ∙ sym h) ∙ (f k ∙ h)))
