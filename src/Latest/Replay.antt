-- ===== src/Latest/Replay.antt =====
-- What the store's snapshot tells a subscriber.
use modelsrv.Prelude.{
  ◌≡◌, refl, List, [], ◌∷◌, ◌++◌, Option, none, some, Bool, true, false, Bool-cases, Option-cases,
  inl, inr, ◌==◌, arith, if◌then◌else◌, ◌∙◌, sym, ap, beq_self, fun_ext, ap₂, ◌||◌,
}
use modelsrv.Prelude.Dict.{lookup, lookup-insert, lookup-delete}
use modelsrv.Event.{Event}
use modelsrv.Event.Wire.{create_operation, delete_operation, operation_eq}
use modelsrv.View.{ResourceKey, resource_key_eq, event_key, outcome, put, replay, update_of}
use modelsrv.Latest.{
  LatestStateStore, new_latest_state_store, receive, receive_delete, receive_upsert, get_events,
  get_events_from, state_at,
}
use modelsrv.Latest.Valid.{
  IsValid, Distinct, new_latest_state_store-IsValid, receive-IsValid, contains, is_some,
}

module _ {O : Type 0} where
  -- What the store holds of a resource, as a view.
  abbrev pub objects_of : Option (Event O) → Option (List O)
  objects_of none = none
  objects_of (some ev) = some ev.objects

  -- What is there, or else what was there before.
  abbrev pub or_kept : Option (List O) → Option (List O) → Option (List O)
  or_kept (some x) old = some x
  or_kept none old = old

  abbrev pub live : LatestStateStore O → ResourceKey → Option (List O)
  live s k = objects_of (lookup k s.state)

  abbrev pub receive_event : LatestStateStore O → Event O → LatestStateStore O
  receive_event s ev = receive s ev.resource_type ev.operation ev.resource_id ev.objects

  live-receive_delete :
      (s : LatestStateStore O) (key k : ResourceKey)
      → live (receive_delete s key) k ≡ put key none (live s) k
  unfolding receive_delete
  live-receive_delete s key k = elim (Option-cases (lookup key s.state)) [
    | inl e ↦ rw (e, receive_delete) (ground (arith, resource_key_eq.equals_iff key k))
    | inr (ev, e) ↦ rw (e, receive_delete, lookup-delete) (ground arith)
  ]

  -- What the store holds of live resources changes by an event as what a receiver of the event
  -- holds: the resource of a Delete is gone, that of any other has the objects of the event,
  -- and the rest is the same.
  pub live-receive :
      (s : LatestStateStore O) (ev : Event O) (k : ResourceKey)
      → live (receive_event s ev) k ≡ put (event_key ev) (outcome ev) (live s) k
  unfolding receive receive_upsert
  live-receive s ev k = elim (Bool-cases (ev.operation == delete_operation)) [
    | inl e ↦ rw e (live-receive_delete s (event_key ev) k)
    | inr e ↦ rw (e, lookup-insert) (ground arith)
  ]

  unfoldable pub receive_all : LatestStateStore O → List (Event O) → LatestStateStore O
  receive_all s [] = s
  receive_all s (ev ∷ evs) = receive_all (receive_event s ev) evs

  abbrev pub updates : List (Event O) → List (ResourceKey × Option (List O))
  updates [] = []
  updates (ev ∷ evs) = update_of ev ∷ updates evs

  state_at-event_key :
      (s : LatestStateStore O) (k : ResourceKey)
      → IsValid s
      → is_some (lookup k s.state) ≡ true
      → event_key (state_at s k) ≡ k
  state_at-event_key s k v h = elim (Option-cases (lookup k s.state)) [
    | inl e ↦ cc
    | inr (ev, e) ↦ rw (e, state_at) (v.keyed k ev e)
  ]

  snapshot_step :
      (s : LatestStateStore O) (j k : ResourceKey) (view : ResourceKey → Option (List O))
      (later : Bool)
      → (if later then some (state_at s k).objects else put j (some (state_at s j).objects) view k)
        ≡ (if (j == k) || later then some (state_at s k).objects else view k)
  snapshot_step s j k view true = ground arith
  snapshot_step s j k view false = elim (Bool-cases (j == k)) [
    | inl e ↦ rw e (ap (λ i. some (state_at s i).objects) ((resource_key_eq.equals_iff j k).0 e))
    | inr e ↦ rw e
  ]

  pub updates-append : (xs ys : List (Event O)) → updates (xs ++ ys) ≡ updates xs ++ updates ys
  updates-append [] ys = refl
  updates-append (x ∷ xs) ys = ap (◌∷◌ (update_of x)) (updates-append xs ys)

  -- The snapshot sets every listed resource, and says nothing of any other.
  replay-get_events_from :
      (s : LatestStateStore O) (keys : List ResourceKey) (view : ResourceKey → Option (List O))
      (k : ResourceKey)
      → IsValid s
      → ((j : ResourceKey) → contains j keys ≡ true → is_some (lookup j s.state) ≡ true)
      → replay (updates (get_events_from s keys)) view k
        ≡ (if contains k keys then some (state_at s k).objects else view k)
  unfolding replay contains get_events_from
  replay-get_events_from s [] view k v h = refl
  replay-get_events_from s (j ∷ js) view k v h =
      let first : event_key (state_at s j) ≡ j = state_at-event_key s j v (h j (rw (beq_self j))) in
      replay-get_events_from s js
        (put (event_key (state_at s j)) (some (state_at s j).objects) view) k v
        (λ i m. h i (ground (arith, m)))
      ∙ (ap
            (λ i.
              if contains k js
              then some (state_at s k).objects
              else put i (some (state_at s j).objects) view k)
            first
          ∙ snapshot_step s j k view (contains k js))

  -- A subscriber that takes the snapshot of a valid store, whatever it held before, holds every
  -- live resource as the store does. Of a resource that is not live it keeps what it held
  -- before: the snapshot carries no Delete.
  pub replay-get_events :
      (s : LatestStateStore O) (view : ResourceKey → Option (List O)) (k : ResourceKey)
      → IsValid s
      → replay (updates (get_events s)) view k ≡ or_kept (live s k) (view k)
  unfolding get_events
  replay-get_events s view k v =
      replay-get_events_from s s.order view k v (λ j m. sym (v.listed j) ∙ m)
      ∙ ground (arith, v.listed k)

  pub receive_all-append :
      (s : LatestStateStore O) (xs ys : List (Event O))
      → receive_all s (xs ++ ys) ≡ receive_all (receive_all s xs) ys
  unfolding receive_all
  receive_all-append s [] ys = refl
  receive_all-append s (x ∷ xs) ys = receive_all-append (receive_event s x) xs ys

  pub receive_all-IsValid :
      (s : LatestStateStore O) (evs : List (Event O)) → IsValid s → IsValid (receive_all s evs)
  unfolding receive_all
  receive_all-IsValid s [] v = v
  receive_all-IsValid s (ev ∷ evs) v =
      receive_all-IsValid (receive_event s ev) evs
        (receive-IsValid s ev.resource_type ev.operation ev.resource_id ev.objects v)

  pub live-receive_all :
      (s : LatestStateStore O) (evs : List (Event O)) (k : ResourceKey)
      → live (receive_all s evs) k ≡ replay (updates evs) (live s) k
  unfolding receive_all replay
  live-receive_all s [] k = refl
  live-receive_all s (ev ∷ evs) k =
      live-receive_all (receive_event s ev) evs k
      ∙ ap (λ view. replay (updates evs) view k) (fun_ext (live-receive s ev))

  -- What a receiver holds that has nothing yet.
  abbrev pub no_resources : ResourceKey → Option (List O)
  no_resources k = none

  -- After any events, the snapshot of the store brings a new subscriber to what it would hold had
  -- it received those events from the start.
  pub replay-get_events-receive_all :
      (evs : List (Event O)) (k : ResourceKey)
      → replay (updates (get_events (receive_all new_latest_state_store evs))) no_resources k
        ≡ replay (updates evs) no_resources k
  unfolding new_latest_state_store lookup
  replay-get_events-receive_all evs k =
      let s = receive_all new_latest_state_store evs in
      let v = receive_all-IsValid new_latest_state_store evs new_latest_state_store-IsValid in
      replay-get_events s no_resources k v
      ∙ (ground arith ∙ live-receive_all new_latest_state_store evs k)

  abbrev pub keys_of : List (Event O) → List ResourceKey
  keys_of [] = []
  keys_of (ev ∷ evs) = event_key ev ∷ keys_of evs

  abbrev pub AllCreate : List (Event O) → Type 0
  AllCreate [] = Unit
  AllCreate (ev ∷ evs) = (ev.operation ≡ create_operation) × AllCreate evs

  get_events_from-keys :
      (s : LatestStateStore O) (keys : List ResourceKey)
      → IsValid s
      → ((j : ResourceKey) → contains j keys ≡ true → is_some (lookup j s.state) ≡ true)
      → (keys_of (get_events_from s keys) ≡ keys) × AllCreate (get_events_from s keys)
  unfolding get_events_from contains
  get_events_from-keys s [] v h = (refl, tt)
  get_events_from-keys s (k ∷ ks) v h =
      let rest = get_events_from-keys s ks v (λ j m. h j (ground (arith, m))) in
      (ap₂ ◌∷◌ (state_at-event_key s k v (h k (rw (beq_self k)))) rest.0, (refl, rest.1))

  -- The snapshot has one event for each resource of the order, in that order, all of them Creates;
  -- no resource is in the order twice, and those in it are exactly the live ones.
  pub get_events-keys :
      (s : LatestStateStore O)
      → IsValid s
      → (keys_of (get_events s) ≡ s.order)
        × AllCreate (get_events s)
        × Distinct s.order
        × ((k : ResourceKey) → contains k s.order ≡ is_some (live s k))
  unfolding get_events
  get_events-keys s v =
      let r = get_events_from-keys s s.order v (λ j m. sym (v.listed j) ∙ m) in
      (r.0, r.1, v.distinct, λ k. ground (arith, v.listed k))
