-- ===== src/Model/Mirror.antt =====
-- The events of the model tell a receiver what the model holds.
use modelsrv.Prelude.{
  ◌≡◌, refl, ◌∙◌, sym, ap, ap₂, Bool, true, false, Option, none, some, List, [], ◌∷◌, ◌++◌, ◌==◌,
  nat_eq, ◌&&◌, if◌then◌else◌, Option-cases, Bool-cases, inl, inr,
}
use modelsrv.Prelude.Dict.{Dict, lookup, insert, delete, lookup-insert, lookup-delete}
use modelsrv.Event.{Event, Uuid, nil}
use modelsrv.Event.Kind.{ResourceType, resource_type_eq}
use modelsrv.Event.Wire.{operation_eq, delete_operation}
use modelsrv.View.{ResourceKey, resource_key_eq, event_key, outcome, put, replay, replay-append}
use modelsrv.Latest.Replay.{updates, updates-append, no_resources}
use modelsrv.Model.Stores.{
  Store, store_eq, store_beq, kind_of, findings_by_uuid, capacities_by_uuid,
}
use modelsrv.Model.State.{
  ModelData, ModelError, Objects, after, put_store, receive, add_operation, add_event_enabled,
  delete_event_enabled,
}
use modelsrv.Model.Findings.{add_finding, delete_finding_by_id}
use modelsrv.Model.Capacities.{add_capacity, delete_capacity_by_id}
use modelsrv.Model.Capacities.Adding.{add_capacity-cases}

module _ {O : Type 0} where
  -- The objects of an event that carries the stored resource.
  abbrev pub single : Option O → Option (List O)
  single none = none
  single (some x) = some (x ∷ [])

  -- What a receiver of the events holds.
  abbrev pub received : List (Event O) → ResourceKey → Option (List O)
  received sink = replay (updates sink) no_resources

  -- It is what the maps hold.
  abbrev pub Mirrors : List (Event O) → (Store → Dict Uuid O) → Type 0
  Mirrors sink stores =
      (s : Store) (id : Uuid) → received sink (kind_of s, id) ≡ single (lookup id (stores s))

  abbrev pub IsMirrored : ModelData O → Type 0
  IsMirrored m = Mirrors m.sink m.stores

  -- One more event.
  received-snoc :
      (sink : List (Event O)) (ev : Event O) (k : ResourceKey)
      → received (sink ++ (ev ∷ [])) k ≡ put (event_key ev) (outcome ev) (received sink) k
  unfolding replay
  received-snoc sink ev k =
      ap (λ us. replay us no_resources k) (updates-append sink (ev ∷ []))
      ∙ ap (λ view. view k) (replay-append (updates sink) (updates (ev ∷ [])) no_resources)

  lookup-put_store :
      (m : ModelData O) (s t : Store) (d : Dict Uuid O) (j : Uuid)
      → lookup j ((put_store m s d).stores t)
        ≡ (if s == t then lookup j d else lookup j (m.stores t))
  lookup-put_store m s t d j = elim (Bool-cases (s == t)) [ inl e ↦ rw e refl | inr e ↦ rw e refl ]

  add_operation-upserts : (old : Option O) → (add_operation old == delete_operation) ≡ false
  add_operation-upserts none = refl
  add_operation-upserts (some x) = refl

  -- The resource that changes, and the others.
  chosen :
      (same hit : Bool) (old : Option (List O)) (own other new : Option O)
      → old ≡ single other
      → (same ≡ true → own ≡ other)
      → (if same && hit then single new else old)
        ≡ single (if same then if hit then new else own else other)
  chosen true true old own other new v h = refl
  chosen true false old own other new v h = v ∙ ap single (sym (h refl))
  chosen false hit old own other new v h = v

  -- An event that sets or removes the resource that a map has set or removed.
  changed-IsMirrored :
      (m : ModelData O) (s : Store) (d : Dict Uuid O) (ev : Event O) (new : Option O)
      → ev.resource_type ≡ kind_of s
      → outcome ev ≡ single new
      → ((j : Uuid) → lookup j d ≡ (if ev.resource_id == j then new else lookup j (m.stores s)))
      → IsMirrored m
      → Mirrors (m.sink ++ (ev ∷ [])) (put_store m s d).stores
  unfolding store_beq
  changed-IsMirrored m s d ev new kind out at v t j =
      let l : lookup j ((put_store m s d).stores t) ≡ (
          if s == t
          then if ev.resource_id == j then new else lookup j (m.stores s)
          else lookup j (m.stores t)) =
        (lookup-put_store m s t d j
          ∙ ap (λ x. if s == t then x else lookup j (m.stores t)) (at j)) in
      let c =
        chosen (s == t) (ev.resource_id == j) (received m.sink (kind_of t, j))
          (lookup j (m.stores s)) (lookup j (m.stores t)) new (v t j)
          (λ e. ap (λ i. lookup j (m.stores i)) ((store_eq.equals_iff s t).0 e)) in
      received-snoc m.sink ev (kind_of t, j)
      ∙ (ap₂
            (λ (rt : ResourceType) (x : Option (List O)).
              if rt == kind_of t && ev.resource_id == j then x else received m.sink (kind_of t, j))
            kind out
          ∙ (c ∙ ap single (sym l)))

  -- Each kind of change: a resource stored, and a resource deleted.
  stored-IsMirrored :
      (m : ModelData O) (s : Store) (id : Uuid) (obj : O) (old : Option O)
      → IsMirrored m
      → IsMirrored (
          receive
            (put_store m s (insert id obj (m.stores s)))
            (kind_of s)
            (add_operation old)
            id
            (obj ∷ []))
  stored-IsMirrored m s id obj old =
      changed-IsMirrored m s (insert id obj (m.stores s)) _ (some obj) refl
        (let e = add_operation-upserts old in rw e refl) (λ j. lookup-insert id j obj (m.stores s))

  deleted-IsMirrored :
      (m : ModelData O) (s : Store) (id : Uuid)
      → IsMirrored m
      → IsMirrored
          (receive (put_store m s (delete id (m.stores s))) (kind_of s) delete_operation id [])
  deleted-IsMirrored m s id =
      changed-IsMirrored m s (delete id (m.stores s)) _ none refl refl
        (λ j. lookup-delete id j (m.stores s))

  pub add_event_enabled-IsMirrored :
      (ob : Objects O) (m : ModelData O) (obj : O) (s : Store)
      → IsMirrored m
      → IsMirrored (after m (add_event_enabled ob m obj s (kind_of s)))
  unfolding add_event_enabled
  add_event_enabled-IsMirrored ob m obj s v = elim (Bool-cases (ob.get_id s obj == nil)) [
    | inl e ↦ rw e v
    | inr e ↦
        rw e (stored-IsMirrored m s (ob.get_id s obj) obj (lookup (ob.get_id s obj) (m.stores s)) v)
  ]

  pub delete_event_enabled-IsMirrored :
      (m : ModelData O) (id : Uuid) (s : Store) (missing : ModelError)
      → IsMirrored m
      → IsMirrored (after m (delete_event_enabled m id s (kind_of s) missing))
  unfolding delete_event_enabled
  delete_event_enabled-IsMirrored m id s missing v = elim (Option-cases (lookup id (m.stores s))) [
    | inl e ↦ rw (after, delete_event_enabled, e) v
    | inr (x, e) ↦ rw (after, delete_event_enabled, e) (deleted-IsMirrored m s id v)
  ]

  pub add_finding-IsMirrored :
      (ob : Objects O) (m : ModelData O) (f : O)
      → IsMirrored m
      → IsMirrored (after m (add_finding ob m f))
  unfolding add_finding kind_of
  add_finding-IsMirrored ob m f v =
      let id : Uuid = ob.get_id findings_by_uuid f in
      elim (Bool-cases (id == nil)) [
        | inl e ↦ rw e v
        | inr e ↦
            rw e
              (stored-IsMirrored m findings_by_uuid id f (lookup id (m.stores findings_by_uuid)) v)
      ]

  pub delete_finding_by_id-IsMirrored :
      (ob : Objects O) (m : ModelData O) (id : Uuid)
      → IsMirrored m
      → IsMirrored (after m (delete_finding_by_id ob m id))
  unfolding delete_finding_by_id kind_of
  delete_finding_by_id-IsMirrored ob m id v =
      elim (Option-cases (lookup id (m.stores findings_by_uuid))) [
        | inl e ↦ rw (after, delete_finding_by_id, e) v
        | inr (x, e) ↦
            rw (after, delete_finding_by_id, e) (deleted-IsMirrored m findings_by_uuid id v)
      ]

  pub add_capacity-IsMirrored :
      (ob : Objects O) (m : ModelData O) (c : O)
      → IsMirrored m
      → IsMirrored (after m (add_capacity ob m c))
  unfolding kind_of
  add_capacity-IsMirrored ob m c v = elim (add_capacity-cases ob m c) [
    | inl (x, e) ↦ rw e v
    | inr (ts, e) ↦
        let id : Uuid = ob.get_id capacities_by_uuid c in
        rw e
          (stored-IsMirrored m capacities_by_uuid id c (lookup id (m.stores capacities_by_uuid)) v)
  ]

  pub delete_capacity_by_id-IsMirrored :
      (ob : Objects O) (m : ModelData O) (id : Uuid)
      → IsMirrored m
      → IsMirrored (after m (delete_capacity_by_id ob m id))
  unfolding delete_capacity_by_id kind_of
  delete_capacity_by_id-IsMirrored ob m id v =
      elim (Option-cases (lookup id (m.stores capacities_by_uuid))) [
        | inl e ↦ rw (after, delete_capacity_by_id, e) v
        | inr (x, e) ↦
            rw (after, delete_capacity_by_id, e) (deleted-IsMirrored m capacities_by_uuid id v)
      ]
