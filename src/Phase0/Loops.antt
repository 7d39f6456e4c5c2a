-- ===== src/Phase0/Loops.antt =====
-- The loops of the filter over the listed contexts and nodes.
use modelsrv.Prelude.{
  ◌≡◌, ◌≢◌, ◌∙◌, Bool, true, false, ◌&&◌, ◌||◌, Option, some, List, [], ◌∷◌, ◌==◌, nat_eq,
  if◌then◌else◌, arith, Option-cases, Bool-cases, inl, inr, subst,
}
use modelsrv.Prelude.Dict.{Dict, lookup}
use modelsrv.Event.{Uuid}
use modelsrv.Model.Stores.{
  Store, contexts_by_uuid, nodes_by_uuid, findings_by_uuid, finding_types_by_uuid,
}
use modelsrv.Model.State.{ModelData, values}
use modelsrv.Phase0.{
  Checks, check_current, check_listed, check_context_type, check_context_parent, check_context,
  check_node,
}
use modelsrv.Phase0.Settles.{
  Check, type_check, parent_check, node_check, kind_for, IsFrame, has_finding, IsNamespace,
}
use modelsrv.Phase0.Checked.{
  demanded, demanded_frame, Reconciles, Reconciles-refl, Reconciles-trans, Reconciles-keeps,
}
use modelsrv.Phase0.Nested.{check_context_type-Mends, check_context_parent-Mends, check_node-Mends}

module _ {O : Type 0} (k : Checks O) where
  -- The resources of a map are stored under their own identifiers.
  abbrev pub IsKeyed : Store → ModelData O → Type 0
  IsKeyed s m =
      (id : Uuid) (x : O) → lookup id (m.stores s) ≡ some x → k.types.objects.get_id s x ≡ id

  -- The finding for the subject is there or not, as it should be.
  abbrev pub IsRight : ModelData O → ModelData O → Check → Uuid → Type 0
  IsRight m u check id =
      (b : Bool)
      → demanded k m check id ≡ some b
      → has_finding u (k.finding_id id (kind_for check)) ≡ b

  -- A step reconciles the model, and makes the finding for its subject right.
  abbrev pub Repairs : Store → (ModelData O → O → ModelData O) → Check → Type 0
  Repairs s step check =
      (m : ModelData O) (id : Uuid) (x : O)
      → IsKeyed s m
      → lookup id (m.stores s) ≡ some x
      → Reconciles k m (step m x) × IsRight m (step m x) check id

  module _ (v : IsNamespace k) where
    check_context_type-Repairs : Repairs contexts_by_uuid (check_context_type k) type_check
    check_context_type-Repairs m id c keyed e =
        rw (keyed id c e) at (check_context_type-Mends k v m c (rw (keyed id c e) e))

    pub check_context_parent-Repairs :
        Repairs contexts_by_uuid (check_context_parent k) parent_check
    check_context_parent-Repairs m id c keyed e =
        rw (keyed id c e) at (check_context_parent-Mends k v m c (rw (keyed id c e) e))

    pub check_node-Repairs : Repairs nodes_by_uuid (check_node k) node_check
    check_node-Repairs m id n keyed e =
        rw (keyed id n e) at (check_node-Mends k v m n (rw (keyed id n e) e))

    -- The two checks of a context, one after the other.
    check_context_parts :
        (m : ModelData O) (id : Uuid) (c : O)
        → IsKeyed contexts_by_uuid m
        → lookup id (m.stores contexts_by_uuid) ≡ some c
        → Reconciles k m (check_context k m c)
          × IsRight m (check_context k m c) type_check id
          × IsRight m (check_context k m c) parent_check id
    unfolding check_context
    check_context_parts m id c keyed e =
        let u = check_context_type k m c in
        let w = check_context_parent k u c in
        let first = check_context_type-Repairs m id c keyed e in
        let f = first.0.0 in
        let same = f contexts_by_uuid (λ p. cc) (λ p. cc) in
        let second = check_context_parent-Repairs u id c (rw same keyed) (rw same e) in
        (
          Reconciles-trans k m u w first.0 second.0,
          λ b d.
              Reconciles-keeps k u w type_check id b second.0
                (demanded_frame k m u type_check id f ∙ d) (first.1 b d),
          λ b d. second.1 b (demanded_frame k m u parent_check id f ∙ d),
        )

    pub check_context-Repairs_type : Repairs contexts_by_uuid (check_context k) type_check
    check_context-Repairs_type m id c keyed e =
        let p = check_context_parts m id c keyed e in (p.0, p.1)

    pub check_context-Repairs_parent : Repairs contexts_by_uuid (check_context k) parent_check
    check_context-Repairs_parent m id c keyed e =
        let p = check_context_parts m id c keyed e in (p.0, p.2)

  -- Whether one of the listed resources is chosen and has the identifier.
  abbrev pub picks : Store → (O → Bool) → Uuid → List O → Bool
  picks s chosen id [] = false
  picks s chosen id (x ∷ xs) = chosen x && k.types.objects.get_id s x == id || picks s chosen id xs

  pub picks-values :
      (s : Store) (chosen : O → Bool) (id : Uuid) (x : O) (d : Dict Uuid O)
      → lookup id d ≡ some x
      → k.types.objects.get_id s x ≡ id
      → chosen x ≡ true
      → picks s chosen id (values d) ≡ true
  unfolding lookup
  picks-values s chosen id x [] e h c = absurd (cc)
  picks-values s chosen id x ((i, y) ∷ d) e h c = elim (Bool-cases (i == id)) [
    | inl t ↦
        let same : y ≡ x = ground (arith, t, e) in
        rw same (ground (arith, h, c, nat_eq.equals_iff (k.types.objects.get_id s x) id))
    | inr t ↦ ground (arith, picks-values s chosen id x d (ground (arith, t, e)) h c)
  ]

  module _ (s : Store) (get : ModelData O → Uuid → Option O) (step : ModelData O → O → ModelData O)
      (chosen : O → Bool) (not_finding : s ≢ findings_by_uuid)
      (not_type : s ≢ finding_types_by_uuid)
      (reads : (m : ModelData O) (id : Uuid) → get m id ≡ lookup id (m.stores s)) where
    one : (m : ModelData O) (x : O) → ModelData O
    one m x =
        let checked = check_current step m (get m (k.types.objects.get_id s x)) in
        if chosen x then checked else m

    one-Reconciles :
        (m : ModelData O) (x : O) (check : Check)
        → Repairs s step check
        → IsKeyed s m
        → Reconciles k m (one m x)
    unfolding one
    one-Reconciles m x check repairs v =
        let id : Uuid = k.types.objects.get_id s x in
        elim (Bool-cases (chosen x)) [
          | inr n ↦ rw n (Reconciles-refl k m)
          | inl c ↦ elim (Option-cases (lookup id (m.stores s))) [
            | inl e ↦ rw (c, reads m id, e) (Reconciles-refl k m)
            | inr (y, e) ↦ rw (c, reads m id, e) (repairs m id y v e).0
          ]
        ]

    one-IsRight :
        (m : ModelData O) (x y : O) (check : Check)
        → Repairs s step check
        → IsKeyed s m
        → chosen x ≡ true
        → lookup (k.types.objects.get_id s x) (m.stores s) ≡ some y
        → IsRight m (one m x) check (k.types.objects.get_id s x)
    unfolding one
    one-IsRight m x y check repairs v c e =
        let id : Uuid = k.types.objects.get_id s x in rw (c, reads m id, e) (repairs m id y v e).1

    IsKeyed-frame : (m u : ModelData O) → IsFrame m u → IsKeyed s m → IsKeyed s u
    IsKeyed-frame m u f v = rw (f s not_finding not_type) v

    pub check_listed-Reconciles :
        (check : Check) (m : ModelData O) (xs : List O)
        → Repairs s step check
        → IsKeyed s m
        → Reconciles k m (check_listed k s get step chosen m xs)
    unfolding check_listed one
    check_listed-Reconciles check m [] repairs v = Reconciles-refl k m
    check_listed-Reconciles check m (x ∷ xs) repairs v =
        let first = one-Reconciles m x check repairs v in
        Reconciles-trans k m (one m x) (check_listed k s get step chosen (one m x) xs) first
          (check_listed-Reconciles check (one m x) xs repairs (IsKeyed-frame m (one m x) first.0 v))

    -- The loop makes the finding right for each chosen resource that it lists.
    pub check_listed-IsRight :
        (check : Check) (m : ModelData O) (xs : List O) (id : Uuid) (y : O)
        → Repairs s step check
        → IsKeyed s m
        → lookup id (m.stores s) ≡ some y
        → picks s chosen id xs ≡ true
        → IsRight m (check_listed k s get step chosen m xs) check id
    unfolding check_listed one
    check_listed-IsRight check m [] id y repairs v e h b d = absurd (cc)
    check_listed-IsRight check m (x ∷ xs) id y repairs v e h b d =
        let first = one-Reconciles m x check repairs v in
        let u = one m x in
        let v' = IsKeyed-frame m u first.0 v in
        let d' = demanded_frame k m u check id first.0 ∙ d in
        elim (Bool-cases (chosen x && k.types.objects.get_id s x == id)) [
          | inl t ↦
              let same : k.types.objects.get_id s x ≡ id =
                ground (arith, t, nat_eq.equals_iff (k.types.objects.get_id s x) id) in
              let right : IsRight m u check id =
                subst (λ j. IsRight m u check j) same
                  (one-IsRight m x y check repairs v (ground (arith, t)) (rw same e)) in
              Reconciles-keeps k u (check_listed k s get step chosen u xs) check id b
                (check_listed-Reconciles check u xs repairs v') d' (right b d)
          | inr t ↦
              check_listed-IsRight check u xs id y repairs v'
                (rw (first.0 s not_finding not_type) e) (ground (arith, t, h)) b d'
        ]
