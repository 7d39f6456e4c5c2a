-- ===== src/Filter/Registered.antt =====
-- The filters of a chain and the filter rules in its model.
use modelsrv.Prelude.{
  String, ◌≡◌, refl, ◌≢◌, ap, sym, ◌∙◌, Bool, true, false, not, ◌&&◌, ◌||◌, Option, none, some,
  List, [], ◌∷◌, ◌++◌, ◌==◌, nat_eq, arith, Option-cases, Bool-cases, inl, inr, beq_ne,
}
use modelsrv.Prelude.Dict.{lookup, lookup-insert, lookup-delete}
use modelsrv.Event.{Uuid, nil}
use modelsrv.Event.Kind.{resource_type_beq, code}
use modelsrv.Model.Stores.{filter_rules_by_uuid, store_beq, kind_of}
use modelsrv.Model.State.{
  ModelData, Objects, after, add_event_enabled, delete_event_enabled, get_event_enabled,
}
use modelsrv.Model.Catalog.{add_filter_rule, delete_filter_rule_by_id, get_filter_rule_by_id}
use modelsrv.Filter.{Entry, Chain, RuleMaker, sync_rule, remove_filter}

module _ {O : Type 0} where
  abbrev pub is_there : Option O → Bool
  is_there none = false
  is_there (some x) = true

  -- Whether the model has a filter rule with the identifier.
  abbrev pub has_rule : ModelData O → Uuid → Bool
  has_rule m id = is_there (lookup id (m.stores filter_rules_by_uuid))

  -- Whether an entry has the identifier.
  unfoldable pub has_entry : Uuid → List (Entry O) → Bool
  has_entry id [] = false
  has_entry id (e ∷ es) = e.id == id || has_entry id es

  abbrev pub DistinctIds : List (Entry O) → Type 0
  DistinctIds [] = Unit
  DistinctIds (e ∷ es) = (has_entry e.id es ≡ false) × DistinctIds es

  -- Each filter of the chain has its rule in the model, if the chain has one.
  abbrev pub HasRules : Option (ModelData O) → List (Entry O) → Type 0
  HasRules none es = Unit
  HasRules (some m) es = (id : Uuid) → has_entry id es ≡ true → has_rule m id ≡ true

  pub record IsRegistered (c : Chain O) : Type 0 where
    pub no_nil : has_entry nil c.filters ≡ false
    pub distinct : DistinctIds c.filters
    pub has_rules : HasRules c.model c.filters

  -- A rule has the identifier that it was made with.
  abbrev pub MakesRules : RuleMaker O → Type 0
  MakesRules r =
      (id : Uuid) (name description : String)
      → r.objects.get_id filter_rules_by_uuid (r.new_filter_rule id name description) ≡ id

  has_rule-add_filter_rule :
      (ob : Objects O) (m : ModelData O) (rule : O) (id : Uuid)
      → ob.get_id filter_rules_by_uuid rule ≢ nil
      → has_rule (after m (add_filter_rule ob m rule)) id
        ≡ (ob.get_id filter_rules_by_uuid rule == id || has_rule m id)
  unfolding add_filter_rule add_event_enabled store_beq kind_of resource_type_beq code
  has_rule-add_filter_rule ob m rule id n =
      let named = beq_ne (ob.get_id filter_rules_by_uuid rule) nil n in
      rw (named, lookup-insert) (ground arith)

  pub has_rule-sync_rule :
      (r : RuleMaker O) (m : ModelData O) (e : Entry O) (id : Uuid)
      → MakesRules r
      → e.id ≢ nil
      → has_rule (sync_rule r m e) id ≡ (e.id == id || has_rule m id)
  unfolding sync_rule get_filter_rule_by_id get_event_enabled
  has_rule-sync_rule r m e id k n =
      let made : r.objects.get_id filter_rules_by_uuid
            (r.new_filter_rule e.id e.filter.display_name e.filter.description)
          ≡ e.id =
        k e.id e.filter.display_name e.filter.description in
      elim (Option-cases (lookup e.id (m.stores filter_rules_by_uuid))) [
        | inl h ↦
            rw (sync_rule, get_filter_rule_by_id, get_event_enabled, h)
              (has_rule-add_filter_rule r.objects m _ id (λ z. n (sym made ∙ z)) ∙ rw made refl)
        | inr (x, h) ↦
            rw (sync_rule, get_filter_rule_by_id, get_event_enabled, h)
              (elim (Bool-cases (e.id == id)) [
                | inl s ↦ rw s (
                    ap is_there (
                      ap (λ i. lookup i (m.stores filter_rules_by_uuid))
                        (sym ((nat_eq.equals_iff e.id id).0 s))
                      ∙ h))
                | inr s ↦ rw s refl
              ])
      ]

  pub has_rule-delete :
      (m : ModelData O) (gone id : Uuid)
      → has_rule (after m (delete_filter_rule_by_id m gone)) id
        ≡ (not (gone == id) && has_rule m id)
  unfolding delete_filter_rule_by_id delete_event_enabled store_beq kind_of resource_type_beq code
  has_rule-delete m gone id = elim (Option-cases (lookup gone (m.stores filter_rules_by_uuid))) [
    | inl h ↦
        rw (after, delete_filter_rule_by_id, delete_event_enabled, h)
          (elim (Bool-cases (gone == id)) [
            | inl s ↦ rw s (
                ap is_there (
                  ap (λ i. lookup i (m.stores filter_rules_by_uuid))
                    (sym ((nat_eq.equals_iff gone id).0 s))
                  ∙ h))
            | inr s ↦ rw s refl
          ])
    | inr (x, h) ↦
        rw (after, delete_filter_rule_by_id, delete_event_enabled, h, lookup-delete) (ground arith)
  ]

  pub has_entry-snoc :
      (id : Uuid) (es : List (Entry O)) (e : Entry O)
      → has_entry id (es ++ (e ∷ [])) ≡ (has_entry id es || e.id == id)
  unfolding has_entry
  has_entry-snoc id [] e = ground arith
  has_entry-snoc id (x ∷ es) e = ground (arith, has_entry-snoc id es e)

  pub DistinctIds-snoc :
      (es : List (Entry O)) (e : Entry O)
      → DistinctIds es
      → has_entry e.id es ≡ false
      → DistinctIds (es ++ (e ∷ []))
  unfolding has_entry
  DistinctIds-snoc [] e d h = (refl, tt)
  DistinctIds-snoc (x ∷ es) e d h = (
    ground (
      arith,
      h,
      d.0,
      has_entry-snoc x.id es e,
      nat_eq.equals_iff x.id e.id,
      nat_eq.equals_iff e.id x.id,
    ),
    DistinctIds-snoc es e d.1 (ground (arith, h)),
  )

  -- The entries after a removal, also if there was nothing to remove.
  abbrev pub kept : Option (List (Entry O)) → List (Entry O) → List (Entry O)
  kept none es = es
  kept (some fs) es = fs

  pub has_entry-remove_filter :
      (gone : Uuid) (es : List (Entry O)) (id : Uuid)
      → DistinctIds es
      → has_entry id (kept (remove_filter gone es) es) ≡ (not (gone == id) && has_entry id es)
  unfolding remove_filter has_entry
  has_entry-remove_filter gone [] id d = ground arith
  has_entry-remove_filter gone (e ∷ es) id d =
      let rest = has_entry-remove_filter gone es id d.1 in
      elim (Bool-cases (e.id == gone)) [
        | inl h ↦
            rw (remove_filter, h)
              (ground (
                arith,
                d.0,
                h,
                nat_eq.equals_iff e.id gone,
                nat_eq.equals_iff gone id,
                nat_eq.equals_iff e.id id,
              ))
        | inr h ↦ elim (Option-cases (remove_filter gone es)) [
          | inl n ↦
              rw (remove_filter, h, n)
                (ground (
                  arith,
                  h,
                  rw n at rest,
                  nat_eq.equals_iff e.id id,
                  nat_eq.equals_iff gone id,
                  nat_eq.equals_iff e.id gone,
                ))
          | inr (fs, n) ↦
              rw (remove_filter, h, n)
                (ground (
                  arith,
                  h,
                  rw n at rest,
                  nat_eq.equals_iff e.id id,
                  nat_eq.equals_iff gone id,
                  nat_eq.equals_iff e.id gone,
                ))
        ]
      ]

  pub DistinctIds-remove_filter :
      (gone : Uuid) (es : List (Entry O))
      → DistinctIds es
      → DistinctIds (kept (remove_filter gone es) es)
  unfolding remove_filter
  DistinctIds-remove_filter gone [] d = d
  DistinctIds-remove_filter gone (e ∷ es) d =
      let rest = DistinctIds-remove_filter gone es d.1 in
      let other = has_entry-remove_filter gone es e.id d.1 in
      elim (Bool-cases (e.id == gone)) [
        | inl h ↦ rw (remove_filter, h) d.1
        | inr h ↦ elim (Option-cases (remove_filter gone es)) [
          | inl n ↦ rw (remove_filter, h, n) d
          | inr (fs, n) ↦
              rw (remove_filter, h, n) (ground (arith, d.0, rw n at other), rw n at rest)
        ]
      ]
