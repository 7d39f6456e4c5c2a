-- ===== src/Filter/Batches.antt =====
-- What a chain makes of an event, and what of it reaches the receiver.
use modelsrv.Prelude.{
  ◌≡◌, refl, ap, sym, ◌∙◌, Bool, true, false, Option, List, [], ◌∷◌, ◌++◌, ◌⊎◌, inl, inr,
  Bool-cases,
}
use modelsrv.Event.{Event, Uuid}
use modelsrv.Model.State.{ModelData}
use modelsrv.Filter.{
  Filter, Entry, Chain, RuleMaker, register_filter, filter_batch, apply_entries, apply, forward,
  filtering_receive, sync_filter_rule_to_model,
}

module _ {O : Type 0} where
  apply_entries-append :
      (es fs : List (Entry O)) (m : Option (ModelData O)) (evs : List (Event O))
      → let (u, next) = apply_entries es m evs in
        apply_entries (es ++ fs) m evs ≡ apply_entries fs u next
  unfolding apply_entries
  apply_entries-append [] fs m evs = refl
  apply_entries-append (e ∷ es) fs m evs =
      let (u, next) = filter_batch e.filter.fn m evs in apply_entries-append es fs u next

  -- The test for an empty chain makes no difference.
  apply_lem : (c : Chain O) (ev : Event O) → apply c ev ≡ apply_entries c.filters c.model (ev ∷ [])
  unfolding apply apply_entries
  apply_lem c ev = by_filters c.model c.filters
    where
      by_filters :
          (m : Option (ModelData O)) (es : List (Entry O))
          → apply (record { model = m; filters = es }) ev ≡ apply_entries es m (ev ∷ [])
      by_filters m [] = refl
      by_filters m (e ∷ es) = refl

  pub apply-register_filter :
      (r : RuleMaker O) (c : Chain O) (id : Uuid) (f : Filter O) (ev : Event O)
      → let m = sync_filter_rule_to_model r c.model (record { id = id; filter = f }) in
        let (u, passed) = apply (record { model = m; filters = c.filters }) ev in
        apply (register_filter r c id f) ev ≡ filter_batch f.fn u passed
  unfolding register_filter apply_entries
  apply-register_filter r c id f ev =
      let e : Entry O = record { id = id; filter = f } in
      let m = sync_filter_rule_to_model r c.model e in
      apply_lem (register_filter r c id f) ev
      ∙ (apply_entries-append c.filters (e ∷ []) m (ev ∷ [])
          ∙ ap (λ p. filter_batch f.fn p.0 p.1)
              (sym (apply_lem (record { model = m; filters = c.filters }) ev)))

  module _ {S : Type 0} (receive : S → Event O → S × Bool) where
    -- The receiver after a batch of which it takes every event.
    abbrev pub taken_all : S → List (Event O) → S
    taken_all s [] = s
    taken_all s (ev ∷ evs) = taken_all (receive s ev).0 evs

    -- It takes every event of the batch.
    abbrev pub AllTaken : S → List (Event O) → Type 0
    AllTaken s [] = Unit
    AllTaken s (ev ∷ evs) = ((receive s ev).1 ≡ true) × AllTaken (receive s ev).0 evs

    -- All events were taken, or one was refused: those before it were taken and those behind it
    -- never handed over.
    abbrev pub Handed : S → List (Event O) → S × Bool → Type 0
    Handed s evs r =
        (AllTaken s evs × (r ≡ (taken_all s evs, true)))
        ⊎ ((before : List (Event O)) × (refused : Event O) × (behind : List (Event O)) × (evs
              ≡ before ++ (refused ∷ behind))
            × AllTaken s before
            × ((receive (taken_all s before) refused).1 ≡ false)
            × (r ≡ ((receive (taken_all s before) refused).0, false)))

    forward-Handed : (s : S) (evs : List (Event O)) → Handed s evs (forward receive s evs)
    unfolding forward
    forward-Handed s [] = inl (tt, refl)
    forward-Handed s (ev ∷ evs) = elim (Bool-cases (receive s ev).1) [
      | inl t ↦ rw t (elim (forward-Handed (receive s ev).0 evs) [
        | inl (a, e) ↦ inl ((refl, a), e)
        | inr (before, refused, behind, q, a, n, e) ↦
            inr (ev ∷ before, refused, behind, ap (λ xs. ev ∷ xs) q, (t, a), n, e)
      ])
      | inr n ↦ rw n (inr ([], ev, evs, refl, tt, n, refl))
    ]

    -- The sink hands the results of the chain to its receiver in order, up to the first that the
    -- receiver refuses, and it reports success exactly if the receiver took them all.
    pub filtering_receive_lem :
        (c : Chain O) (s : S) (ev : Event O)
        → let (m, outs) = apply c ev in
          let (u, r) =
            filtering_receive receive c s ev.resource_type ev.operation ev.resource_id ev.objects in
          (u ≡ m) × Handed s outs r
    unfolding filtering_receive
    filtering_receive_lem c s ev = (refl, forward-Handed s (apply c ev).1)
