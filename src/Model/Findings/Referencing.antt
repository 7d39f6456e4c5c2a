-- ===== src/Model/Findings/Referencing.antt =====
-- What `GetFindingsReferencingResource` returns.
use mathlib.Core.List.{Memᴰ}
use mathlib.Core.List.Memᴰ
use modelsrv.Prelude.{
  ◌≡◌, refl, ◌≢◌, ◌∙◌, sym, ap, true, some, [], ◌∷◌, ◌==◌, nat_eq, arith, Option-cases, Bool-cases,
  inl, inr, beq_ne, beq_self,
}
use modelsrv.Prelude.Dict.{Dict, lookup}
use modelsrv.Event.{Uuid, nil}
use modelsrv.Event.Wire.{value_or}
use modelsrv.Model.Stores.{findings_by_uuid}
use modelsrv.Model.State.{ModelData, Objects, IdSet}
use modelsrv.Model.Findings.{get_findings_referencing_resource, findings_of}
use modelsrv.Model.Findings.Cited.{names, contains_id-finding_cited_resource_ids}
use modelsrv.Model.Findings.Index.{is_there, lists, HasIndex, cites}

module _ {O : Type 0} where
  -- A member of the result comes from an identifier in the set.
  abbrev From : IdSet → Dict Uuid O → O → Type 0
  From set findings f =
      (id : Uuid) × (is_there (lookup id set) ≡ true) × (lookup id findings ≡ some f)

  From-rest :
      (fid : Uuid) (u : Unit) (set : IdSet) (findings : Dict Uuid O) (f : O)
      → From set findings f
      → From ((fid, u) ∷ set) findings f
  unfolding lookup
  From-rest fid u set findings f (id, h, e) = (id, ground (arith, h), e)

  From-first :
      (fid : Uuid) (u : Unit) (set : IdSet) (findings : Dict Uuid O) (f g : O)
      → lookup fid findings ≡ some g
      → (Memᴰ f (findings_of set findings) → From set findings f)
      → Memᴰ f (g ∷ findings_of set findings)
      → From ((fid, u) ∷ set) findings f
  unfolding lookup
  From-first fid u set findings f g e r (Memᴰ.head p) =
      (fid, rw (beq_self fid), e ∙ ap (λ x. some x) (sym p))
  From-first fid u set findings f g e r (Memᴰ.tail m) = From-rest fid u set findings f (r m)

  findings_of-From :
      (set : IdSet) (findings : Dict Uuid O) (f : O)
      → Memᴰ f (findings_of set findings)
      → From set findings f
  unfolding findings_of
  findings_of-From [] findings f m = absurd (Memᴰ.not-nil m)
  findings_of-From ((fid, u) ∷ set) findings f m =
      let r = findings_of-From set findings f in
      elim (Option-cases (lookup fid findings)) [
        | inl e ↦ From-rest fid u set findings f (r (rw (findings_of, e) at m))
        | inr (g, e) ↦ From-first fid u set findings f g e r (rw (findings_of, e) at m)
      ]

  From-findings_of :
      (set : IdSet) (findings : Dict Uuid O) (f : O) (id : Uuid)
      → is_there (lookup id set) ≡ true
      → lookup id findings ≡ some f
      → Memᴰ f (findings_of set findings)
  unfolding findings_of lookup
  From-findings_of [] findings f id h e = absurd (ground (arith, h))
  From-findings_of ((fid, u) ∷ set) findings f id h e = elim (Bool-cases (fid == id)) [
    | inl s ↦
        let first : lookup fid findings ≡ some f =
          ap (λ i. lookup i findings) ((nat_eq.equals_iff fid id).0 s) ∙ e in
        rw (findings_of, first) (Memᴰ.head refl)
    | inr s ↦
        let m = From-findings_of set findings f id (ground (arith, h)) e in
        elim (Option-cases (lookup fid findings)) [
          | inl g ↦ rw (findings_of, g) m
          | inr (x, g) ↦ rw (findings_of, g) (Memᴰ.tail m)
        ]
  ]

  cites_names :
      (ob : Objects O) (m : ModelData O) (rid id : Uuid) (f : O)
      → rid ≢ nil
      → HasIndex ob m
      → lookup id (m.stores findings_by_uuid) ≡ some f
      → lists m.findings_by_resource_id rid id ≡ names rid (ob.get_resources f)
  cites_names ob m rid id f n v e =
      v.indexed rid id
      ∙ rw (e, cites, contains_id-finding_cited_resource_ids, beq_ne rid nil n) (ground arith)

  -- Of a resource with an identifier, the result lists the stored findings that name it, and no
  -- others; of the nil identifier it lists none.
  pub get_findings_referencing_resource_lem :
      (ob : Objects O) (m : ModelData O) (rid : Uuid) (f : O)
      → HasIndex ob m
      → let found = Memᴰ f (get_findings_referencing_resource m rid) in
        let stored =
          (id : Uuid) × (lookup id (m.stores findings_by_uuid) ≡ some f)
          × (names rid (ob.get_resources f) ≡ true) in
        (found → (rid ≢ nil) × stored) × (rid ≢ nil → stored → found)
  unfolding get_findings_referencing_resource
  get_findings_referencing_resource_lem ob m rid f v = elim (Bool-cases (rid == nil)) [
    | inl e ↦ (
      λ found. absurd (Memᴰ.not-nil (rw e at found)),
      λ n s. absurd (n ((nat_eq.equals_iff rid nil).0 e)),
    )
    | inr e ↦
        let n : rid ≢ nil = λ p. ground (arith, e, nat_eq.equals_iff rid nil, p) in
        let set : IdSet = value_or (lookup rid m.findings_by_resource_id) [] in
        (
          λ found.
              let (id, h, l) = findings_of-From set (m.stores findings_by_uuid) f (rw e at found) in
              (n, (id, l, sym (cites_names ob m rid id f n v l) ∙ h)),
          λ n' (id, l, h). rw e (
              From-findings_of set (m.stores findings_by_uuid) f id
                (cites_names ob m rid id f n v l ∙ h) l),
        )
  ]
