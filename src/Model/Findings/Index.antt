-- ===== src/Model/Findings/Index.antt =====
-- The index of findings lists exactly what the findings cite.
use modelsrv.Prelude.{
  ◌≡◌, refl, ◌∙◌, ap, Bool, true, false, Option, none, some, List, [], ◌∷◌, ◌==◌, nat_eq, ◌||◌, not,
  ◌&&◌, if◌then◌else◌, arith, Option-cases, Bool-cases, inl, inr,
}
use modelsrv.Prelude.Dict.{Dict, lookup, insert, delete, lookup-insert, lookup-delete}
use modelsrv.Event.{Uuid, nil}
use modelsrv.Event.Wire.{value_or}
use modelsrv.Event.Kind.{resource_type_beq, code}
use modelsrv.Model.Stores.{store_eq, store_beq, kind_of, findings_by_uuid}
use modelsrv.Model.State.{ModelData, Objects, IdSet, after}
use modelsrv.Model.Findings.{
  index_cited, unindex_cited, drop_from, put_set, index_finding_locked, unindex_finding_locked,
  unindex_old, add_finding, delete_finding_by_id,
}
use modelsrv.Model.Findings.Cited.{contains_id, finding_cited_resource_ids}

abbrev pub is_there : {A : Type 0} → Option A → Bool
is_there none = false
is_there (some a) = true

-- Whether the index lists the finding under the resource.
abbrev pub lists : Dict Uuid IdSet → Uuid → Uuid → Bool
lists index rid fid = is_there (lookup fid (value_or (lookup rid index) []))

lists-insert :
    (index : Dict Uuid IdSet) (set : IdSet) (r rid fid : Uuid)
    → lists (insert r set index) rid fid
      ≡ (if r == rid then is_there (lookup fid set) else lists index rid fid)
lists-insert index set r rid fid = rw lookup-insert (ground arith)

lists-delete :
    (index : Dict Uuid IdSet) (r rid fid : Uuid)
    → lists (delete r index) rid fid ≡ (if r == rid then false else lists index rid fid)
unfolding lookup
lists-delete index r rid fid = rw lookup-delete (ground arith)

lists-index_cited :
    (f : Uuid) (rids : List Uuid) (index : Dict Uuid IdSet) (rid fid : Uuid)
    → lists (index_cited f rids index) rid fid
      ≡ (f == fid && contains_id rid rids || lists index rid fid)
unfolding index_cited contains_id
lists-index_cited f [] index rid fid = ground arith
lists-index_cited f (r ∷ rids) index rid fid =
    lists-index_cited f rids _ rid fid
    ∙ rw (lists-insert index (insert f tt (value_or (lookup r index) [])) r rid fid, lookup-insert)
        (ground (arith, nat_eq.equals_iff r rid, nat_eq.equals_iff f fid))

lists-put_set :
    (index : Dict Uuid IdSet) (set : IdSet) (r rid fid : Uuid)
    → lists (put_set r set index) rid fid
      ≡ (if r == rid then is_there (lookup fid set) else lists index rid fid)
unfolding put_set lookup
lists-put_set index [] r rid fid = lists-delete index r rid fid
lists-put_set index (entry ∷ rest) r rid fid = lists-insert index (entry ∷ rest) r rid fid

-- What a resource's own set says is what the index says of it.
own_set :
    {A : Type 0} (own : Uuid → A) (r rid : Uuid) (x : A)
    → (r == rid ≡ true → x ≡ own r)
    → (if r == rid then x else own rid) ≡ own rid
own_set own r rid x h = elim (Bool-cases (r == rid)) [
  | inl e ↦ rw e (h e ∙ ap own ((nat_eq.equals_iff r rid).0 e))
  | inr e ↦ rw e
]

lists-drop_from :
    (f r : Uuid) (index : Dict Uuid IdSet) (rid fid : Uuid)
    → lists (drop_from f r (lookup r index) index) rid fid
      ≡ (not (f == fid && r == rid) && lists index rid fid)
unfolding drop_from lookup
lists-drop_from f r index rid fid = elim (Option-cases (lookup r index)) [
  | inl e ↦
      let absent : (if r == rid then false else lists index rid fid) ≡ lists index rid fid =
        own_set (λ i. lists index i fid) r rid false (λ h. rw e refl) in
      rw (e, drop_from) (ground (arith, absent))
  | inr (set, e) ↦
      let present : (if r == rid then is_there (lookup fid set) else lists index rid fid)
          ≡ lists index rid fid =
        own_set (λ i. lists index i fid) r rid (is_there (lookup fid set)) (λ h. rw e refl) in
      rw (e, drop_from, lists-put_set index (delete f set) r rid fid, lookup-delete)
        (ground (arith, present))
]

lists-unindex_cited :
    (f : Uuid) (rids : List Uuid) (index : Dict Uuid IdSet) (rid fid : Uuid)
    → lists (unindex_cited f rids index) rid fid
      ≡ (not (f == fid && contains_id rid rids) && lists index rid fid)
unfolding unindex_cited contains_id
lists-unindex_cited f [] index rid fid = ground arith
lists-unindex_cited f (r ∷ rids) index rid fid =
    lists-unindex_cited f rids _ rid fid ∙ rw (lists-drop_from f r index rid fid) (ground arith)

module _ {O : Type 0} (ob : Objects O) where
  -- Whether a stored finding cites the resource.
  abbrev pub cites : Option O → Uuid → Bool
  cites none rid = false
  cites (some f) rid = contains_id rid (finding_cited_resource_ids (ob.get_resources f))

  -- Findings are stored under their own identifiers, and the index lists exactly what they cite.
  pub record IsIndexed (findings : Dict Uuid O) (index : Dict Uuid IdSet) : Type 0 where
    pub keyed :
        (id : Uuid) (f : O) → lookup id findings ≡ some f → ob.get_id findings_by_uuid f ≡ id
    pub indexed : (rid fid : Uuid) → lists index rid fid ≡ cites (lookup fid findings) rid

  pub empty-IsIndexed : IsIndexed [] []
  unfolding lookup
  empty-IsIndexed = record { keyed = λ id f e. absurd (none_is_none e); indexed = λ rid fid. refl }
    where
      none_is_none : {f : O} → none ≡ some f → ⊥
      none_is_none e = cc

  lists-index_finding_locked :
      (f : O) (index : Dict Uuid IdSet) (rid fid : Uuid)
      → lists (index_finding_locked ob f index) rid fid
        ≡ (ob.get_id findings_by_uuid f == fid && cites (some f) rid || lists index rid fid)
  unfolding index_finding_locked
  lists-index_finding_locked f index rid fid = lists-index_cited _ _ index rid fid

  lists-unindex_old :
      (id : Uuid) (old : Option O) (index : Dict Uuid IdSet) (rid fid : Uuid)
      → ((f : O) → old ≡ some f → ob.get_id findings_by_uuid f ≡ id)
      → lists (unindex_old ob old index) rid fid
        ≡ (not (id == fid && cites old rid) && lists index rid fid)
  unfolding unindex_finding_locked
  lists-unindex_old id none index rid fid h = ground arith
  lists-unindex_old id (some old) index rid fid h =
      lists-unindex_cited (ob.get_id findings_by_uuid old)
        (finding_cited_resource_ids (ob.get_resources old)) index rid fid
      ∙ rw (h old refl)

  -- What the index says once the old finding is out of it.
  lists_without :
      (findings : Dict Uuid O) (index : Dict Uuid IdSet) (id rid fid : Uuid)
      → IsIndexed findings index
      → lists (unindex_old ob (lookup id findings) index) rid fid
        ≡ (if id == fid then false else cites (lookup fid findings) rid)
  lists_without findings index id rid fid v =
      lists-unindex_old id (lookup id findings) index rid fid (v.keyed id)
      ∙ elim (Bool-cases (id == fid)) [
        | inl e ↦ rw (e, v.indexed rid fid, (nat_eq.equals_iff id fid).0 e) (ground arith)
        | inr e ↦ rw (e, v.indexed rid fid)
      ]

  insert-IsIndexed :
      (findings : Dict Uuid O) (index : Dict Uuid IdSet) (f : O)
      → IsIndexed findings index
      → let id : Uuid = ob.get_id findings_by_uuid f in
        IsIndexed
          (insert id f findings)
          (index_finding_locked ob f (unindex_old ob (lookup id findings) index))
  insert-IsIndexed findings index f v = record {
    keyed = λ i g e.
        let key : Uuid = ob.get_id findings_by_uuid f in
        ground (arith, lookup-insert key i f findings, v.keyed i g, nat_eq.equals_iff key i, e);
    indexed = λ rid fid.
        let key : Uuid = ob.get_id findings_by_uuid f in
        lists-index_finding_locked f (unindex_old ob (lookup key findings) index) rid fid
        ∙ rw (lists_without findings index key rid fid v, lookup-insert) (ground arith);
  }

  delete-IsIndexed :
      (findings : Dict Uuid O) (index : Dict Uuid IdSet) (id : Uuid)
      → IsIndexed findings index
      → IsIndexed (delete id findings) (unindex_old ob (lookup id findings) index)
  delete-IsIndexed findings index id v = record {
    keyed = λ i g e. ground (arith, lookup-delete id i findings, v.keyed i g, e);
    indexed =
        λ rid fid. lists_without findings index id rid fid v ∙ rw lookup-delete (ground arith);
  }

  -- The model's findings and their index.
  abbrev pub HasIndex : ModelData O → Type 0
  HasIndex m = IsIndexed (m.stores findings_by_uuid) m.findings_by_resource_id

  -- `AddFinding` keeps the index exact, whether it stores a new finding, replaces one, or fails.
  pub add_finding-HasIndex :
      (m : ModelData O) (f : O) → HasIndex m → HasIndex (after m (add_finding ob m f))
  unfolding add_finding store_beq kind_of resource_type_beq code
  add_finding-HasIndex m f v = elim (Bool-cases (ob.get_id findings_by_uuid f == nil)) [
    | inl e ↦ rw e v
    | inr e ↦ rw e (insert-IsIndexed (m.stores findings_by_uuid) m.findings_by_resource_id f v)
  ]

  -- So does `DeleteFindingById`.
  pub delete_finding_by_id-HasIndex :
      (m : ModelData O) (id : Uuid) → HasIndex m → HasIndex (after m (delete_finding_by_id ob m id))
  unfolding delete_finding_by_id store_beq kind_of resource_type_beq code
  delete_finding_by_id-HasIndex m id v =
      let d = delete-IsIndexed (m.stores findings_by_uuid) m.findings_by_resource_id id v in
      elim (Option-cases (lookup id (m.stores findings_by_uuid))) [
        | inl e ↦ rw (after, delete_finding_by_id, e) v
        | inr (old, e) ↦ rw (after, delete_finding_by_id, e) (rw e at d)
      ]
