-- ===== src/Model/Findings.antt =====
-- pkg/model/structure.go: findings, and the index from a cited resource to the findings that cite it.
pub mod Cited
pub mod Index
pub mod Referencing
use modelsrv.Prelude.{
  Bool, true, false, Option, none, some, List, [], ◌∷◌, ◌==◌, nat_eq, string_eq, if◌then◌else◌,
}
use modelsrv.Prelude.Dict.{Dict, lookup, insert, delete}
use modelsrv.Event.{Uuid, nil}
use modelsrv.Event.Kind.{finding_resource}
use modelsrv.Event.Wire.{Operation, delete_operation, value_or}
use modelsrv.Model.Stores.{findings_by_uuid, finding_types_by_uuid}
use modelsrv.Model.State.{
  ModelData, Objects, IdSet, Result, ok, err, uuid_not_set, not_found, put_store, receive,
  add_operation,
}
use Cited.{finding_cited_resource_ids}

-- `indexFindingLocked`, from the cited resources on.
index_cited : Uuid → List Uuid → Dict Uuid IdSet → Dict Uuid IdSet
index_cited fid [] index = index
index_cited fid (rid ∷ rids) index =
    index_cited fid rids (insert rid (insert fid tt (value_or (lookup rid index) [])) index)

-- The index with one set replaced; an empty set goes.
put_set : Uuid → IdSet → Dict Uuid IdSet → Dict Uuid IdSet
put_set rid [] index = delete rid index
put_set rid (entry ∷ rest) index = insert rid (entry ∷ rest) index

-- The finding leaves the set of one resource, if there is such a set.
drop_from : Uuid → Uuid → Option IdSet → Dict Uuid IdSet → Dict Uuid IdSet
unfolding put_set
drop_from fid rid none index = index
drop_from fid rid (some set) index = put_set rid (delete fid set) index

-- `unindexFindingLocked`, likewise.
unindex_cited : Uuid → List Uuid → Dict Uuid IdSet → Dict Uuid IdSet
unfolding drop_from
unindex_cited fid [] index = index
unindex_cited fid (rid ∷ rids) index =
    unindex_cited fid rids (drop_from fid rid (lookup rid index) index)

module _ {O : Type 0} (ob : Objects O) where
  -- `indexFindingLocked`
  unfoldable pub index_finding_locked : O → Dict Uuid IdSet → Dict Uuid IdSet
  unfolding index_cited
  index_finding_locked f index =
      index_cited (ob.get_id findings_by_uuid f) (finding_cited_resource_ids (ob.get_resources f))
        index

  -- `unindexFindingLocked`
  unfoldable pub unindex_finding_locked : O → Dict Uuid IdSet → Dict Uuid IdSet
  unfolding unindex_cited
  unindex_finding_locked f index =
      unindex_cited (ob.get_id findings_by_uuid f) (finding_cited_resource_ids (ob.get_resources f))
        index

  -- The index without the finding that is replaced or deleted, if there is one.
  abbrev pub unindex_old : Option O → Dict Uuid IdSet → Dict Uuid IdSet
  unindex_old none index = index
  unindex_old (some old) index = unindex_finding_locked old index

  -- `AddFinding`
  unfoldable pub add_finding : ModelData O → O → Result (ModelData O)
  add_finding m f =
      let id : Uuid = ob.get_id findings_by_uuid f in
      let old : Option O = lookup id (m.stores findings_by_uuid) in
      let stored : ModelData O =
        put_store m findings_by_uuid (insert id f (m.stores findings_by_uuid)) in
      let indexed : ModelData O = record stored {
        findings_by_resource_id =
            index_finding_locked f (unindex_old old m.findings_by_resource_id);
      } in
      if id == nil
      then err uuid_not_set
      else ok (receive indexed finding_resource (add_operation old) id (f ∷ []))

  -- `DeleteFindingById`
  unfoldable pub delete_finding_by_id : ModelData O → Uuid → Result (ModelData O)
  delete_finding_by_id m id = elim (lookup id (m.stores findings_by_uuid)) [
    | none ↦ err (not_found findings_by_uuid)
    | some old ↦
        let stored : ModelData O =
          put_store m findings_by_uuid (delete id (m.stores findings_by_uuid)) in
        let indexed : ModelData O = record stored {
          findings_by_resource_id = unindex_finding_locked old m.findings_by_resource_id;
        } in
        ok (receive indexed finding_resource delete_operation id [])
  ]

-- The findings of a set; an identifier without a finding is passed over.
unfoldable pub findings_of : {O : Type 0} → IdSet → Dict Uuid O → List O
findings_of [] findings = []
findings_of ((fid, _) ∷ set) findings = elim (lookup fid findings) [
  | none ↦ findings_of set findings
  | some f ↦ f ∷ findings_of set findings
]

module _ {O : Type 0} where
  -- `GetFindingsReferencingResource`
  unfoldable pub get_findings_referencing_resource : ModelData O → Uuid → List O
  get_findings_referencing_resource m rid =
      if rid == nil
      then []
      else findings_of (value_or (lookup rid m.findings_by_resource_id) [])
          (m.stores findings_by_uuid)
