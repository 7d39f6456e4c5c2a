-- ===== src/Model/Findings/Cited.antt =====
-- pkg/model/structure.go: the identifiers of the resources that a finding cites.
use modelsrv.Prelude.{
  ◌≡◌, refl, Bool, false, Option, none, some, List, [], ◌∷◌, ◌==◌, nat_eq, ◌||◌, not, ◌&&◌,
  if◌then◌else◌, arith,
}
use modelsrv.Event.{Uuid, nil}

unfoldable pub contains_id : Uuid → List Uuid → Bool
contains_id id [] = false
contains_id id (x ∷ xs) = x == id || contains_id id xs

-- The loop of `findingCitedResourceIDs`, with the identifiers that it has seen.
unfoldable pub cited_from : List Uuid → List (Option Uuid) → List Uuid
cited_from seen [] = []
cited_from seen (none ∷ refs) = cited_from seen refs
cited_from seen (some id ∷ refs) =
    let skipped = cited_from seen refs in
    let taken = id ∷ cited_from (id ∷ seen) refs in
    if id == nil then skipped else if contains_id id seen then skipped else taken

-- `findingCitedResourceIDs`
unfoldable pub finding_cited_resource_ids : List (Option Uuid) → List Uuid
finding_cited_resource_ids refs = cited_from [] refs

-- Whether a reference names the resource.
abbrev pub names : Uuid → List (Option Uuid) → Bool
names rid [] = false
names rid (none ∷ refs) = names rid refs
names rid (some id ∷ refs) = id == rid || names rid refs

contains_id-cited_from :
    (rid : Uuid) (seen : List Uuid) (refs : List (Option Uuid))
    → contains_id rid (cited_from seen refs)
      ≡ (names rid refs && not (rid == nil) && not (contains_id rid seen))
unfolding contains_id cited_from
contains_id-cited_from rid seen [] = refl
contains_id-cited_from rid seen (none ∷ refs) = contains_id-cited_from rid seen refs
contains_id-cited_from rid seen (some id ∷ refs) = ground (
  arith,
  contains_id-cited_from rid seen refs,
  contains_id-cited_from rid (id ∷ seen) refs,
  nat_eq.equals_iff id rid,
)

-- The cited resources are those that a reference names, but for the nil identifier.
pub contains_id-finding_cited_resource_ids :
    (rid : Uuid) (refs : List (Option Uuid))
    → contains_id rid (finding_cited_resource_ids refs) ≡ (names rid refs && not (rid == nil))
unfolding finding_cited_resource_ids contains_id
contains_id-finding_cited_resource_ids rid refs = ground (arith, contains_id-cited_from rid [] refs)
