-- ===== src/Ingress/Making.antt =====
-- pkg/ingress: what every `apply` function does with its document. They all read the identifier, the
-- name, what belongs to the kind and the annotations, in this order, and add the resource.
use modelsrv.Prelude.{String, []}
use modelsrv.Prelude.Dict.{Dict}
use modelsrv.Event.{Uuid}
use modelsrv.Model.State
use modelsrv.Model.State.{ModelData, Objects, Result}
use modelsrv.Ingress.Values.{
  Fields, Outcome, done, failed, ◌>>=◌, refused, Parsers, string_field, display_name,
  apply_annotations,
}
use modelsrv.Ingress.Lists.{or_empty}
use modelsrv.Ingress.Resources.{Resource, Details}

-- What `m.AddX(x)` returns.
abbrev pub added : Result (ModelData Resource) → Outcome (ModelData Resource)
added (State.ok u) = done u
added (State.err e) = failed (refused e)

-- A resource of the parts that the functions read.
unfoldable pub made :
    Outcome Uuid
    → Outcome String
    → String
    → Outcome Details
    → Outcome (Dict String String)
    → Outcome Resource
made identifier name description details annotations = do
  id ← identifier
  title ← name
  d ← details
  records ← annotations
  done (record {
    common = record {
      id = id;
      display_name = title;
      description = description;
      annotations = records;
    };
    details = d;
  })

module _ (p : Parsers) where
  -- `SetDescription`, when the document has one
  abbrev pub description : Fields → String
  description spec = or_empty (string_field p spec "description")

  -- With a name, a description and annotations.
  abbrev pub described : Outcome Uuid → Fields → Outcome Details → Outcome Resource
  described identifier spec details =
      made identifier (display_name p spec) (description spec) details (apply_annotations p spec)

  -- With a name and annotations.
  abbrev pub bare : Outcome Uuid → Fields → Outcome Details → Outcome Resource
  bare identifier spec details =
      made identifier (display_name p spec) "" details (apply_annotations p spec)

  -- With a name and a description.
  abbrev pub rule : Outcome Uuid → Fields → Outcome Details → Outcome Resource
  rule identifier spec details =
      made identifier (display_name p spec) (description spec) details (done [])
