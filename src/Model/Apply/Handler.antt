-- ===== src/Model/Apply/Handler.antt =====
-- pkg/model/handler_registry.go and the template of handlers_*_gen.go: what a handler does.
use modelsrv.Prelude.{String, Bool, true, false, Option, none, some, ◌==◌, if◌then◌else◌}
use modelsrv.Event.{Uuid}
use modelsrv.Model.Stores.{Store, store_eq}
use modelsrv.Model.State.{ModelData, Objects, ModelError, Result, not_found}
use modelsrv.Model.State

-- An error of the model's methods, or of the replication itself.
pub data ApplyError : Type 0 where
  model_error : ModelError → ApplyError
  wrong_type missing_object unsupported_resource_type unsupported_operation : ApplyError

pub data Applied (A : Type 0) : Type 0 where
  ok : A → Applied A
  err : ApplyError → Applied A

abbrev pub applied : {A : Type 0} → Result A → Applied A
applied (State.ok a) = ok a
applied (State.err e) = err (model_error e)

-- `resourceHandler`
pub record ResourceHandler (O : Type 0) : Type 0 where
  pub upsert : ModelData O → O → Applied (ModelData O)
  pub delete : ModelData O → Uuid → Result (ModelData O)
  pub is_not_found : ModelError → Bool
  pub exists : ModelData O → Uuid → Bool
  pub display_name : ModelData O → Uuid → String

-- `errors.Is(err, ErrXNotFound)`
abbrev pub is_not_found_of : Store → ModelError → Bool
is_not_found_of s (not_found t) = t == s
is_not_found_of s _ = false

module _ {O : Type 0} where
  abbrev pub is_some : Option O → Bool
  is_some none = false
  is_some (some x) = true

  abbrev pub name_of : Objects O → Option O → String
  name_of ob none = ""
  name_of ob (some x) = ob.get_display_name x

  -- The generated handler of a kind.
  abbrev pub handler :
      Objects O
      → Store
      → (ModelData O → O → Result (ModelData O))
      → (ModelData O → Uuid → Result (ModelData O))
      → (ModelData O → Uuid → Option O)
      → ResourceHandler O
  handler ob s add delete_by_id get = record {
    upsert = λ m obj. if ob.is_a s obj then applied (add m obj) else err wrong_type;
    delete = delete_by_id;
    is_not_found = is_not_found_of s;
    exists = λ m id. is_some (get m id);
    display_name = λ m id. name_of ob (get m id);
  }

  -- A deletion whose resource is not there is no error.
  abbrev pub unless_not_found :
      ResourceHandler O → ModelData O → Result (ModelData O) → Applied (ModelData O)
  unless_not_found h m (State.ok u) = ok u
  unless_not_found h m (State.err e) = if h.is_not_found e then ok m else err (model_error e)
