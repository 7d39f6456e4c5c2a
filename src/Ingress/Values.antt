-- ===== src/Ingress/Values.antt =====
-- pkg/ingress/apply.go and apply_resources.go: decoded documents, and the readers of their fields.
use modelsrv.Prelude.{
  ℕ, String, Bool, Option, none, some, List, [], ◌∷◌, ◌==◌, string_eq, nat_eq, if◌then◌else◌,
}
use modelsrv.Prelude.Dict.{Dict, insert}
use modelsrv.Event.{Uuid, nil}
use modelsrv.Event.Kind.{resource_type_eq}
use modelsrv.Model.State.{ModelError}
use modelsrv.Authz.Lists.{trim_left, trim_right}

-- A time is a number that is never computed with.
abbrev pub Time : Type 0
Time = ℕ

-- What YAML, JSON and CSV decode to; `other` stands for numbers, by a number of its own.
mutual
  pub data Value : Type 0 where
    null : Value
    text : String → Value
    flag : Bool → Value
    other : ℕ → Value
    moment : Time → Value
    array : Items → Value
    object : Fields → Value

  pub data Items : Type 0 where
    end : Items
    item : Value → Items → Items

  pub data Fields : Type 0 where
    empty : Fields
    field : String → Value → Fields → Fields

pub data IngressError : Type 0 where
  missing not_uuid nil_uuid not_text not_map not_array not_flag not_time : String → IngressError
  no_name unsupported_version no_spec no_kind unsupported_kind : IngressError
  no_documents undecodable unsupported_format no_kind_column empty_path : IngressError
  none_of : List String → IngressError
  collides : String → IngressError
  unknown_resource_kind bad_api_type bad_category bad_amount : String → IngressError
  both_subjects no_subject : IngressError
  inside : String → ℕ → IngressError → IngressError
  refused : ModelError → IngressError

pub data Outcome (A : Type 0) : Type 0 where
  done : A → Outcome A
  failed : IngressError → Outcome A

infixl 5 ◌>>=◌
abbrev pub ◌>>=◌ : {A B : Type 0} → Outcome A → (A → Outcome B) → Outcome B
done a >>= f = f a
failed e >>= f = failed e

-- An error inside a list names the list and the index.
abbrev pub within : {A : Type 0} → String → ℕ → Outcome A → Outcome A
within key i (done a) = done a
within key i (failed e) = failed (inside key i e)

-- What the readers call of the standard library and of google/uuid: `uuid.Parse`, `time.Parse`,
-- `fmt.Sprint`, and whether `big.Rat.SetString` gives a number that is not negative.
pub record Parsers : Type 0 where
  pub parse_uuid : String → Option Uuid
  pub parse_time : String → Option Time
  pub sprint : Value → String
  pub is_amount : String → Bool

-- `strings.TrimSpace`
unfoldable pub trim_space : String → String
unfolding trim_left trim_right
trim_space s = trim_right (trim_left s)

-- `spec[key]`
unfoldable pub get_field : String → Fields → Option Value
get_field key empty = none
get_field key (field k v rest) = if k == key then some v else get_field key rest

-- `spec[key]`, of which a missing key and nil are the same to most readers.
unfoldable pub present : String → Fields → Option Value
unfolding get_field
present key spec = given (get_field key spec)
  where
    given : Option Value → Option Value
    given none = none
    given (some null) = none
    given (some v) = some v

module _ (p : Parsers) where
  abbrev shown : Option Value → Option String
  shown none = none
  shown (some (text s)) = some s
  shown (some v) = some (p.sprint v)

  -- `stringField`
  unfoldable pub string_field : Fields → String → Option String
  string_field spec key = shown (present key spec)

  -- A field that is given and is not blank, trimmed.
  abbrev pub not_blank : Option String → Option String
  not_blank none = none
  not_blank (some s) = if trim_space s == "" then none else some (trim_space s)

  abbrev pub or_else : Option String → Outcome String → Outcome String
  or_else (some s) rest = done s
  or_else none rest = rest

  -- `displayName`
  unfoldable pub display_name : Fields → Outcome String
  display_name spec =
      or_else (not_blank (string_field spec "displayName"))
        (or_else (not_blank (string_field spec "name")) (failed no_name))

  -- `findingTitle`
  unfoldable pub finding_title : Fields → Outcome String
  finding_title spec =
      or_else (not_blank (string_field spec "displayName"))
        (or_else (not_blank (string_field spec "summary")) (display_name spec))

  -- A text that has to be the UUID of something.
  abbrev pub some_uuid : String → Option Uuid → Outcome Uuid
  some_uuid key none = failed (not_uuid key)
  some_uuid key (some id) = if id == nil then failed (nil_uuid key) else done id

  abbrev uuid_in : String → Option String → Outcome Uuid
  uuid_in key none = failed (missing key)
  uuid_in key (some s) = some_uuid key (p.parse_uuid s)

  -- `parseUUIDField`
  unfoldable pub parse_uuid_field : Fields → String → Outcome Uuid
  parse_uuid_field spec key = uuid_in key (not_blank (string_field spec key))

  abbrev first_done : Outcome Uuid → Outcome Uuid → Outcome Uuid
  first_done (done id) rest = done id
  first_done (failed e) rest = rest

  -- `firstUUIDField`
  unfoldable pub first_uuid_field : Fields → List String → Outcome Uuid
  first_uuid_field spec keys = from keys
    where
      from : List String → Outcome Uuid
      from [] = failed (none_of keys)
      from (k ∷ ks) = first_done (parse_uuid_field spec k) (from ks)

  abbrev reference_in : String → Option Value → Outcome (Option Uuid)
  reference_in key none = done none
  reference_in key (some (text s)) =
      if trim_space s == ""
      then done none
      else some_uuid key (p.parse_uuid (trim_space s)) >>= λ id. done (some id)
  reference_in key (some v) = failed (not_text key)

  -- `optionalUUIDRef`
  unfoldable pub optional_uuid_ref : Fields → String → Outcome (Option Uuid)
  optional_uuid_ref spec key = reference_in key (present key spec)

  abbrev found_or : Option Uuid → Outcome (Option Uuid) → Outcome (Option Uuid)
  found_or none rest = rest
  found_or (some id) rest = done (some id)

  -- `optionalFirstUUIDRef`
  unfoldable pub optional_first_uuid_ref : Fields → List String → Outcome (Option Uuid)
  optional_first_uuid_ref spec [] = done none
  optional_first_uuid_ref spec (k ∷ ks) =
      let rest = optional_first_uuid_ref spec ks in
      optional_uuid_ref spec k >>= λ found. found_or found rest

  abbrev annotation : Value → Option String
  annotation null = none
  annotation (text s) = some s
  annotation v = some (p.sprint v)

  -- The loop of `applyAnnotations`: `Add` puts the value under the key.
  unfoldable pub annotations_from : Fields → Dict String String → Dict String String
  annotations_from empty records = records
  annotations_from (field k v rest) records = annotations_from rest (put k (annotation v) records)
    where
      put : String → Option String → Dict String String → Dict String String
      put k none records = records
      put k (some s) records = insert k s records

  abbrev annotations_in : Option Value → Outcome (Dict String String)
  annotations_in none = done []
  annotations_in (some (object fields)) = done (annotations_from fields [])
  annotations_in (some v) = failed (not_map "annotations")

  -- `applyAnnotations`, on a new resource
  unfoldable pub apply_annotations : Fields → Outcome (Dict String String)
  apply_annotations spec = annotations_in (present "annotations" spec)
