-- ===== src/Ingress/Tests.antt =====
-- A context, an API that names it by a text, and a group, which is refused.
use mathlib.Core.List.{Memᴰ}
use modelsrv.Prelude.{
  ℕ, ◌+◌, ◌↔◌, get_elem?, take, length, String, false, ◌≡◌, refl, Option, none, some, List, [], ◌∷◌,
  ◌==◌, string_eq, nat_eq, if◌then◌else◌,
}
use modelsrv.Event.{Uuid}
use modelsrv.Event.Kind
use modelsrv.Model.State.{ModelData, Objects, new_model, add_event_enabled}
use modelsrv.Model.Landscape.{add_context}
use modelsrv.Ingress.Landscape.{apply_context}
use modelsrv.Ingress.Making.{made}
use modelsrv.Ingress.Values.{
  IngressError, text, object, Fields, field, empty, done, failed, Parsers, trim_space,
  parse_uuid_field, string_field, get_field, present, display_name, optional_uuid_ref,
  apply_annotations,
}
use modelsrv.Ingress.Resources.{Resource, resources}
use modelsrv.Ingress.Documents.{
  Document, parse_document_kind, valid_version, apply_spec, apply_document, apply_all, model_after,
}
use modelsrv.Ingress.Decode.{
  Stream, eof, next, Decoders, decode_documents, yaml_from, yaml_document,
}
use modelsrv.Ingress.Csv.{CsvParsers}
use modelsrv.Ingress.SpecPath.{set_spec_path, path_parts, set_parts, put_field}
use modelsrv.Authz.Lists.{split}
use modelsrv.Event.Wire.{parse_resource_type}
use modelsrv.Ingress.Format.{
  ParseOptions, parse, resolve_format, detect_format, lower_among, lower_equals,
}
use modelsrv.Ingress.Applied.{IsAdded, apply_document-IsAdded, apply_all-reports}
use modelsrv.Ingress.Ready.{AllReady}
use modelsrv.Ingress.Parsed.{parse-AllReady}
use modelsrv.Ingress.Paths.{get_path, set_spec_path-get_path}

abbrev parse_id : String → Option Uuid
parse_id s = if s == "u1" then some 1 else if s == "u2" then some 2 else none

abbrev parsers : Parsers
parsers = record {
  parse_uuid = parse_id;
  parse_time = λ s. none;
  sprint = λ v. "shown";
  is_amount = λ s. s == "5";
}

abbrev objects : Objects Resource
objects = resources (λ s. s == "5")

abbrev context_spec : Fields
context_spec = field "contextId" (text "u1") (field "name" (text "Prod") empty)

abbrev a_context : Document
a_context = record {
  version = "emeland.io/v1";
  kind = Kind.context_resource;
  spec = some context_spec;
}

abbrev a_group : Document
a_group = record {
  version = "emeland.io/v1";
  kind = Kind.group_resource;
  spec = some (field "groupId" (text "u2") empty);
}

abbrev with_context : ModelData Resource
with_context = model_after new_model (apply_document parsers objects new_model a_context)

a_context-applied : apply_document parsers objects new_model a_context ≡ done with_context
unfolding apply_document valid_version trim_space apply_spec apply_context made parse_uuid_field
    string_field present display_name optional_uuid_ref apply_annotations add_context
    add_event_enabled
a_context-applied = refl

apply_document-IsAdded_example : IsAdded parsers (λ s. s == "5") new_model a_context with_context
apply_document-IsAdded_example =
    apply_document-IsAdded parsers (λ s. s == "5") new_model a_context a_context-applied

apply_all-reports_example :
    let docs = a_group ∷ a_context ∷ [] in
    let out = (apply_all parsers objects new_model docs).1 in
    ((n : ℕ) (e : IngressError)
      → Memᴰ (record { index = n; error = e }) out.failed_documents ↔ (
          (doc : Document) × (get_elem? docs n ≡ some doc)
          × (apply_document parsers objects
                (apply_all parsers objects new_model (take n docs)).0
                doc
              ≡ failed e)))
    × (out.applied + length out.failed_documents ≡ length docs)
apply_all-reports_example = apply_all-reports parsers objects new_model (a_group ∷ a_context ∷ [])

owner_written :
    set_spec_path empty "annotations.owner" (text "ops")
    ≡ done (field "annotations" (object (field "owner" (text "ops") empty)) empty)
unfolding set_spec_path split set_parts get_field put_field
owner_written = refl

set_spec_path-get_path_example :
    (k : String) × (ks : List String) × (path_parts "annotations.owner" ≡ k ∷ ks)
    × ((k == "") ≡ false)
    × (get_path k ks (field "annotations" (object (field "owner" (text "ops") empty)) empty)
        ≡ some (text "ops"))
    × ((other : String)
        → (k == other) ≡ false
        → get_field other (field "annotations" (object (field "owner" (text "ops") empty)) empty)
          ≡ get_field other empty)
set_spec_path-get_path_example =
    set_spec_path-get_path empty "annotations.owner" (text "ops") owner_written

abbrev a_stream : Stream
a_stream =
    next (record { version = "emeland.io/v1"; kind = "Context"; spec = some context_spec }) eof

abbrev decoders : Decoders
decoders = record {
  unmarshal_document = λ s. none;
  unmarshal_documents = λ s. none;
  json_stream = λ s. a_stream;
  yaml_stream = λ s. a_stream;
}

abbrev csv_parsers : CsvParsers
csv_parsers = record {
  read_all = λ delimiter s. none;
  unmarshal = λ s. none;
  parse_number = λ s. none;
}

abbrev options : ParseOptions
options = record {
  format = none;
  content_type = "";
  csv = record { kind = Kind.unknown_resource_type; version = ""; delimiter = 0; columns = [] };
}

parsed_context : parse decoders csv_parsers "a/b.YAML" "" options ≡ done (a_context ∷ [])
unfolding parse resolve_format detect_format lower_among lower_equals decode_documents yaml_from
    parse_document_kind trim_space parse_resource_type yaml_document Kind.resource_type_beq
parsed_context = refl

parse-AllReady_example : AllReady (a_context ∷ [])
parse-AllReady_example = parse-AllReady decoders csv_parsers "a/b.YAML" "" options parsed_context
