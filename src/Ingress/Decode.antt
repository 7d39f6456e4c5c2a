-- ===== src/Ingress/Decode.antt =====
-- pkg/ingress/json.go and yaml.go: decoding of documents. What the JSON and YAML libraries read is a
-- parameter.
use Prim.Native.Char.{code}
use modelsrv.Prelude.{
  ℕ, ◌+◌, String, Bool, Option, none, some, List, [], ◌∷◌, ◌++◌, ◌&&◌, ◌==◌, string_eq, nat_beq,
  if◌then◌else◌, length,
}
use modelsrv.Event.Kind.{ResourceType, resource_type_eq, unknown_resource_type}
use modelsrv.Event.Wire.{parse_resource_type}
use modelsrv.Ingress.Values.{
  Fields, missing, unsupported_kind, no_documents, undecodable, inside, Outcome, done, failed,
  ◌>>=◌, trim_space,
}
use modelsrv.Ingress.Documents.{Document, is_document_kind, parse_document_kind}

-- `jsonDocument`; YAML's documents are decoded to the same fields.
pub record RawDocument : Type 0 where
  pub version : String
  pub kind : String
  pub spec : Option Fields

-- What a decoder gives one after the other, up to the end of its text or an error.
pub data Stream : Type 0 where
  eof broken : Stream
  next : RawDocument → Stream → Stream

-- `json.Unmarshal` into a document and into a list of them, and what `json.Decoder` and
-- `yaml.Decoder` give.
pub record Decoders : Type 0 where
  pub unmarshal_document : String → Option RawDocument
  pub unmarshal_documents : String → Option (List RawDocument)
  pub json_stream : String → Stream
  pub yaml_stream : String → Stream

-- No documents are an error.
abbrev pub not_empty : List Document → Outcome (List Document)
not_empty [] = failed no_documents
not_empty (doc ∷ docs) = done (doc ∷ docs)

abbrev pub with_fields : ℕ → String → ResourceType → Option Fields → Outcome Document
with_fields index version kind none = failed (inside "document" index (missing "spec"))
with_fields index version kind (some spec) =
    done (record { version = version; kind = kind; spec = some spec })

-- `jsonDocToDocument`
unfoldable pub json_doc_to_document : RawDocument → ℕ → Outcome Document
json_doc_to_document r index =
    let rt = parse_resource_type (trim_space r.kind) in
    if trim_space r.version == ""
    then failed (inside "document" index (missing "version"))
    else if trim_space r.kind == ""
    then failed (inside "document" index (missing "kind"))
    else if is_document_kind rt
    then with_fields index r.version rt r.spec
    else failed (inside "document" index unsupported_kind)

-- The loop of `jsonDocsToDocuments`.
unfoldable pub json_docs_from : ℕ → List RawDocument → Outcome (List Document)
json_docs_from index [] = done []
json_docs_from index (r ∷ raw) =
    let rest = json_docs_from (index + 1) raw in
    json_doc_to_document r index >>= λ doc. rest >>= λ docs. done (doc ∷ docs)

-- `jsonDocsToDocuments`
unfoldable pub json_docs_to_documents : List RawDocument → Outcome (List Document)
json_docs_to_documents raw = json_docs_from 0 raw >>= not_empty

-- The loop of `decodeJSONL`.
unfoldable pub jsonl_from : ℕ → Stream → Outcome (List Document)
jsonl_from index eof = done []
jsonl_from index broken = failed undecodable
jsonl_from index (next r rest) =
    let others = jsonl_from (index + 1) rest in
    json_doc_to_document r index >>= λ doc. others >>= λ docs. done (doc ∷ docs)

-- A document of YAML that is not a stray separator.
unfoldable pub yaml_document : ℕ → String → ResourceType → Option Fields → Outcome Document
yaml_document index version kind spec =
    if trim_space version == ""
    then failed (inside "document" index (missing "version"))
    else if kind == unknown_resource_type
    then failed (inside "document" index (missing "kind"))
    else with_fields index version kind spec

abbrev pub is_nil : Option Fields → Bool
is_nil none = Bool.true
is_nil (some spec) = Bool.false

-- The loop of `DecodeDocuments`, after the documents that it has appended.
unfoldable pub yaml_from : List Document → Stream → Outcome (List Document)
yaml_from docs eof = done docs
yaml_from docs broken = failed undecodable
yaml_from docs (next r rest) = do
  kind ← parse_document_kind r.kind
  if trim_space r.version == "" && (kind == unknown_resource_type && is_nil r.spec)
      then yaml_from docs rest
      else yaml_document (length docs) r.version kind r.spec >>= λ doc.
          yaml_from (docs ++ (doc ∷ [])) rest

module _ (d : Decoders) where
  -- `decodeJSONL`
  unfoldable pub decode_jsonl : String → Outcome (List Document)
  decode_jsonl data' = jsonl_from 0 (d.json_stream data') >>= not_empty

  abbrev pub one_or_lines : Option RawDocument → Outcome (List Document) → Outcome (List Document)
  one_or_lines none lines = lines
  one_or_lines (some r) lines = json_doc_to_document r 0 >>= λ doc. done (doc ∷ [])

  abbrev pub array_or_error : Option (List RawDocument) → Outcome (List Document)
  array_or_error none = failed undecodable
  array_or_error (some raw) = json_docs_to_documents raw

  -- `DecodeJSONDocuments`, of a text without the space around it
  abbrev pub json_text : String → Outcome (List Document)
  json_text String.[] = failed no_documents
  json_text (String.◌∷◌ c s) =
      let text : String = String.◌∷◌ c s in
      if nat_beq (code c) b'['
      then array_or_error (d.unmarshal_documents text)
      else if nat_beq (code c) b'{'
      then one_or_lines (d.unmarshal_document text) (decode_jsonl text)
      else decode_jsonl text

  -- `DecodeJSONDocuments`
  unfoldable pub decode_json_documents : String → Outcome (List Document)
  decode_json_documents data' = json_text (trim_space data')

  -- `DecodeDocuments`
  unfoldable pub decode_documents : String → Outcome (List Document)
  decode_documents data' = yaml_from [] (d.yaml_stream data') >>= not_empty
