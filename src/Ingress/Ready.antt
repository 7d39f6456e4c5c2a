-- ===== src/Ingress/Ready.antt =====
-- pkg/ingress/format.go: what every decoder sees to before a document is applied.
use modelsrv.Prelude.{
  ℕ, ◌+◌, ◌≡◌, refl, String, true, false, ◌&&◌, Option, none, some, List, [], ◌∷◌, ◌++◌, ◌⊎◌, ◌==◌,
  string_eq, length, Bool-cases, inl, inr, ap,
}
use modelsrv.Event.Kind.{ResourceType, resource_type_eq, unknown_resource_type}
use modelsrv.Event.Wire.{parse_resource_type}
use modelsrv.Authz.Lists.{trim_left, trim_right}
use modelsrv.Ingress.Values.{Fields, Outcome, done, failed, ◌>>=◌, trim_space}
use modelsrv.Ingress.Documents.{Document, is_document_kind, parse_document_kind}
use modelsrv.Ingress.Decode.{
  RawDocument, Stream, eof, broken, next, Decoders, not_empty, json_doc_to_document, json_docs_from,
  jsonl_from, yaml_document, yaml_from, decode_jsonl, decode_documents, with_fields, is_nil,
}

-- A document with a version, a spec and a kind that documents may have.
pub record IsReady (doc : Document) : Type 0 where
  pub versioned : (doc.version == "") ≡ false
  pub of_kind : is_document_kind doc.kind ≡ true
  pub specified : (spec : Fields) × (doc.spec ≡ some spec)

abbrev pub AllReady : List Document → Type 0
AllReady [] = Unit
AllReady (doc ∷ docs) = IsReady doc × AllReady docs

-- An error, or something of which the predicate holds.
abbrev pub Gives : {A : Type 0} → (A → Type 0) → Outcome A → Type 0
Gives P (failed e) = Unit
Gives P (done a) = P a

pub >>=-Gives :
    {A B : Type 0} (P : A → Type 0) (Q : B → Type 0) (x : Outcome A) (f : A → Outcome B)
    → Gives P x
    → ((a : A) → P a → Gives Q (f a))
    → Gives Q (x >>= f)
>>=-Gives P Q (failed e) f h k = tt
>>=-Gives P Q (done a) f h k = k a h

-- A document and those that follow it.
pub cons-Gives :
    (x : Outcome Document) (rest : Outcome (List Document))
    → Gives IsReady x
    → Gives AllReady rest
    → Gives AllReady (x >>= λ doc. rest >>= λ docs. done (doc ∷ docs))
cons-Gives (failed e) rest h k = tt
cons-Gives (done doc) (failed e) h k = tt
cons-Gives (done doc) (done docs) h k = (h, k)

pub not_empty-Gives :
    (x : Outcome (List Document)) → Gives AllReady x → Gives AllReady (x >>= not_empty)
not_empty-Gives (failed e) h = tt
not_empty-Gives (done []) h = tt
not_empty-Gives (done (doc ∷ docs)) h = h

-- What is not blank is not empty.
not_blank-not_empty : (s : String) → (trim_space s == "") ≡ false → (s == "") ≡ false
unfolding trim_space trim_left trim_right
not_blank-not_empty s h = elim (Bool-cases (s == "")) [
  | inl e ↦
      let blank : (trim_space s == "") ≡ true =
        ap (λ t. trim_space t == "") ((string_eq.equals_iff s "").0 e) in
      absurd cc
  | inr e ↦ e
]

with_fields-Gives :
    (index : ℕ) (version : String) (kind : ResourceType) (spec : Option Fields)
    → (version == "") ≡ false
    → is_document_kind kind ≡ true
    → Gives IsReady (with_fields index version kind spec)
with_fields-Gives index version kind none v k = tt
with_fields-Gives index version kind (some spec) v k = record {
  versioned = v;
  of_kind = k;
  specified = (spec, refl);
}

pub json_doc_to_document-Gives :
    (r : RawDocument) (index : ℕ) → Gives IsReady (json_doc_to_document r index)
unfolding json_doc_to_document
json_doc_to_document-Gives r index = elim (Bool-cases (trim_space r.version == "")) [
  | inl v ↦ rw v tt
  | inr v ↦ elim (Bool-cases (trim_space r.kind == "")) [
    | inl k ↦ rw (v, k) tt
    | inr k ↦ elim (Bool-cases (is_document_kind (parse_resource_type (trim_space r.kind)))) [
      | inl d ↦
          rw (v, k, d)
            (with_fields-Gives index r.version _ r.spec (not_blank-not_empty r.version v) d)
      | inr d ↦ rw (v, k, d) tt
    ]
  ]
]

pub json_docs_from-Gives :
    (index : ℕ) (raw : List RawDocument) → Gives AllReady (json_docs_from index raw)
unfolding json_docs_from
json_docs_from-Gives index [] = tt
json_docs_from-Gives index (r ∷ raw) =
    cons-Gives _ _ (json_doc_to_document-Gives r index) (json_docs_from-Gives (index + 1) raw)

jsonl_from-Gives : (index : ℕ) (s : Stream) → Gives AllReady (jsonl_from index s)
unfolding jsonl_from
jsonl_from-Gives index eof = tt
jsonl_from-Gives index broken = tt
jsonl_from-Gives index (next r rest) =
    cons-Gives _ _ (json_doc_to_document-Gives r index) (jsonl_from-Gives (index + 1) rest)

-- The kind that a document of YAML has, if it has one.
abbrev pub IsKind : ResourceType → Type 0
IsKind kind = (kind ≡ unknown_resource_type) ⊎ (is_document_kind kind ≡ true)

pub known :
    {kind : ResourceType}
    → IsKind kind
    → (kind == unknown_resource_type) ≡ false
    → is_document_kind kind ≡ true
known (inr d) k = d
known (inl e) k =
    absurd (let same = (resource_type_eq.equals_iff _ unknown_resource_type).1 e in cc)

parse_document_kind-Gives : (s : String) → Gives IsKind (parse_document_kind s)
unfolding parse_document_kind
parse_document_kind-Gives s = elim (Bool-cases (trim_space s == "")) [
  | inl e ↦ rw e (inl refl)
  | inr e ↦ elim (Bool-cases (is_document_kind (parse_resource_type (trim_space s)))) [
    | inl k ↦ rw (e, k) (inr k)
    | inr k ↦ rw (e, k) tt
  ]
]

yaml_document-Gives :
    (index : ℕ) (version : String) (kind : ResourceType) (spec : Option Fields)
    → IsKind kind
    → Gives IsReady (yaml_document index version kind spec)
unfolding yaml_document
yaml_document-Gives index version kind spec h = elim (Bool-cases (trim_space version == "")) [
  | inl v ↦ rw v tt
  | inr v ↦ elim (Bool-cases (kind == unknown_resource_type)) [
    | inl k ↦ rw (v, k) tt
    | inr k ↦
        rw (v, k)
          (with_fields-Gives index version kind spec (not_blank-not_empty version v) (known h k))
  ]
]

append-AllReady :
    (docs : List Document) (doc : Document)
    → AllReady docs
    → IsReady doc
    → AllReady (docs ++ (doc ∷ []))
append-AllReady [] doc r d = (d, tt)
append-AllReady (x ∷ docs) doc r d = (r.0, append-AllReady docs doc r.1 d)

yaml_from-Gives :
    (docs : List Document) (s : Stream) → AllReady docs → Gives AllReady (yaml_from docs s)
unfolding yaml_from
yaml_from-Gives docs eof a = a
yaml_from-Gives docs broken a = tt
yaml_from-Gives docs (next r rest) a =
    >>=-Gives IsKind AllReady (parse_document_kind r.kind) _ (parse_document_kind-Gives r.kind)
      (λ kind k.
        elim (Bool-cases
          (trim_space r.version == "" && (kind == unknown_resource_type && is_nil r.spec))) [
            | inl e ↦ rw e (yaml_from-Gives docs rest a)
            | inr e ↦ rw e (
                >>=-Gives IsReady AllReady _ _
                  (yaml_document-Gives (length docs) r.version kind r.spec k)
                  (λ doc d.
                    yaml_from-Gives (docs ++ (doc ∷ [])) rest (append-AllReady docs doc a d)))
          ])

module _ (d : Decoders) where
  pub decode_jsonl-Gives : (data' : String) → Gives AllReady (decode_jsonl d data')
  unfolding decode_jsonl
  decode_jsonl-Gives data' = not_empty-Gives _ (jsonl_from-Gives 0 (d.json_stream data'))

  pub decode_documents-Gives : (data' : String) → Gives AllReady (decode_documents d data')
  unfolding decode_documents
  decode_documents-Gives data' = not_empty-Gives _ (yaml_from-Gives [] (d.yaml_stream data') tt)
