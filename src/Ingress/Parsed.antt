-- ===== src/Ingress/Parsed.antt =====
-- pkg/ingress/format.go: what `Parse` gives, whatever the format is.
use Prim.Native.Char.{code}
use modelsrv.Prelude.{
  ℕ, ◌+◌, ◌≡◌, refl, String, true, false, Option, none, some, List, [], ◌∷◌, ◌==◌, string_eq,
  nat_beq, Bool-cases, inl, inr, subst,
}
use modelsrv.Event.Kind.{ResourceType, resource_type_eq, unknown_resource_type}
use modelsrv.Event.Wire.{parse_resource_type}
use modelsrv.Ingress.Values.{Fields, Outcome, done, failed, ◌>>=◌, within, trim_space}
use modelsrv.Ingress.Documents.{Document, is_document_kind}
use modelsrv.Ingress.Decode.{
  RawDocument, Decoders, json_text, one_or_lines, array_or_error, json_docs_to_documents,
  decode_json_documents,
}
use modelsrv.Ingress.Csv.{
  CsvOptions, CsvParsers, Layout, validate_csv_options, row_kind, cell, or_default, identified,
  filled, row_document, is_empty_csv_row, rows_from, records_documents, some_rows,
  decode_csv_documents, maps_kind, columns_of,
}
use modelsrv.Ingress.Format.{
  Format, format_yaml, format_json, format_csv, other_format, ParseOptions, resolve_format,
  decode_as, parse,
}
use modelsrv.Ingress.Ready.{
  IsReady, AllReady, Gives, IsKind, known, >>=-Gives, cons-Gives, not_empty-Gives,
  json_doc_to_document-Gives, json_docs_from-Gives, decode_jsonl-Gives, decode_documents-Gives,
}

always :
    {A B : Type 0} (Q : B → Type 0) (x : Outcome A) (f : A → Outcome B)
    → ((a : A) → Gives Q (f a))
    → Gives Q (x >>= f)
always Q x f k = >>=-Gives (λ a. Unit) Q x f (anything x) (λ a h. k a)
  where
    anything : {A : Type 0} → (x : Outcome A) → Gives (λ a. Unit) x
    anything (failed e) = tt
    anything (done a) = tt

module _ (d : Decoders) where
  one_or_lines-Gives :
      (r : Option RawDocument) (lines : Outcome (List Document))
      → Gives AllReady lines
      → Gives AllReady (one_or_lines d r lines)
  one_or_lines-Gives none lines h = h
  one_or_lines-Gives (some r) lines h =
      >>=-Gives IsReady AllReady _ _ (json_doc_to_document-Gives r 0) (λ doc ready. (ready, tt))

  array_or_error-Gives : (raw : Option (List RawDocument)) → Gives AllReady (array_or_error d raw)
  unfolding json_docs_to_documents
  array_or_error-Gives none = tt
  array_or_error-Gives (some raw) = not_empty-Gives _ (json_docs_from-Gives 0 raw)

  json_text-Gives : (s : String) → Gives AllReady (json_text d s)
  json_text-Gives String.[] = tt
  json_text-Gives (String.◌∷◌ c s) = elim (Bool-cases (nat_beq (code c) b'[')) [
    | inl e ↦ rw e (array_or_error-Gives _)
    | inr e ↦ elim (Bool-cases (nat_beq (code c) b'{')) [
      | inl f ↦ rw (e, f) (one_or_lines-Gives _ _ (decode_jsonl-Gives d _))
      | inr f ↦ rw (e, f) (decode_jsonl-Gives d _)
    ]
  ]

module _ (c : CsvParsers) where
  row_kind-Gives :
      (default : ResourceType) (s : String)
      → IsKind default
      → Gives (λ kind. is_document_kind kind ≡ true) (row_kind default s)
  row_kind-Gives default s h = elim (Bool-cases (s == "")) [
    | inl e ↦ elim (Bool-cases (default == unknown_resource_type)) [
      | inl u ↦ rw (e, u) tt
      | inr u ↦ rw (e, u) (known h u)
    ]
    | inr e ↦ elim (Bool-cases (is_document_kind (parse_resource_type s))) [
      | inl k ↦ rw (e, k) k
      | inr k ↦ rw (e, k) tt
    ]
  ]

  or_default-versioned :
      (version s : String) → (version == "") ≡ false → (or_default version s == "") ≡ false
  or_default-versioned version s h = elim (Bool-cases (s == "")) [ inl e ↦ rw e h | inr e ↦ rw e e ]

  IsReady-row :
      (kind : ResourceType) (version : String) (spec : Fields)
      → is_document_kind kind ≡ true
      → (version == "") ≡ false
      → Gives IsReady (done (record { version = version; kind = kind; spec = some spec }))
  IsReady-row kind version spec k v = record {
    versioned = v;
    of_kind = k;
    specified = (spec, refl);
  }

  row_document-Gives :
      (default : ResourceType) (version : String) (layout : Layout) (row : List String)
      → IsKind default
      → (version == "") ≡ false
      → Gives IsReady (row_document c default version layout row)
  unfolding row_document
  row_document-Gives default version layout row k v =
      >>=-Gives (λ kind. is_document_kind kind ≡ true) IsReady _ _
        (row_kind-Gives default (cell layout.kind_col row) k)
        (λ kind is_kind. always IsReady (identified c kind (cell layout.id_col row)) _ (λ start.
          always IsReady (filled c layout.spec_maps row start) _ (λ spec.
            IsReady-row kind _ spec is_kind
              (or_default-versioned version (cell layout.version_col row) v))))

  within-Gives :
      (key : String) (i : ℕ) (x : Outcome Document)
      → Gives IsReady x
      → Gives IsReady (within key i x)
  within-Gives key i (failed e) h = tt
  within-Gives key i (done doc) h = h

  rows_from-Gives :
      (default : ResourceType) (version : String) (layout : Layout) (i : ℕ)
      (rows : List (List String))
      → IsKind default
      → (version == "") ≡ false
      → Gives AllReady (rows_from c default version layout i rows)
  unfolding rows_from
  rows_from-Gives default version layout i [] k v = tt
  rows_from-Gives default version layout i (row ∷ rows) k v =
      let rest = rows_from-Gives default version layout (i + 1) rows k v in
      elim (Bool-cases (is_empty_csv_row row)) [
        | inl e ↦ rw e rest
        | inr e ↦ rw e (
            cons-Gives _ _
              (within-Gives "row" i _ (row_document-Gives default version layout row k v)) rest)
      ]

  some_rows-Gives :
      (x : Outcome (List Document)) → Gives AllReady x → Gives AllReady (x >>= some_rows c)
  some_rows-Gives (failed e) h = tt
  some_rows-Gives (done []) h = tt
  some_rows-Gives (done (doc ∷ docs)) h = h

  records_documents-Gives :
      (opts : CsvOptions) (records : Option (List (List String)))
      → IsKind opts.kind
      → Gives AllReady (records_documents c opts records)
  records_documents-Gives opts none k = tt
  records_documents-Gives opts (some []) k = tt
  records_documents-Gives opts (some (headers ∷ [])) k = tt
  records_documents-Gives opts (some (headers ∷ row ∷ rows)) k = always AllReady _ _ (λ checked.
      some_rows-Gives _ (
        rows_from-Gives opts.kind _ _ 1 (row ∷ rows) k
          (or_default-versioned "emeland.io/v1" (trim_space opts.version) refl)))

  validate_csv_options-Gives :
      (opts : CsvOptions) → Gives (λ checked. IsKind opts.kind) (validate_csv_options opts)
  unfolding validate_csv_options
  validate_csv_options-Gives opts = elim (Bool-cases (opts.kind == unknown_resource_type)) [
    | inl u ↦ elim (Bool-cases (maps_kind (columns_of opts.columns))) [
      | inl h ↦ rw (u, h) (inl ((resource_type_eq.equals_iff opts.kind unknown_resource_type).0 u))
      | inr h ↦ rw (u, h) tt
    ]
    | inr u ↦ elim (Bool-cases (is_document_kind opts.kind)) [
      | inl h ↦ rw (u, h) (inr refl)
      | inr h ↦ rw (u, h) tt
    ]
  ]

  decode_csv_documents-Gives :
      (opts : CsvOptions) (data' : String) → Gives AllReady (decode_csv_documents c opts data')
  unfolding decode_csv_documents
  decode_csv_documents-Gives opts data' =
      >>=-Gives (λ checked. IsKind opts.kind) AllReady _ _ (validate_csv_options-Gives opts)
        (λ checked k. records_documents-Gives opts _ k)

module _ (d : Decoders) (c : CsvParsers) where
  decode_as-Gives :
      (f : Format) (data' : String) (opts : ParseOptions)
      → Gives AllReady (decode_as d c f data' opts)
  unfolding decode_json_documents
  decode_as-Gives format_yaml data' opts = decode_documents-Gives d data'
  decode_as-Gives format_json data' opts = json_text-Gives d (trim_space data')
  decode_as-Gives format_csv data' opts = decode_csv_documents-Gives c opts.csv data'
  decode_as-Gives (other_format s) data' opts = tt

  -- Whatever the format and the text are, every document that is parsed has a version, a spec and a
  -- kind that documents may have.
  pub parse-AllReady :
      (name data' : String) (opts : ParseOptions) {docs : List Document}
      → parse d c name data' opts ≡ done docs
      → AllReady docs
  unfolding parse
  parse-AllReady name data' opts h =
      of_done (parse d c name data' opts)
        (always AllReady (resolve_format name opts) _ (λ f. decode_as-Gives f data' opts)) h
    where
      of_done :
          (x : Outcome (List Document)) {docs : List Document}
          → Gives AllReady x
          → x ≡ done docs
          → AllReady docs
      of_done (failed e) g h = absurd cc
      of_done (done xs) g h = subst (Gives AllReady) h g
