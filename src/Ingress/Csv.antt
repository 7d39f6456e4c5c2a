-- ===== src/Ingress/Csv.antt =====
-- pkg/ingress/csv.go: documents from the rows of a CSV file. The reader of CSV, the parsers of JSON
-- and of numbers, and the order in which Go passes over the map of columns are parameters.
use modelsrv.Prelude.{
  ℕ, ◌+◌, String, Bool, true, false, ◌&&◌, ◌||◌, Option, none, some, List, [], ◌∷◌, ◌++◌, ◌==◌,
  string_eq, nat_beq, get_elem?, if◌then◌else◌,
}
use modelsrv.Prelude.Dict.{Dict, lookup, insert}
use modelsrv.Event.Kind.{ResourceType, resource_type_eq, unknown_resource_type}
use modelsrv.Event.Wire.{parse_resource_type}
use modelsrv.Ingress.Values.{
  Value, text, flag, Fields, empty, missing, unsupported_kind, no_documents, undecodable,
  no_kind_column, within, Outcome, done, failed, ◌>>=◌, trim_space,
}
use modelsrv.Ingress.Documents.{Document, is_document_kind, has_prefix}
use modelsrv.Ingress.PrimaryId.{primary_id_field}
use modelsrv.Ingress.SpecPath.{put_field, set_spec_path}

-- The part of `ParseOptions` that CSV uses; the columns are in the order of the loop over them, and
-- `delimiter` 0 is none.
pub record CsvOptions : Type 0 where
  pub kind : ResourceType
  pub version : String
  pub delimiter : ℕ
  pub columns : Dict String String

-- `csv.Reader.ReadAll` with a delimiter, `json.Unmarshal`, and `strconv.ParseInt` or else
-- `strconv.ParseFloat`.
pub record CsvParsers : Type 0 where
  pub read_all : ℕ → String → Option (List (List String))
  pub unmarshal : String → Option Value
  pub parse_number : String → Option Value

-- `DefaultCSVColumns`
abbrev default_csv_columns : Dict String String
default_csv_columns =
    ("resourcetype", "kind")
    ∷ ("uuid", "id")
    ∷ ("displayname", "displayName")
    ∷ ("description", "description")
    ∷ ("annotations", "annotations")
    ∷ []

abbrev pub columns_of : Dict String String → Dict String String
columns_of [] = default_csv_columns
columns_of (c ∷ cs) = c ∷ cs

unfoldable pub maps_kind : Dict String String → Bool
maps_kind [] = false
maps_kind ((header, path) ∷ columns) = trim_space path == "kind" || maps_kind columns

-- `ValidateCSVOptions`
unfoldable pub validate_csv_options : CsvOptions → Outcome (Unit {0})
unfolding maps_kind
validate_csv_options opts =
    if opts.kind == unknown_resource_type
    then if maps_kind (columns_of opts.columns) then done tt else failed no_kind_column
    else if is_document_kind opts.kind
    then done tt
    else failed unsupported_kind

-- `isEmptyCSVRow`
unfoldable pub is_empty_csv_row : List String → Bool
is_empty_csv_row [] = true
is_empty_csv_row (c ∷ row) = trim_space c == "" && is_empty_csv_row row

-- `headerIndex`: the last column with the header.
unfoldable pub header_index : ℕ → List String → Dict String ℕ → Dict String ℕ
header_index i [] index = index
header_index i (h ∷ headers) index = header_index (i + 1) headers (insert (trim_space h) i index)

-- The columns with a meaning of their own, and the others with their paths.
pub record Layout : Type 0 where
  pub kind_col : Option ℕ
  pub version_col : Option ℕ
  pub id_col : Option ℕ
  pub spec_maps : List (ℕ × String)

abbrev place : String → Option ℕ → Layout → Layout
place path none layout = layout
place path (some i) layout =
    if trim_space path == "kind"
    then record layout { kind_col = some i }
    else if trim_space path == "version"
    then record layout { version_col = some i }
    else if trim_space path == "id"
    then record layout { id_col = some i }
    else record layout { spec_maps = layout.spec_maps ++ ((i, path) ∷ []) }

-- The loop over the columns.
unfoldable pub layout_from : Dict String ℕ → Dict String String → Layout → Layout
layout_from index [] layout = layout
layout_from index ((header, path) ∷ columns) layout =
    layout_from index columns (place path (lookup header index) layout)

-- The trimmed cell of a row, empty where there is none.
abbrev pub cell : Option ℕ → List String → String
cell none row = ""
cell (some i) row = trimmed (get_elem? row i)
  where
    trimmed : Option String → String
    trimmed none = ""
    trimmed (some s) = trim_space s

-- The kind of a row.
abbrev pub row_kind : ResourceType → String → Outcome ResourceType
row_kind default s =
    if s == ""
    then if default == unknown_resource_type then failed (missing "kind") else done default
    else if is_document_kind (parse_resource_type s)
    then done (parse_resource_type s)
    else failed unsupported_kind

abbrev pub or_default : String → String → String
or_default default s = if s == "" then default else s

module _ (c : CsvParsers) where
  abbrev parsed_or : Option Value → Value → Value
  parsed_or none v = v
  parsed_or (some v) w = v

  -- `coerceCSVValue`
  unfoldable pub coerce_csv_value : String → Value
  coerce_csv_value s =
      let trimmed : String = trim_space s in
      let plain : Value =
        if s == "true"
        then flag true
        else if s == "false"
        then flag false
        else parsed_or (c.parse_number s) (text s) in
      if has_prefix trimmed "{" || has_prefix trimmed "["
      then parsed_or (c.unmarshal trimmed) plain
      else plain

  -- The cell under the primary field of the kind.
  abbrev pub identified : ResourceType → String → Outcome Fields
  identified kind s = if s == "" then done empty else under (primary_id_field kind)
    where
      under : Option String → Outcome Fields
      under none = failed (missing "id")
      under (some key) = done (put_field key (coerce_csv_value s) empty)

  -- The loop over the columns with paths.
  unfoldable pub filled : List (ℕ × String) → List String → Fields → Outcome Fields
  filled [] row spec = done spec
  filled ((i, path) ∷ maps) row spec =
      let go_on : Fields → Outcome Fields = filled maps row in
      let s : String = cell (some i) row in
      if s == "" then go_on spec else set_spec_path spec path (coerce_csv_value s) >>= go_on

  -- A row that is not empty.
  unfoldable pub row_document : ResourceType → String → Layout → List String → Outcome Document
  row_document default version layout row = do
    kind ← row_kind default (cell layout.kind_col row)
    start ← identified kind (cell layout.id_col row)
    spec ← filled layout.spec_maps row start
    done (record {
      version = or_default version (cell layout.version_col row);
      kind = kind;
      spec = some spec;
    })

  -- The loop over the rows.
  unfoldable pub rows_from :
      ResourceType → String → Layout → ℕ → List (List String) → Outcome (List Document)
  rows_from default version layout i [] = done []
  rows_from default version layout i (row ∷ rows) =
      let rest = rows_from default version layout (i + 1) rows in
      if is_empty_csv_row row
      then rest
      else within "row" i (row_document default version layout row) >>= λ doc.
          rest >>= λ docs. done (doc ∷ docs)

  abbrev pub some_rows : List Document → Outcome (List Document)
  some_rows [] = failed no_documents
  some_rows (doc ∷ docs) = done (doc ∷ docs)

  abbrev pub kind_known : ResourceType → Option ℕ → Outcome (Unit {0})
  kind_known kind (some i) = done tt
  kind_known kind none = if kind == unknown_resource_type then failed no_kind_column else done tt

  abbrev pub records_documents : CsvOptions → Option (List (List String)) → Outcome (List Document)
  records_documents opts none = failed undecodable
  records_documents opts (some []) = failed no_documents
  records_documents opts (some (headers ∷ [])) = failed no_documents
  records_documents opts (some (headers ∷ rows)) =
      let layout =
        layout_from (header_index 0 headers []) (columns_of opts.columns)
          (record { kind_col = none; version_col = none; id_col = none; spec_maps = [] }) in
      kind_known opts.kind layout.kind_col >>= λ checked.
      rows_from opts.kind (or_default "emeland.io/v1" (trim_space opts.version)) layout 1 rows
      >>= some_rows

  -- `DecodeCSVDocuments`
  unfoldable pub decode_csv_documents : CsvOptions → String → Outcome (List Document)
  decode_csv_documents opts data' = validate_csv_options opts >>= λ checked.
      records_documents opts
        (c.read_all (if nat_beq opts.delimiter 0 then b',' else opts.delimiter) data')
