-- ===== src/Ingress/Format.antt =====
-- pkg/ingress/format.go: the format of a file, and how it is decoded.
use Prim.Native.Char.{code}
use modelsrv.Prelude.{
  ℕ, ◌+◌, String, Bool, true, false, ◌&&◌, ◌||◌, Option, none, some, List, [], ◌∷◌, string_eq,
  nat_beq, leb, if◌then◌else◌,
}
use modelsrv.Ingress.Values.{unsupported_format, Outcome, failed, done, ◌>>=◌, trim_space}
use modelsrv.Ingress.Documents.{Document}
use modelsrv.Ingress.Decode.{Decoders, decode_documents, decode_json_documents}
use modelsrv.Ingress.Csv.{CsvOptions, CsvParsers, decode_csv_documents}

-- The values of `Format` with a name; "" is none, and any other text is a format that is refused.
pub data Format : Type 0 where
  format_yaml format_json format_csv : Format
  other_format : String → Format

-- `ParseOptions`
pub record ParseOptions : Type 0 where
  pub format : Option Format
  pub content_type : String
  pub csv : CsvOptions

-- `filepath.Ext`: from the last period of the last part, or else nothing.
abbrev ext_from : String → String → String
ext_from found String.[] = found
ext_from found (String.◌∷◌ c s) =
    if nat_beq (code c) b'/'
    then ext_from "" s
    else if nat_beq (code c) b'.'
    then ext_from (String.◌∷◌ c s) s
    else ext_from found s

-- `unicode.ToLower`, where the outcome may be an ASCII letter.
abbrev lowered : ℕ → ℕ
lowered c =
    if leb b'A' c && leb c b'Z'
    then c + 32
    else if nat_beq c 8490
    then b'k'
    else if nat_beq c 304
    then b'i'
    else c

-- `strings.ToLower(s)` is a text in ASCII.
unfoldable pub lower_equals : String → String → Bool
lower_equals String.[] String.[] = true
lower_equals String.[] (String.◌∷◌ d t) = false
lower_equals (String.◌∷◌ c s) String.[] = false
lower_equals (String.◌∷◌ c s) (String.◌∷◌ d t) =
    nat_beq (lowered (code c)) (code d) && lower_equals s t

unfoldable pub lower_among : String → List String → Bool
lower_among s [] = false
lower_among s (t ∷ ts) = lower_equals s t || lower_among s ts

-- `DetectFormat`
unfoldable pub detect_format : String → Option Format
detect_format name =
    let ext : String = ext_from "" name in
    if lower_among ext (".yaml" ∷ ".yml" ∷ [])
    then some format_yaml
    else if lower_among ext (".json" ∷ ".jsonl" ∷ [])
    then some format_json
    else if lower_among ext (".csv" ∷ [])
    then some format_csv
    else none

-- The text before the first semicolon.
abbrev before_semicolon : String → String
before_semicolon String.[] = ""
before_semicolon (String.◌∷◌ c s) =
    let rest = before_semicolon s in if nat_beq (code c) b';' then "" else String.◌∷◌ c rest

-- `FormatFromContentType`
unfoldable pub format_from_content_type : String → Option Format
format_from_content_type content_type =
    let mime : String = trim_space (before_semicolon content_type) in
    if lower_among mime
      ("application/yaml" ∷ "application/x-yaml" ∷ "text/yaml" ∷ "text/x-yaml" ∷ [])
    then some format_yaml
    else if lower_among mime
        ("application/json" ∷ "text/json" ∷ "application/x-ndjson" ∷ "application/jsonl" ∷ [])
    then some format_json
    else if lower_among mime ("text/csv" ∷ "application/csv" ∷ [])
    then some format_csv
    else none

abbrev first_of : Option Format → Option Format → Option Format
first_of (some f) rest = some f
first_of none rest = rest

abbrev required : Option Format → Outcome Format
required none = failed unsupported_format
required (some f) = done f

-- `ResolveFormat`
unfoldable pub resolve_format : String → ParseOptions → Outcome Format
resolve_format name opts = required (
    first_of opts.format
      (first_of (detect_format name) (format_from_content_type opts.content_type)))

module _ (d : Decoders) (c : CsvParsers) where
  abbrev pub decode_as : Format → String → ParseOptions → Outcome (List Document)
  decode_as format_yaml data' opts = decode_documents d data'
  decode_as format_json data' opts = decode_json_documents d data'
  decode_as format_csv data' opts = decode_csv_documents c opts.csv data'
  decode_as (other_format s) data' opts = failed unsupported_format

  -- `Parse`
  unfoldable pub parse : String → String → ParseOptions → Outcome (List Document)
  parse name data' opts = resolve_format name opts >>= λ f. decode_as f data' opts
