-- ===== src/Authz/Lists.antt =====
-- pkg/authz/owner.go and principal.go: the lists in headers and annotations. A text is read code
-- point by code point.
use Prim.Native.Char.{Char, code}
use modelsrv.Prelude.{
  String, ◌≡◌, Bool, false, ◌&&◌, ◌||◌, List, [], ◌∷◌, ◌==◌, string_eq, nat_beq, leb, if◌then◌else◌,
  Bool-cases, inl, inr,
}

-- Go's white space, `unicode.IsSpace`.
abbrev pub is_space : Char → Bool
is_space c =
    leb 9 (code c) && leb (code c) 13
    || nat_beq (code c) 32
    || nat_beq (code c) 133
    || nat_beq (code c) 160
    || nat_beq (code c) 5760
    || leb 8192 (code c) && leb (code c) 8202
    || nat_beq (code c) 8232
    || nat_beq (code c) 8233
    || nat_beq (code c) 8239
    || nat_beq (code c) 8287
    || nat_beq (code c) 12288

-- A comma, a space or a semicolon.
abbrev pub is_separator : Char → Bool
is_separator c = nat_beq (code c) 44 || nat_beq (code c) 32 || nat_beq (code c) 59

abbrev pub is_comma : Char → Bool
is_comma c = nat_beq (code c) 44

-- The first field goes on with a character.
abbrev pub prepend : Char → List String → List String
prepend c [] = (String.◌∷◌ c "") ∷ []
prepend c (w ∷ ws) = (String.◌∷◌ c w) ∷ ws

-- The fields between separators, empty ones included.
unfoldable pub split : (Char → Bool) → String → List String
split separates String.[] = "" ∷ []
split separates (String.◌∷◌ c s) =
    let rest = split separates s in if separates c then "" ∷ rest else prepend c rest

-- `strings.TrimSpace`
unfoldable pub trim_left : String → String
trim_left String.[] = ""
trim_left (String.◌∷◌ c s) = let rest = trim_left s in if is_space c then rest else String.◌∷◌ c s

unfoldable pub trim_right : String → String
trim_right String.[] = ""
trim_right (String.◌∷◌ c s) =
    let rest = trim_right s in if is_space c && rest == "" then "" else String.◌∷◌ c rest

-- The trimmed fields that are not empty.
unfoldable pub trimmed : List String → List String
unfolding trim_left trim_right
trimmed [] = []
trimmed (part ∷ parts) =
    let rest = trimmed parts in
    let s = trim_right (trim_left part) in if s == "" then rest else s ∷ rest

-- `parseList`: `FieldsFunc` gives no empty field, and none would be kept.
unfoldable pub parse_list : String → List String
unfolding trimmed split
parse_list value = if value == "" then [] else trimmed (split is_separator value)

-- `ParseGroups`
unfoldable pub parse_groups : String → List String
unfolding trimmed split
parse_groups header = if header == "" then [] else trimmed (split is_comma header)

abbrev pub NoneEmpty : List String → Type 0
NoneEmpty [] = Unit
NoneEmpty (s ∷ ss) = (s == "" ≡ false) × NoneEmpty ss

trimmed-NoneEmpty : (parts : List String) → NoneEmpty (trimmed parts)
unfolding trimmed
trimmed-NoneEmpty [] = tt
trimmed-NoneEmpty (part ∷ parts) = elim (Bool-cases (trim_right (trim_left part) == "")) [
  | inl e ↦ rw e (trimmed-NoneEmpty parts)
  | inr e ↦ rw e (e, trimmed-NoneEmpty parts)
]

-- No item of a parsed list is empty.
pub parse_list-NoneEmpty : (value : String) → NoneEmpty (parse_list value)
unfolding parse_list
parse_list-NoneEmpty value = elim (Bool-cases (value == "")) [
  | inl e ↦ rw e tt
  | inr e ↦ rw e (trimmed-NoneEmpty (split is_separator value))
]

pub parse_groups-NoneEmpty : (header : String) → NoneEmpty (parse_groups header)
unfolding parse_groups
parse_groups-NoneEmpty header = elim (Bool-cases (header == "")) [
  | inl e ↦ rw e tt
  | inr e ↦ rw e (trimmed-NoneEmpty (split is_comma header))
]
