-- ===== src/Ingress/SpecPath.antt =====
-- pkg/ingress/csv.go, `setSpecPath`: writing a value at a path of keys.
use Prim.Native.Char.{code}
use modelsrv.Prelude.{
  String, Option, none, some, List, [], ◌∷◌, ◌==◌, string_eq, nat_beq, if◌then◌else◌,
}
use modelsrv.Authz.Lists.{split}
use modelsrv.Ingress.Values.{
  Value, object, Fields, field, empty, empty_path, collides, Outcome, done, failed, ◌>>=◌,
  get_field,
}

-- `spec[key] = value`
unfoldable pub put_field : String → Value → Fields → Fields
put_field key v empty = field key v empty
put_field key v (field k w rest) =
    let others = put_field key v rest in if k == key then field k v rest else field k w others

-- What the key holds, to go on into: an object, a new one, or something else.
abbrev pub entered : String → Option Value → Outcome Fields
entered k none = done empty
entered k (some (object sub)) = done sub
entered k (some v) = failed (collides k)

-- The loop of `setSpecPath` over the parts of a path, the first apart.
unfoldable pub set_parts : String → List String → Value → Fields → Outcome Fields
set_parts k [] v dest = done (put_field k v dest)
set_parts k (k' ∷ ks) v dest =
    let go_on : Fields → Outcome Fields = set_parts k' ks v in
    entered k (get_field k dest) >>= λ sub.
    go_on sub >>= λ sub'. done (put_field k (object sub') dest)

abbrev pub set_path : List String → Value → Fields → Outcome Fields
set_path [] v dest = failed empty_path
set_path (k ∷ ks) v dest = if k == "" then failed empty_path else set_parts k ks v dest

-- `strings.Split(path, ".")`
abbrev pub path_parts : String → List String
path_parts path = split (λ c. nat_beq (code c) b'.') path

-- `setSpecPath`
unfoldable pub set_spec_path : Fields → String → Value → Outcome Fields
set_spec_path dest path v = set_path (path_parts path) v dest
