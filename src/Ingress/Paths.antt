-- ===== src/Ingress/Paths.antt =====
-- pkg/ingress/csv.go: a value that is written at a path of keys is read there again.
use modelsrv.Prelude.{
  ◌≡◌, refl, String, false, Option, none, some, List, [], ◌∷◌, ◌==◌, string_eq, if◌then◌else◌,
  Bool-cases, inl, inr, subst, arith,
}
use modelsrv.Ingress.Values.{
  Value, object, Fields, field, empty, IngressError, Outcome, done, failed, get_field,
}
use modelsrv.Ingress.SpecPath.{put_field, entered, set_parts, set_path, path_parts, set_spec_path}
use modelsrv.Ingress.Adds.{Outcome-cases}

-- What an object has, if there is one.
abbrev below : (Fields → Option Value) → Option Value → Option Value
below get (some (object sub)) = get sub
below get v = none

-- What a spec has under a key, and then in the objects below it.
unfoldable pub get_path : String → List String → Fields → Option Value
get_path k [] fs = get_field k fs
get_path k (k' ∷ ks) fs = below (get_path k' ks) (get_field k fs)

get_field-put_field :
    (key other : String) (v : Value) (fs : Fields)
    → get_field other (put_field key v fs) ≡ (if key == other then some v else get_field other fs)
unfolding get_field put_field
get_field-put_field key other v empty = refl
get_field-put_field key other v (field k w rest) =
    let later = get_field-put_field key other v rest in
    ground (
      arith,
      later,
      string_eq.equals_iff k key,
      string_eq.equals_iff k other,
      string_eq.equals_iff key other,
    )

put_field_self :
    (key : String) (v : Value) (fs : Fields) → get_field key (put_field key v fs) ≡ some v
put_field_self key v fs =
    rw (get_field-put_field key key v fs, (string_eq.equals_iff key key).1 refl) refl

-- One value is written at a path, and the other keys beside its first are left as they were.
Written : String → List String → Value → Fields → Outcome Fields → Type 0
Written k ks v dest (failed e) = Unit
Written k ks v dest (done dest') =
    (get_path k ks dest' ≡ some v)
    × ((other : String) → (k == other) ≡ false → get_field other dest' ≡ get_field other dest)

set_parts-Written :
    (k : String) (ks : List String) (v : Value) (dest : Fields)
    → Written k ks v dest (set_parts k ks v dest)
unfolding Written get_path set_parts
set_parts-Written k [] v dest =
    (put_field_self k v dest, λ other n. rw (get_field-put_field k other v dest, n) refl)
set_parts-Written k (k' ∷ ks) v dest = elim (Outcome-cases (entered k (get_field k dest))) [
  | inl (e, h) ↦ rw h tt
  | inr (sub, h) ↦ elim (Outcome-cases (set_parts k' ks v sub)) [
    | inl (e, q) ↦ rw (h, q) tt
    | inr (sub', q) ↦
        let (found, others) = rw q at (set_parts-Written k' ks v sub) in
        rw (h, q)
          (
            rw (put_field_self k (object sub') dest) found,
            λ other n. rw (get_field-put_field k other (object sub') dest, n) refl,
          )
  ]
]

refused : {e : IngressError} {fs : Fields} → failed e ≡ done fs → ⊥
refused h = cc

set_path-Written :
    (parts : List String) (v : Value) (dest : Fields) {dest' : Fields}
    → set_path parts v dest ≡ done dest'
    → (k : String) × (ks : List String) × (parts ≡ k ∷ ks)
      × ((k == "") ≡ false)
      × Written k ks v dest (done dest')
set_path-Written [] v dest h = absurd (refused h)
set_path-Written (k ∷ ks) v dest h = elim (Bool-cases (k == "")) [
  | inl e ↦ absurd (refused (rw e at h))
  | inr e ↦
      (k, ks, refl, e, subst (Written k ks v dest) (rw e at h) (set_parts-Written k ks v dest))
]

-- Where writing a value at a path succeeds, the path has a first key that is not empty, the value is
-- read back at the path, and every other key beside the first has what it had.
pub set_spec_path-get_path :
    (dest : Fields) (path : String) (v : Value) {dest' : Fields}
    → set_spec_path dest path v ≡ done dest'
    → (k : String) × (ks : List String) × (path_parts path ≡ k ∷ ks)
      × ((k == "") ≡ false)
      × (get_path k ks dest' ≡ some v)
      × ((other : String) → (k == other) ≡ false → get_field other dest' ≡ get_field other dest)
unfolding set_spec_path Written
set_spec_path-get_path dest path v h =
    let (k, ks, parts, named, written) = set_path-Written (path_parts path) v dest h in
    (k, ks, parts, named, written.0, written.1)
