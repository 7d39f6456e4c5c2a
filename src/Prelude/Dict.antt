-- ===== src/Prelude/Dict.antt =====
-- Go's maps as association lists without repeated keys: an assignment replaces the entry in place
-- or adds one at the end, so listing the map gives one entry for each key. Go lists a map in no
-- fixed order; the model fixes one.
use mathlib.Core.Path.{◌≡◌, refl}
use mathlib.Core.Option.{Option, none, some}
use mathlib.Core.List.{List, [], ◌∷◌}
use native.Mathlib.Omega.{arith}
use modelsrv.Prelude.Tests.{if◌then◌else◌}
use modelsrv.Prelude.Keys.{Comparable, ◌==◌}

abbrev pub Dict {ℓ κ} : Type ℓ → Type κ → Type (ℓ ⊔ κ)
Dict K V = List (K × V)

module _ {ℓ κ} {K : Type ℓ} {V : Type κ} ⦃e : Comparable K⦄ where
  -- m[k], with `none` for a missing key.
  unfoldable pub lookup : K → Dict K V → Option V
  lookup k [] = none
  lookup k ((i, x) ∷ rest) = if i == k then some x else lookup k rest

  -- delete(m, k)
  unfoldable pub delete : K → Dict K V → Dict K V
  delete k [] = []
  delete k ((i, x) ∷ rest) = if i == k then delete k rest else (i, x) ∷ delete k rest

  -- What is read after a deletion.
  pub lookup-delete :
      (key other : K) (d : Dict K V)
      → lookup other (delete key d) ≡ (if key == other then none else lookup other d)
  unfolding delete lookup
  lookup-delete key other [] = ground arith
  lookup-delete key other ((i, y) ∷ d) =
      let later = lookup-delete key other d in
      ground (arith, later, e.equals_iff i key, e.equals_iff i other, e.equals_iff key other)

  -- m[k] = v
  unfoldable pub insert : K → V → Dict K V → Dict K V
  insert k v [] = (k, v) ∷ []
  insert k v ((i, old) ∷ rest) =
      let kept = insert k v rest in if i == k then (k, v) ∷ rest else (i, old) ∷ kept

  -- What is read after an assignment.
  pub lookup-insert :
      (key other : K) (x : V) (d : Dict K V)
      → lookup other (insert key x d) ≡ (if key == other then some x else lookup other d)
  unfolding insert lookup
  lookup-insert key other x [] = refl
  lookup-insert key other x ((i, y) ∷ d) =
      let later = lookup-insert key other x d in
      ground (arith, later, e.equals_iff i key, e.equals_iff i other, e.equals_iff key other)
