-- ===== src/Latest/Valid/Order.antt =====
-- Lists of keys without repetition, and `removeFromOrder` on them.
use modelsrv.Prelude.{◌≡◌, refl, List, [], ◌∷◌, ◌++◌, Bool, false, ◌||◌, ◌==◌, arith, if◌then◌else◌}
use modelsrv.View.{ResourceKey, resource_key_eq}
use modelsrv.Latest.{remove_from_order}

unfoldable pub contains : ResourceKey → List ResourceKey → Bool
contains k [] = false
contains k (j ∷ js) = j == k || contains k js

abbrev pub Distinct : List ResourceKey → Type 0
Distinct [] = Unit
Distinct (k ∷ ks) = (contains k ks ≡ false) × Distinct ks

pub contains-snoc :
    (k j : ResourceKey) (ks : List ResourceKey)
    → contains k (ks ++ (j ∷ [])) ≡ (contains k ks || j == k)
unfolding contains
contains-snoc k j [] = ground arith
contains-snoc k j (i ∷ ks) = ground (arith, contains-snoc k j ks)

pub Distinct-snoc :
    (j : ResourceKey) (ks : List ResourceKey)
    → Distinct ks
    → contains j ks ≡ false
    → Distinct (ks ++ (j ∷ []))
unfolding contains
Distinct-snoc j [] d h = (refl, tt)
Distinct-snoc j (k ∷ ks) d h = (
  ground
      (arith, contains-snoc k j ks, resource_key_eq.equals_iff j k, resource_key_eq.equals_iff k j),
  Distinct-snoc j ks d.1 (ground arith),
)

pub contains-remove_from_order :
    (j k : ResourceKey) (ks : List ResourceKey)
    → Distinct ks
    → contains k (remove_from_order j ks) ≡ (if j == k then false else contains k ks)
unfolding contains remove_from_order
contains-remove_from_order j k [] d = ground arith
contains-remove_from_order j k (i ∷ ks) d = ground (
  arith,
  contains-remove_from_order j k ks d.1,
  resource_key_eq.equals_iff j k,
  resource_key_eq.equals_iff i k,
  resource_key_eq.equals_iff i j,
)

pub Distinct-remove_from_order :
    (j : ResourceKey) (ks : List ResourceKey) → Distinct ks → Distinct (remove_from_order j ks)
unfolding remove_from_order
Distinct-remove_from_order j [] d = tt
Distinct-remove_from_order j (k ∷ ks) d =
    ground (arith, contains-remove_from_order j k ks d.1, Distinct-remove_from_order j ks d.1)
