-- ===== src/Prelude/Keys.antt =====
-- Go's comparable types: a Boolean equality that decides equality, found as an instance.
use Prim.Native.Nat.{ℕ}
use Prim.Native.String.{String}
use mathlib.Core.Path.{◌≡◌, refl}
use mathlib.Core.Logic.{◌↔◌, ◌≢◌}
use mathlib.Core.Bool.{Bool, true, false, ◌&&◌}
use native.Mathlib.Omega.{arith}
use text.Mathlib.Text.{◌==◌ as string_beq}
use text.Mathlib.TextEquality.{eq_iff}
use modelsrv.Prelude.Tests.{nat_beq, nat_beq_iff}

pub record Comparable {ℓ} (A : Type ℓ) : Type ℓ where
  pub equals : A → A → Bool
  pub equals_iff : (a b : A) → (equals a b ≡ true) ↔ (a ≡ b)

-- The equality of pairs, field by field.
abbrev pub pair_beq {ℓ κ} :
    {A : Type ℓ} {B : Type κ} → Comparable A → Comparable B → A × B → A × B → Bool
pair_beq ea eb (a, b) (c, d) = ea.equals a c && eb.equals b d

pub pair_beq_iff {ℓ κ} :
    {A : Type ℓ} {B : Type κ} (ea : Comparable A) (eb : Comparable B) (p q : A × B)
    → (pair_beq ea eb p q ≡ true) ↔ (p ≡ q)
pair_beq_iff ea eb (a, b) (c, d) = ground (arith, ea.equals_iff a c, eb.equals_iff b d)

instance abbrev pub string_eq : Comparable String
string_eq = record { equals = string_beq; equals_iff = eq_iff }

instance abbrev pub nat_eq : Comparable ℕ
nat_eq = record { equals_iff = nat_beq_iff; equals = nat_beq }

-- `a == b`
infix 50 ◌==◌
abbrev pub ◌==◌ {ℓ} : {A : Type ℓ} ⦃c : Comparable A⦄ → A → A → Bool
◌==◌ ⦃c⦄ = c.equals

module _ {ℓ} {A : Type ℓ} ⦃e : Comparable A⦄ where
  pub beq_self : (a : A) → (a == a) ≡ true
  beq_self a = (e.equals_iff a a).1 refl

  pub beq_ne : (a b : A) → a ≢ b → (a == b) ≡ false
  beq_ne a b h = ground (arith, e.equals_iff a b)
