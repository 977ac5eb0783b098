-- ===== src/Base/Keys.antt =====
-- Equality of keys as an interface, with the instances the program's maps use: 64-bit integers and
-- nullable texts (an `oatpp::String` is a null pointer or a text, and both can be keys).
use Prim.Native.String.{String}
use mathlib.Core.Path.{◌≡◌, refl, ap}
use mathlib.Core.Logic.{◌↔◌, ◌≢◌}
use mathlib.Core.Bool.{Bool, true, false}
use mathlib.Core.Option.{Option, none, some}
use Prim.Native.Nat.{ℕ}
use native.Mathlib.Omega.{arith}
use text.Mathlib.Text.{◌==◌ as str_eq}
use text.Mathlib.TextEquality.{eq_iff}
use helicopter.Base.Tests.{◌==◌, ==_iff}

pub record Eq {ℓ} (A : Type ℓ) : Type ℓ where
  pub beq : A → A → Bool
  pub beq_iff : (a b : A) → (beq a b ≡ true) ↔ (a ≡ b)

instance abbrev pub nat_eq : Eq ℕ
nat_eq = record { beq = ◌==◌; beq_iff = ==_iff }

-- A nullable text.
abbrev pub Str : Type 0
Str = Option String

abbrev pub beq_str : Str → Str → Bool
beq_str none none = true
beq_str none (some b) = false
beq_str (some a) none = false
beq_str (some a) (some b) = str_eq a b

pub beq_str_iff : (a b : Str) → (beq_str a b ≡ true) ↔ (a ≡ b)
beq_str_iff none none = (λ _. refl, λ _. refl)
beq_str_iff none (some b) = (λ h. cc, λ h. cc)
beq_str_iff (some a) none = (λ h. cc, λ h. cc)
beq_str_iff (some a) (some b) = (λ h. ap some ((eq_iff a b).0 h), λ h. ground (arith, eq_iff a b))

instance abbrev pub str_eq_inst : Eq Str
str_eq_inst = record { beq = beq_str; beq_iff = beq_str_iff }

module _ {ℓ} {A : Type ℓ} ⦃e : Eq A⦄ where
  pub beq_refl : (a : A) → e.beq a a ≡ true
  beq_refl a = (e.beq_iff a a).1 refl

  pub beq_ne : (a b : A) → a ≢ b → e.beq a b ≡ false
  beq_ne a b h = ground (arith, e.beq_iff a b)
