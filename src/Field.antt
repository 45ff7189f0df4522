-- ===== src/Field.antt =====
-- The interface `ff::Field` that the crate is generic over: the operations that the modelled code
-- calls, with the laws that the `ff` crate documents. The crate itself is not part of the
-- repository, so it is a parameter here.
pub mod Laws
pub mod Five
use halo2_gpu.Common.{◌≡◌, ◌≢◌, ◌↔◌, Bool, true, Option, none, some}

pub record Field {ℓ} (F : Type ℓ) : Type ℓ where
  pub zero : F
  pub one : F
  pub add : F → F → F
  pub sub : F → F → F
  pub mul : F → F → F
  pub neg : F → F
  pub double : F → F
  pub square : F → F
  pub invert : F → Option F
  pub beq : F → F → Bool
  pub beq_iff : (a b : F) → (beq a b ≡ true) ↔ (a ≡ b)
  pub one≢zero : one ≢ zero
  pub add_assoc : (a b c : F) → add (add a b) c ≡ add a (add b c)
  pub add_comm : (a b : F) → add a b ≡ add b a
  pub add-zero : (a : F) → add a zero ≡ a
  pub add-neg : (a : F) → add a (neg a) ≡ zero
  pub sub-eq : (a b : F) → sub a b ≡ add a (neg b)
  pub mul_assoc : (a b c : F) → mul (mul a b) c ≡ mul a (mul b c)
  pub mul_comm : (a b : F) → mul a b ≡ mul b a
  pub mul-one : (a : F) → mul a one ≡ a
  pub mul-add : (a b c : F) → mul a (add b c) ≡ add (mul a b) (mul a c)
  pub double-eq : (a : F) → double a ≡ add a a
  pub square-eq : (a : F) → square a ≡ mul a a
  pub invert_some : (a b : F) → invert a ≡ some b → mul a b ≡ one
  pub invert_none : (a : F) → invert a ≡ none → a ≡ zero

-- The operators of `F`, and `is_zero_vartime`.
module _ {ℓ} {F : Type ℓ} ⦃f : Field F⦄ where
  infixl 65 ◌⊕◌ ◌⊖◌
  infixl 70 ◌⊗◌
  infix 50 ◌=?◌
  abbrev pub ◌⊕◌ : F → F → F
  a ⊕ b = f.add a b

  abbrev pub ◌⊖◌ : F → F → F
  a ⊖ b = f.sub a b

  abbrev pub ◌⊗◌ : F → F → F
  a ⊗ b = f.mul a b

  abbrev pub ◌=?◌ : F → F → Bool
  a =? b = f.beq a b

  abbrev pub is_zero_vartime : F → Bool
  is_zero_vartime a = f.beq a f.zero
