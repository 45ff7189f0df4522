-- ===== src/Circuit/Column/Equal.antt =====
-- halo2_proofs/src/plonk/circuit.rs: the derived `PartialEq` of rotations, column types, columns
-- and pairs of these.
use halo2_gpu.Common.{ℕ, ◌≡◌, ◌↔◌, refl, ap, ap₂, Bool, true, false, ◌&&◌, ◌==◌, ==_iff, arith}
use halo2_gpu.Common.Int.{ℤ, int_eq, int_eq_iff}
use halo2_gpu.Common.Count.{Eq}
use halo2_gpu.Circuit.Column.{
  GpuAny, any_advice, any_fixed, any_instance, GpuColumn, GpuAdvice, GpuFixed, GpuInstance,
  the_fixed, the_instance,
}

abbrev pub nat_beq : ℕ → ℕ → Bool
nat_beq a b = a == b

instance abbrev pub nat_eq : Eq ℕ
nat_eq = record { beq = nat_beq; beq_iff = ==_iff }

instance abbrev pub rotation_eq : Eq ℤ
rotation_eq = record { beq = int_eq; beq_iff = int_eq_iff }

module _ {ℓ κ} {A : Type ℓ} {B : Type κ} (d : Eq A) (e : Eq B) where
  abbrev pub pair_beq : A × B → A × B → Bool
  pair_beq x y = d.beq x.0 y.0 && e.beq x.1 y.1

  pub pair_beq_iff : (x y : A × B) → (pair_beq x y ≡ true) ↔ (x ≡ y)
  pair_beq_iff (a, b) (a', b') = (
    (λ h.
        ap₂ (λ s t. (s, t)) ((d.beq_iff a a').0 (ground arith))
          ((e.beq_iff b b').0 (ground arith))),
    λ h. ground (
      arith,
      (d.beq_iff a a').1 (ap (λ (z : A × B). z.0) h),
      (e.beq_iff b b').1 (ap (λ (z : A × B). z.1) h),
    ),
  )

instance abbrev pub pair_eq {ℓ κ} : {A : Type ℓ} {B : Type κ} ⦃d : Eq A⦄ ⦃e : Eq B⦄ → Eq (A × B)
pair_eq ⦃d = d⦄ ⦃e = e⦄ = record { beq = pair_beq d e; beq_iff = pair_beq_iff d e }

abbrev pub any_beq : GpuAny → GpuAny → Bool
any_beq (any_advice a) (any_advice b) = a.phase == b.phase
any_beq any_fixed any_fixed = true
any_beq any_instance any_instance = true
any_beq _ _ = false

pub any_beq_iff : (a b : GpuAny) → (any_beq a b ≡ true) ↔ (a ≡ b)
any_beq_iff a b = ground arith

pub advice_beq_iff : (a b : GpuAdvice) → ((a.phase == b.phase) ≡ true) ↔ (a ≡ b)
advice_beq_iff a b = ground arith

pub fixed_beq_iff : (a b : GpuFixed) → (true ≡ true) ↔ (a ≡ b)
fixed_beq_iff the_fixed the_fixed = ((λ _. refl), (λ _. refl))

pub instance_beq_iff : (a b : GpuInstance) → (true ≡ true) ↔ (a ≡ b)
instance_beq_iff the_instance the_instance = ((λ _. refl), (λ _. refl))

instance abbrev pub any_eq : Eq GpuAny
any_eq = record { beq = any_beq; beq_iff = any_beq_iff }

instance abbrev pub advice_eq : Eq GpuAdvice
advice_eq = record { beq = λ a b. a.phase == b.phase; beq_iff = advice_beq_iff }

instance abbrev pub fixed_eq : Eq GpuFixed
fixed_eq = record { beq = λ a b. true; beq_iff = fixed_beq_iff }

instance abbrev pub instance_eq : Eq GpuInstance
instance_eq = record { beq = λ a b. true; beq_iff = instance_beq_iff }

module _ {ℓ} {C : Type ℓ} (e : Eq C) where
  abbrev pub column_beq : GpuColumn C → GpuColumn C → Bool
  column_beq a b = a.index == b.index && e.beq a.column_type b.column_type

  pub column_beq_iff : (a b : GpuColumn C) → (column_beq a b ≡ true) ↔ (a ≡ b)
  column_beq_iff a b = (
    (λ h.
        ap₂ (λ i t. record { index = i; column_type = t }) (ground arith)
          ((e.beq_iff a.column_type b.column_type).0 (ground arith))),
    λ h. ground (
      arith,
      ap (λ (c : GpuColumn C). c.index) h,
      (e.beq_iff a.column_type b.column_type).1 (ap (λ (c : GpuColumn C). c.column_type) h),
    ),
  )

instance abbrev pub column_eq {ℓ} : {C : Type ℓ} ⦃e : Eq C⦄ → Eq (GpuColumn C)
column_eq ⦃e = e⦄ = record { beq = column_beq e; beq_iff = column_beq_iff e }
