-- ===== src/Assigned.antt =====
-- halo2_proofs/src/plonk/assigned.rs: `GpuAssigned<F>`, a cell's value kept as a fraction so that
-- inversions can be batched. Each operator is modelled once; its forms on references and its
-- `AddAssign`, `SubAssign` and `MulAssign` forms have the same result. The arms of a `match` are
-- the clauses, in order: where an or-pattern has a guard, Rust tries the guard on each
-- alternative. The checks of the byte layout are not modelled.
pub mod Value
pub mod Equality
mod Examples
use halo2_gpu.Common.{if◌then◌else◌, Bool, true, ◌||◌, Option, none, some}
use halo2_gpu.Field.{Field, ◌⊕◌, ◌⊗◌, ◌=?◌, is_zero_vartime}
use halo2_gpu.Field.Laws.{unwrap_or}

pub data GpuAssigned {ℓ} (F : Type ℓ) : Type ℓ where
  zero : GpuAssigned F
  trivial : F → GpuAssigned F
  rational : F → F → GpuAssigned F

module _ {ℓ} {F : Type ℓ} ⦃f : Field F⦄ where
  -- `GpuAssigned::is_zero_vartime`: x/0 is zero.
  abbrev pub is_zero : GpuAssigned F → Bool
  is_zero zero = true
  is_zero (trivial x) = is_zero_vartime x
  is_zero (rational n d) = is_zero_vartime n || is_zero_vartime d

  -- `PartialEq::eq`
  unfoldable pub eq : GpuAssigned F → GpuAssigned F → Bool
  eq zero zero = true
  eq zero x = is_zero x
  eq x zero = is_zero x
  eq (trivial x) (trivial y) = x =? y
  eq (rational n d) (trivial x) = if is_zero_vartime d then is_zero (trivial x) else x ⊗ d =? n
  eq (trivial x) (rational n d) = if is_zero_vartime d then is_zero (trivial x) else x ⊗ d =? n
  eq (rational n d) (rational n' d') =
      if is_zero_vartime d
      then is_zero (rational n' d')
      else if is_zero_vartime d'
      then is_zero (rational n d)
      else n ⊗ d' =? d ⊗ n'

  unfoldable pub neg : GpuAssigned F → GpuAssigned F
  neg zero = zero
  neg (trivial x) = trivial (f.neg x)
  neg (rational n d) = rational (f.neg n) d

  unfoldable pub add : GpuAssigned F → GpuAssigned F → GpuAssigned F
  add zero y = y
  add x zero = x
  add (trivial x) (trivial y) = trivial (x ⊕ y)
  add (rational n d) (trivial y) = if is_zero_vartime d then trivial y else rational (n ⊕ d ⊗ y) d
  add (trivial x) (rational n d) = if is_zero_vartime d then trivial x else rational (n ⊕ d ⊗ x) d
  add (rational n d) (rational n' d') =
      if is_zero_vartime d
      then rational n' d'
      else if is_zero_vartime d'
      then rational n d
      else rational (n ⊗ d' ⊕ d ⊗ n') (d ⊗ d')

  -- `Add<F>`
  unfoldable pub add_field : GpuAssigned F → F → GpuAssigned F
  add_field x r = add x (trivial r)

  unfoldable pub sub : GpuAssigned F → GpuAssigned F → GpuAssigned F
  sub x y = add x (neg y)

  -- `Sub<F>`
  unfoldable pub sub_field : GpuAssigned F → F → GpuAssigned F
  sub_field x r = add_field x (f.neg r)

  unfoldable pub mul : GpuAssigned F → GpuAssigned F → GpuAssigned F
  mul zero y = zero
  mul x zero = zero
  mul (trivial x) (trivial y) = trivial (x ⊗ y)
  mul (rational n d) (trivial y) = rational (n ⊗ y) d
  mul (trivial x) (rational n d) = rational (n ⊗ x) d
  mul (rational n d) (rational n' d') = rational (n ⊗ n') (d ⊗ d')

  -- `Mul<F>`
  unfoldable pub mul_field : GpuAssigned F → F → GpuAssigned F
  mul_field x r = mul x (trivial r)

  unfoldable pub numerator : GpuAssigned F → F
  numerator zero = f.zero
  numerator (trivial x) = x
  numerator (rational n d) = n

  unfoldable pub denominator : GpuAssigned F → Option F
  denominator zero = none
  denominator (trivial x) = none
  denominator (rational n d) = some d

  unfoldable pub double : GpuAssigned F → GpuAssigned F
  double zero = zero
  double (trivial x) = trivial (f.double x)
  double (rational n d) = rational (f.double n) d

  unfoldable pub square : GpuAssigned F → GpuAssigned F
  square zero = zero
  square (trivial x) = trivial (f.square x)
  square (rational n d) = rational (f.square n) (f.square d)

  unfoldable pub cube : GpuAssigned F → GpuAssigned F
  cube x = mul (square x) x

  unfoldable pub invert : GpuAssigned F → GpuAssigned F
  invert zero = zero
  invert (trivial x) = rational f.one x
  invert (rational n d) = rational d n

  -- `GpuAssigned::evaluate`, with one inversion where the denominator is not one.
  unfoldable pub evaluate : GpuAssigned F → F
  evaluate zero = f.zero
  evaluate (trivial x) = x
  evaluate (rational n d) = if d =? f.one then n else n ⊗ unwrap_or (f.invert d) f.zero
