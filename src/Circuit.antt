-- ===== src/Circuit.antt =====
-- halo2_proofs/src/plonk/circuit.rs: columns, selectors, queries and expressions.
pub mod Expression
pub mod CompressSelectors
pub mod Column
pub mod System
use halo2_gpu.Common.{ℕ, ◌≡◌, ◌↔◌, Bool, true, Option, ◌&&◌, ◌==◌, arith}
use halo2_gpu.Common.Int.{ℤ}

-- `poly::Rotation` holds an `i32`.
abbrev pub Rotation : Type 0
Rotation = ℤ

-- `sealed::Phase`
abbrev pub Phase : Type 0
Phase = ℕ

-- `GpuSelector(index, simple)`
pub record GpuSelector : Type 0 where
  pub index : ℕ
  pub is_simple : Bool

pub record GpuFixedQuery : Type 0 where
  pub index : Option ℕ
  pub column_index : ℕ
  pub rotation : Rotation

pub record GpuAdviceQuery : Type 0 where
  pub index : Option ℕ
  pub column_index : ℕ
  pub rotation : Rotation
  pub phase : Phase

pub record GpuInstanceQuery : Type 0 where
  pub index : Option ℕ
  pub column_index : ℕ
  pub rotation : Rotation

pub record GpuChallenge : Type 0 where
  pub index : ℕ
  pub phase : Phase
