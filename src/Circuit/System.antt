-- ===== src/Circuit/System.antt =====
-- halo2_proofs/src/plonk/circuit.rs: `GpuConstraintSystem<F>`, the description of a circuit that a
-- configuration builds. Names and annotations, which nothing reads, are left out. None stands for
-- a panic.
pub mod Queries
pub mod Cells
pub mod Configure
pub mod Allocate
pub mod Rows
pub mod Indexed
pub mod Counted
pub mod Register
pub mod Resolve
pub mod Valid
pub mod Methods
pub mod Gates
pub mod Kept
pub mod Equality
pub mod Allocated
pub mod Reached
pub mod Phases
pub mod Backfill
pub mod Budget
pub mod Compress
pub mod Place
pub mod Recorded
pub mod Replaced
pub mod Described
pub mod Compressed
pub mod Substituted
pub mod Converted
mod Examples
use halo2_gpu.Common.{ℕ, Option, none, List, []}
use halo2_gpu.Circuit.{Rotation, Phase, GpuSelector}
use halo2_gpu.Circuit.Expression.{GpuExpression}
use halo2_gpu.Circuit.Column.{GpuColumn, GpuAny, GpuAdvice, GpuFixed, GpuInstance}
use halo2_gpu.Lookup.{Argument as LookupArgument}
use halo2_gpu.Permutation.Argument.{Argument as PermutationArgument, new as no_columns}

pub record GpuVirtualCell : Type 0 where
  pub column : GpuColumn GpuAny
  pub rotation : Rotation

pub record GpuGate {ℓ} (F : Type ℓ) : Type ℓ where
  pub polys : List (GpuExpression F)
  pub queried_selectors : List GpuSelector
  pub queried_cells : List GpuVirtualCell

-- A query in one of the lists of the constraint system.
abbrev pub Query {ℓ} : Type ℓ → Type ℓ
Query C = GpuColumn C × Rotation

pub record GpuConstraintSystem {ℓ} (F : Type ℓ) : Type ℓ where
  pub num_fixed_columns : ℕ
  pub num_advice_columns : ℕ
  pub num_instance_columns : ℕ
  pub num_selectors : ℕ
  pub num_challenges : ℕ
  pub advice_column_phase : List Phase
  pub challenge_phase : List Phase
  pub selector_map : List (GpuColumn GpuFixed)
  pub gates : List (GpuGate F)
  pub advice_queries : List (Query GpuAdvice)
  pub num_advice_queries : List ℕ
  pub instance_queries : List (Query GpuInstance)
  pub fixed_queries : List (Query GpuFixed)
  pub permutation : PermutationArgument
  pub lookups : List (LookupArgument F)
  pub constants : List (GpuColumn GpuFixed)
  pub minimum_degree : Option ℕ

-- `Default`
unfoldable pub default {ℓ} : {F : Type ℓ} → GpuConstraintSystem F
default = record {
  num_fixed_columns = 0;
  num_advice_columns = 0;
  num_instance_columns = 0;
  num_selectors = 0;
  num_challenges = 0;
  advice_column_phase = [];
  challenge_phase = [];
  selector_map = [];
  gates = [];
  advice_queries = [];
  num_advice_queries = [];
  instance_queries = [];
  fixed_queries = [];
  permutation = no_columns;
  lookups = [];
  constants = [];
  minimum_degree = none;
}
