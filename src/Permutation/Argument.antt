-- ===== src/Permutation/Argument.antt =====
-- halo2_proofs/src/plonk/permutation.rs: the columns of the permutation argument.
use halo2_gpu.Common.{ℕ, List, [], ◌∷◌, ◌++◌, if◌then◌else◌}
use halo2_gpu.Common.Count.{contains}
use halo2_gpu.Circuit.Column.{GpuColumn, GpuAny}
use halo2_gpu.Circuit.Column.Equal.{any_eq, column_eq}

pub record Argument : Type 0 where
  pub columns : List (GpuColumn GpuAny)

abbrev pub new : Argument
new = record { columns = [] }

abbrev pub required_degree : ℕ
required_degree = 3

unfoldable pub add_column : Argument → GpuColumn GpuAny → Argument
add_column p column =
    if contains p.columns column then p else record { columns = p.columns ++ column ∷ [] }
