-- ===== src/Permutation/Copy.antt =====
-- halo2_proofs/src/plonk/permutation/keygen.rs: the invariant of `Assembly`, and that `copy` keeps
-- it and connects the two cells.
pub mod Inside
pub mod Join
pub mod Connect
use halo2_gpu.Common.{ℕ, ◌≡◌, List, length}
use halo2_gpu.Common.Grid.{Cell, cell_eq, Grid, look, IsRect}
use halo2_gpu.Permutation.{Assembly}
use halo2_gpu.Permutation.Merge.{AreCycles}
use halo2_gpu.Permutation.Relabel.{image}

-- The size kept for a cell; it is one out of range.
abbrev pub size_of : Grid ℕ → Cell → ℕ
size_of g x = look 1 g x

-- `m` columns of `n` rows, in which the mapping is a permutation, `aux` holds the distinguished
-- cell of each cycle and `sizes` the cycle's length at that cell.
pub record IsAssembly {ℓ} {C : Type ℓ} (m n : ℕ) (a : Assembly C) : Type 0 where
  pub columns_length : length a.columns ≡ m
  pub mapping_rect : IsRect m n a.mapping
  pub aux_rect : IsRect m n a.aux
  pub sizes_rect : IsRect m n a.sizes
  pub cycles : AreCycles (image a.mapping) (image a.aux) (size_of a.sizes)

-- The distinguished cell of a cell's cycle.
abbrev pub class_of {ℓ} : {C : Type ℓ} → Assembly C → Cell → Cell
class_of a = image a.aux
