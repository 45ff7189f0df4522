-- ===== src/Permutation.antt =====
-- halo2_proofs/src/plonk/permutation/keygen.rs: `Assembly`, the copy constraints of a circuit kept
-- as a permutation of the cells. The columns are those of the argument of the crate halo2-axiom,
-- a list of a type with equality. `stuck` is an index out of range, or a loop that is still
-- running after as many rounds as there are cells.
pub mod Cycles
pub mod Merge
pub mod Relabel
pub mod Copy
pub mod Fresh
pub mod Linked
pub mod Argument
mod Examples
use halo2_gpu.Common.{
  ℕ, zero, suc, ◌+◌, Bool, true, false, ◌||◌, Option, none, some, List, [], ◌∷◌, length, ltb, leb,
  if◌then◌else◌, ◌>>=◌, get_elem?,
}
use halo2_gpu.Common.Count.{Eq, ◌≟◌, position}
use halo2_gpu.Common.Grid.{Cell, cell_eq, Grid, index, store}

pub record Assembly {ℓ} (C : Type ℓ) : Type ℓ where
  pub columns : List C
  pub mapping : Grid Cell
  pub aux : Grid Cell
  pub sizes : Grid ℕ

pub data PermutationError {ℓ} (C : Type ℓ) : Type ℓ where
  column_not_in_permutation : C → PermutationError C
  bounds_failure : PermutationError C

pub data Outcome {ℓ} (C : Type ℓ) : Type ℓ where
  ok : Assembly C → Outcome C
  err : PermutationError C → Outcome C
  stuck : Outcome C

-- [(i, j), (i, j + 1), …], `n` cells
abbrev pub cells_from : ℕ → ℕ → ℕ → List Cell
cells_from i j zero = []
cells_from i j (suc n) = (i, j) ∷ cells_from i (j + 1) n

abbrev pub columns_from : ℕ → ℕ → ℕ → Grid Cell
columns_from n i zero = []
columns_from n i (suc m) = cells_from i 0 n ∷ columns_from n (i + 1) m

abbrev pub replicate {ℓ} : {A : Type ℓ} → ℕ → A → List A
replicate zero a = []
replicate (suc n) a = a ∷ replicate n a

-- The number of cells.
abbrev pub cell_count {ℓ} : {A : Type ℓ} → Grid A → ℕ
cell_count [] = 0
cell_count (c ∷ cs) = length c + cell_count cs

-- The loop that sets `aux` to `keep` along the cycle of `drop`, from the cell `i`.
unfoldable pub relabel : ℕ → Grid Cell → Cell → Cell → Cell → Grid Cell → Option (Grid Cell)
relabel zero mapping keep drop i aux = none
relabel (suc fuel) mapping keep drop i aux = do
  aux' ← store aux i keep
  next ← index mapping i
  let rest = relabel fuel mapping keep drop next aux'
  if next ≟ drop then some aux' else rest

-- A row out of the column's range.
abbrev is_beyond : Grid Cell → ℕ → ℕ → Option Bool
is_beyond mapping i row = do column ← get_elem? mapping i; some (leb (length column) row)

module _ {ℓ} {C : Type ℓ} where
  unfoldable pub new : ℕ → List C → Assembly C
  new n columns =
      let mapping = columns_from n 0 (length columns) in
      record {
        columns = columns;
        mapping = mapping;
        aux = mapping;
        sizes = replicate (length columns) (replicate n 1);
      }

  -- Merge the cycle of `drop` into that of `keep`, then swap the images of the two cells.
  unfoldable pub join : Assembly C → Cell → Cell → Cell → Cell → Option (Assembly C)
  join a left right keep drop = do
    kept ← index a.sizes keep
    dropped ← index a.sizes drop
    sizes ← store a.sizes keep (kept + dropped)
    aux ← relabel (cell_count a.mapping) a.mapping keep drop drop a.aux
    tmp ← index a.mapping left
    image ← index a.mapping right
    once ← store a.mapping left image
    twice ← store once right tmp
    some (record a { mapping = twice; aux = aux; sizes = sizes })

  -- The larger cycle is kept.
  unfoldable pub balance : Assembly C → Cell → Cell → Cell → Cell → Option (Assembly C)
  balance a left right left_cycle right_cycle = do
    left_size ← index a.sizes left_cycle
    right_size ← index a.sizes right_cycle
    let merged = join a left right left_cycle right_cycle
    let swapped = join a left right right_cycle left_cycle
    if ltb left_size right_size then swapped else merged

  -- `copy` after its checks.
  unfoldable pub connect : Assembly C → Cell → Cell → Option (Assembly C)
  connect a left right = do
    left_cycle ← index a.aux left
    right_cycle ← index a.aux right
    let unequal = balance a left right left_cycle right_cycle
    if left_cycle ≟ right_cycle then some a else unequal

  abbrev or_stuck : Option (Assembly C) → Outcome C
  or_stuck none = stuck
  or_stuck (some a) = ok a

  -- `ok_or(error)?`
  abbrev ok_or {κ} : {A : Type κ} → Option A → PermutationError C → (A → Outcome C) → Outcome C
  ok_or none error next = err error
  ok_or (some a) error next = next a

  abbrev bounds_check : Option Bool → Outcome C → Outcome C
  bounds_check none next = stuck
  bounds_check (some true) next = err bounds_failure
  bounds_check (some false) next = next

  unfoldable pub copy : ⦃e : Eq C⦄ → Assembly C → C → ℕ → C → ℕ → Outcome C
  copy a left_column left_row right_column right_row =
      ok_or (position a.columns left_column) (column_not_in_permutation left_column) (λ i.
        ok_or (position a.columns right_column) (column_not_in_permutation right_column) (λ j.
          bounds_check (is_beyond a.mapping i left_row) (
            bounds_check (is_beyond a.mapping j right_row)
              (or_stuck (connect a (i, left_row) (j, right_row))))))
