-- ===== src/Circuit/System/Configure.antt =====
-- halo2_proofs/src/plonk/circuit.rs: gates, lookups, equality and constants. The closure of a gate
-- or a lookup is the circuit's own code, a function on the virtual cells.
use halo2_gpu.Common.{ℕ, Option, none, some, List, [], ◌∷◌, ◌++◌, length, ◌>>=◌, if◌then◌else◌}
use halo2_gpu.Common.Int.{pos}
use halo2_gpu.Common.Count.{contains}
use halo2_gpu.Circuit.{Rotation}
use halo2_gpu.Circuit.Expression.{GpuExpression, contains_simple_selector}
use halo2_gpu.Circuit.Column.{GpuColumn, GpuAny, GpuFixed, from_column, from_fixed}
use halo2_gpu.Circuit.Column.Equal.{fixed_eq, column_eq}
use halo2_gpu.Circuit.System.{GpuConstraintSystem}
use halo2_gpu.Circuit.System.Queries.{query_any_index}
use halo2_gpu.Circuit.System.Cells.{GpuVirtualCells, new as new_cells, query_cells, query_fixed}
use halo2_gpu.Lookup.{new as new_lookup}
use halo2_gpu.Permutation.Argument.{add_column}

pub record GpuTableColumn : Type 0 where
  pub inner : GpuColumn GpuFixed

-- `Rotation::cur()`
abbrev pub cur : Rotation
cur = pos 0

abbrev pub Closure {ℓ κ} : Type ℓ → Type κ → Type (ℓ ⊔ κ)
Closure F A = GpuVirtualCells F → Option (List A × GpuVirtualCells F)

abbrev pub Pairs {ℓ} : Type ℓ → Type ℓ
Pairs F = List (GpuExpression F × GpuExpression F)

module _ {ℓ} {F : Type ℓ} where
  -- `enable_equality`, on the column as one of any type
  unfoldable pub enable_equality :
      GpuConstraintSystem F → GpuColumn GpuAny → Option (GpuConstraintSystem F)
  enable_equality s column = do
    r ← query_any_index s column cur
    some (record r.1 { permutation = add_column (r.1).permutation column })

  unfoldable pub enable_constant :
      GpuConstraintSystem F → GpuColumn GpuFixed → Option (GpuConstraintSystem F)
  enable_constant s column =
      if contains s.constants column
      then some s
      else enable_equality (record s { constants = s.constants ++ column ∷ [] })
          (from_column from_fixed column)

  -- `query_cells` on the polynomials that a gate's closure returns, in order.
  unfoldable pub query_polys :
      List (GpuExpression F)
      → GpuVirtualCells F
      → Option (List (GpuExpression F) × GpuVirtualCells F)
  query_polys [] cells = some ([], cells)
  query_polys (e ∷ es) cells = do
    x ← query_cells e cells
    rest ← query_polys es x.1
    some (x.0 ∷ rest.0, rest.1)

  abbrev pub push_gate : List (GpuExpression F) → GpuVirtualCells F → Option (GpuConstraintSystem F)
  push_gate [] cells = none
  push_gate (e ∷ es) cells = some (record cells.meta {
    gates =
        (cells.meta).gates
        ++ record {
          polys = e ∷ es;
          queried_selectors = cells.queried_selectors;
          queried_cells = cells.queried_cells;
        }
          ∷ [];
  })

  unfoldable pub create_gate :
      GpuConstraintSystem F → Closure F (GpuExpression F) → Option (GpuConstraintSystem F)
  create_gate s constraints = do
    c ← constraints (new_cells s)
    polys ← query_polys c.0 c.1
    push_gate polys.0 polys.1

  unfoldable pub query_pairs : Pairs F → GpuVirtualCells F → Option (Pairs F × GpuVirtualCells F)
  query_pairs [] cells = some ([], cells)
  query_pairs ((input, table) ∷ es) cells = do
    x ← query_cells input cells
    y ← query_cells table x.1
    rest ← query_pairs es y.1
    some ((x.0, y.0) ∷ rest.0, rest.1)

  -- A table's column is queried before its input is registered.
  unfoldable pub query_tables :
      List (GpuExpression F × GpuTableColumn)
      → GpuVirtualCells F
      → Option (Pairs F × GpuVirtualCells F)
  query_tables [] cells = some ([], cells)
  query_tables ((input, column) ∷ es) cells =
      let registered : Option (Pairs F × GpuVirtualCells F) = (do
        let table = query_fixed cells column.inner cur
        x ← query_cells input table.1
        y ← query_cells table.0 x.1
        rest ← query_tables es y.1
        some ((x.0, y.0) ∷ rest.0, rest.1)) in
      if contains_simple_selector input then none else registered

  -- The index of the new lookup, and the system with it.
  abbrev pub push_lookup : Pairs F × GpuVirtualCells F → ℕ × GpuConstraintSystem F
  push_lookup (pairs, cells) = (
    length (cells.meta).lookups,
    record cells.meta { lookups = (cells.meta).lookups ++ new_lookup pairs ∷ [] },
  )

  unfoldable pub lookup :
      GpuConstraintSystem F
      → Closure F (GpuExpression F × GpuTableColumn)
      → Option (ℕ × GpuConstraintSystem F)
  lookup s table_map = do
    c ← table_map (new_cells s)
    pairs ← query_tables c.0 c.1
    some (push_lookup pairs)

  unfoldable pub lookup_any :
      GpuConstraintSystem F
      → Closure F (GpuExpression F × GpuExpression F)
      → Option (ℕ × GpuConstraintSystem F)
  lookup_any s table_map = do
    c ← table_map (new_cells s)
    pairs ← query_pairs c.0 c.1
    some (push_lookup pairs)
