-- ===== src/Circuit/System/Cells.antt =====
-- halo2_proofs/src/plonk/circuit.rs: `GpuVirtualCells`, which a gate or a lookup queries, and
-- `query_cells`, which registers the queries of an expression.
use halo2_gpu.Common.{
  ℕ, ◌||◌, ◌&&◌, Bool, true, false, Option, none, some, List, [], ◌∷◌, ◌++◌, ◌>>=◌, ◌==◌,
}
use halo2_gpu.Circuit.{
  Rotation, GpuSelector, GpuFixedQuery, GpuAdviceQuery, GpuInstanceQuery, GpuChallenge,
}
use halo2_gpu.Circuit.Expression.{
  GpuExpression, constant, selector, fixed, advice, instance_query, challenge, negated, sum,
  product, scaled,
}
use halo2_gpu.Circuit.Column.{
  GpuColumn, GpuAny, any_advice, any_fixed, any_instance, GpuAdvice, GpuFixed, the_fixed,
  GpuInstance, the_instance, from_column, from_fixed, from_instance, try_advice, try_fixed,
  try_instance,
}
use halo2_gpu.Circuit.System.{GpuVirtualCell, GpuConstraintSystem}
use halo2_gpu.Circuit.System.Queries.{query_fixed_index, query_advice_index, query_instance_index}

pub record GpuVirtualCells {ℓ} (F : Type ℓ) : Type ℓ where
  pub meta : GpuConstraintSystem F
  pub queried_selectors : List GpuSelector
  pub queried_cells : List GpuVirtualCell

abbrev bool_eq : Bool → Bool → Bool
bool_eq true b = b
bool_eq false true = false
bool_eq false false = true

-- `contains` with the derived equality of selectors
abbrev pub contains_selector : List GpuSelector → GpuSelector → Bool
contains_selector [] s = false
contains_selector (t ∷ ts) s =
    (t.index == s.index && bool_eq t.is_simple s.is_simple) || contains_selector ts s

module _ {ℓ} {F : Type ℓ} where
  unfoldable pub new : GpuConstraintSystem F → GpuVirtualCells F
  new meta = record { meta = meta; queried_selectors = []; queried_cells = [] }

  abbrev pub push_cell : GpuVirtualCells F → GpuColumn GpuAny → Rotation → List GpuVirtualCell
  push_cell cells column at = cells.queried_cells ++ record { column = column; rotation = at } ∷ []

  -- A cell is recorded and its query registered.
  unfoldable pub register_fixed :
      GpuVirtualCells F → GpuColumn GpuFixed → Rotation → ℕ × GpuVirtualCells F
  register_fixed cells column at =
      let r = query_fixed_index cells.meta column at in
      (
        r.0,
        record cells {
          meta = r.1;
          queried_cells = push_cell cells (from_column from_fixed column) at;
        },
      )

  unfoldable pub register_advice :
      GpuVirtualCells F → GpuColumn GpuAdvice → Rotation → Option (ℕ × GpuVirtualCells F)
  register_advice cells column at = do
    r ← query_advice_index cells.meta column at
    some (
      r.0,
      record cells {
        meta = r.1;
        queried_cells = push_cell cells (from_column any_advice column) at;
      },
    )

  unfoldable pub register_instance :
      GpuVirtualCells F → GpuColumn GpuInstance → Rotation → ℕ × GpuVirtualCells F
  register_instance cells column at =
      let r = query_instance_index cells.meta column at in
      (
        r.0,
        record cells {
          meta = r.1;
          queried_cells = push_cell cells (from_column from_instance column) at;
        },
      )

  unfoldable pub query_selector :
      GpuVirtualCells F → GpuSelector → GpuExpression F × GpuVirtualCells F
  query_selector cells s =
      (selector s, record cells { queried_selectors = cells.queried_selectors ++ s ∷ [] })

  unfoldable pub query_fixed :
      GpuVirtualCells F → GpuColumn GpuFixed → Rotation → GpuExpression F × GpuVirtualCells F
  query_fixed cells column at =
      let r = register_fixed cells column at in
      (fixed (record { index = some r.0; column_index = column.index; rotation = at }), r.1)

  unfoldable pub query_advice :
      GpuVirtualCells F
      → GpuColumn GpuAdvice
      → Rotation
      → Option (GpuExpression F × GpuVirtualCells F)
  query_advice cells column at = do
    r ← register_advice cells column at
    some (
      advice (record {
        index = some r.0;
        column_index = column.index;
        rotation = at;
        phase = column.column_type.phase;
      }),
      r.1,
    )

  unfoldable pub query_instance :
      GpuVirtualCells F → GpuColumn GpuInstance → Rotation → GpuExpression F × GpuVirtualCells F
  query_instance cells column at =
      let r = register_instance cells column at in
      (
        instance_query (record { index = some r.0; column_index = column.index; rotation = at }),
        r.1,
      )

  abbrev query_as :
      GpuAny
      → GpuVirtualCells F
      → GpuColumn GpuAny
      → Rotation
      → Option (GpuExpression F × GpuVirtualCells F)
  query_as (any_advice _) cells column at = try_advice column >>= λ c. query_advice cells c at
  query_as any_fixed cells column at = try_fixed column >>= λ c. some (query_fixed cells c at)
  query_as any_instance cells column at =
      try_instance column >>= λ c. some (query_instance cells c at)

  unfoldable pub query_any :
      GpuVirtualCells F → GpuColumn GpuAny → Rotation → Option (GpuExpression F × GpuVirtualCells F)
  query_any cells column at = query_as column.column_type cells column at

  abbrev pub query_challenge :
      GpuVirtualCells F → GpuChallenge → GpuExpression F × GpuVirtualCells F
  query_challenge cells c = (challenge c, cells)

  -- A query without an index is registered.
  abbrev pub cells_of_fixed :
      Option ℕ → GpuFixedQuery → GpuVirtualCells F → GpuExpression F × GpuVirtualCells F
  cells_of_fixed (some _) q cells = (fixed q, cells)
  cells_of_fixed none q cells =
      let column : GpuColumn GpuFixed = record {
        index = q.column_index;
        column_type = the_fixed;
      } in
      let r = register_fixed cells column q.rotation in (fixed (record q { index = some r.0 }), r.1)

  abbrev pub cells_of_advice :
      Option ℕ → GpuAdviceQuery → GpuVirtualCells F → Option (GpuExpression F × GpuVirtualCells F)
  cells_of_advice (some _) q cells = some (advice q, cells)
  cells_of_advice none q cells = do
    r ←
        register_advice cells
          (record { index = q.column_index; column_type = record { phase = q.phase } }) q.rotation
    some (advice (record q { index = some r.0 }), r.1)

  abbrev pub cells_of_instance :
      Option ℕ → GpuInstanceQuery → GpuVirtualCells F → GpuExpression F × GpuVirtualCells F
  cells_of_instance (some _) q cells = (instance_query q, cells)
  cells_of_instance none q cells =
      let column : GpuColumn GpuInstance = record {
        index = q.column_index;
        column_type = the_instance;
      } in
      let r = register_instance cells column q.rotation in
      (instance_query (record q { index = some r.0 }), r.1)

  abbrev pub cells_of_selector : Bool → GpuSelector → GpuVirtualCells F → GpuVirtualCells F
  cells_of_selector true s cells = cells
  cells_of_selector false s cells = record cells {
    queried_selectors = cells.queried_selectors ++ s ∷ [];
  }

  -- `GpuExpression::query_cells`
  unfoldable pub query_cells :
      GpuExpression F → GpuVirtualCells F → Option (GpuExpression F × GpuVirtualCells F)
  query_cells (constant k) cells = some (constant k, cells)
  query_cells (selector s) cells =
      some (selector s, cells_of_selector (contains_selector cells.queried_selectors s) s cells)
  query_cells (fixed q) cells = some (cells_of_fixed q.index q cells)
  query_cells (advice q) cells = cells_of_advice q.index q cells
  query_cells (instance_query q) cells = some (cells_of_instance q.index q cells)
  query_cells (challenge c) cells = some (challenge c, cells)
  query_cells (negated a) cells = do x ← query_cells a cells; some (negated x.0, x.1)
  query_cells (sum a b) cells = do
    x ← query_cells a cells
    y ← query_cells b x.1
    some (sum x.0 y.0, y.1)
  query_cells (product a b) cells = do
    x ← query_cells a cells
    y ← query_cells b x.1
    some (product x.0 y.0, y.1)
  query_cells (scaled a k) cells = do x ← query_cells a cells; some (scaled x.0 k, x.1)
