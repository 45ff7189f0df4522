-- ===== src/Circuit/System/Compress.antt =====
-- halo2_proofs/src/plonk/circuit.rs: `compress_selectors`, `directly_convert_selectors_to_fixed` and
-- `replace_selectors_with_fixed`, which give a configured constraint system its fixed columns for
-- the selectors.
use halo2_gpu.Common.{
  ℕ, zero, suc, ◌+◌, max, Bool, true, false, ◌==◌, Option, none, some, List, [], ◌∷◌, ◌++◌, length,
  map, get_elem?, ltb, ◌>>=◌, if◌then◌else◌,
}
use halo2_gpu.Common.Grid.{set}
use halo2_gpu.Field.{Field}
use halo2_gpu.Circuit.{GpuSelector}
use halo2_gpu.Circuit.Expression.{GpuExpression, fixed, degree as expression_degree}
use halo2_gpu.Circuit.Expression.Selectors.{extract_simple_selector}
use halo2_gpu.Circuit.Expression.Replace.{replace_selectors}
use halo2_gpu.Circuit.CompressSelectors.{
  SelectorDescription, SelectorAssignment, process, indicator,
}
use halo2_gpu.Circuit.Column.{GpuColumn, GpuFixed}
use halo2_gpu.Circuit.System.{GpuConstraintSystem, GpuGate}
use halo2_gpu.Circuit.System.Queries.{query_fixed_index}
use halo2_gpu.Circuit.System.Configure.{cur}
use halo2_gpu.Circuit.System.Allocate.{fixed_column}
use halo2_gpu.Circuit.System.Rows.{Variable, degree}
use halo2_gpu.Lookup.{Argument}

-- `degrees[i] = max(degrees[i], d)`
abbrev pub raise : List ℕ → ℕ → ℕ → Option (List ℕ)
raise [] i d = none
raise (n ∷ ns) zero d = some (max n d ∷ ns)
raise (n ∷ ns) (suc i) d = raise ns i d >>= λ ms. some (n ∷ ms)

abbrev pub raise_found : Option GpuSelector → ℕ → List ℕ → Option (List ℕ)
raise_found none d degrees = some degrees
raise_found (some s) d degrees = raise degrees s.index d

module _ {ℓ} {F : Type ℓ} where
  -- The loops of `replace_selectors_with_fixed`.
  abbrev pub replace_all :
      List (GpuExpression F) → Bool → List (GpuExpression F) → Option (List (GpuExpression F))
  replace_all reps must [] = some []
  replace_all reps must (e ∷ es) = do
    x ← replace_selectors reps must e
    xs ← replace_all reps must es
    some (x ∷ xs)

  abbrev pub replace_gates : List (GpuExpression F) → List (GpuGate F) → Option (List (GpuGate F))
  replace_gates reps [] = some []
  replace_gates reps (g ∷ gs) = do
    polys ← replace_all reps false g.polys
    rest ← replace_gates reps gs
    some (record g { polys = polys } ∷ rest)

  abbrev pub replace_lookups :
      List (GpuExpression F) → List (Argument F) → Option (List (Argument F))
  replace_lookups reps [] = some []
  replace_lookups reps (l ∷ ls) = do
    inputs ← replace_all reps true l.input_expressions
    tables ← replace_all reps true l.table_expressions
    rest ← replace_lookups reps ls
    some (record { input_expressions = inputs; table_expressions = tables } ∷ rest)

  unfoldable pub replace_selectors_with_fixed :
      List (GpuExpression F) → GpuConstraintSystem F → Option (GpuConstraintSystem F)
  replace_selectors_with_fixed reps s = do
    gates ← replace_gates reps s.gates
    lookups ← replace_lookups reps s.lookups
    some (record s { gates = gates; lookups = lookups })

  -- A call of the closure that `process` gets: a new column, and its query at the current row.
  unfoldable pub allocate :
      GpuConstraintSystem F → GpuColumn GpuFixed × GpuExpression F × GpuConstraintSystem F
  allocate s =
      let c = fixed_column s in
      let r = query_fixed_index c.1 c.0 cur in
      (c.0, fixed (record { index = some r.0; column_index = c.0.index; rotation = cur }), r.1)

  -- The system after `n` calls.
  abbrev pub allocated : ℕ → GpuConstraintSystem F → GpuConstraintSystem F
  allocated zero s = s
  allocated (suc n) s = allocated n (allocate s).2

  -- What the call after `n` calls returns.
  abbrev pub allocation : GpuConstraintSystem F → ℕ → GpuExpression F
  allocation s n = (allocate (allocated n s)).1

  -- The columns of the first `n` calls.
  abbrev pub new_columns : ℕ → GpuConstraintSystem F → List (GpuColumn GpuFixed)
  new_columns zero s = []
  new_columns (suc n) s = (allocate s).0 ∷ new_columns n (allocate s).2

  -- What the first `n` calls return.
  abbrev pub allocations : ℕ → GpuConstraintSystem F → List (GpuExpression F)
  allocations zero s = []
  allocations (suc n) s = (allocate s).1 ∷ allocations n (allocate s).2

  abbrev pub selector_degrees : List (GpuExpression F) → List ℕ → Option (List ℕ)
  selector_degrees [] degrees = some degrees
  selector_degrees (e ∷ es) degrees = do
    found ← extract_simple_selector e
    raised ← raise_found found (expression_degree e) degrees
    selector_degrees es raised

  abbrev pub all_polys : List (GpuGate F) → List (GpuExpression F)
  all_polys [] = []
  all_polys (g ∷ gs) = g.polys ++ all_polys gs

-- `vec![0; n]`
abbrev pub no_degrees {ℓ} : {A : Type ℓ} → List A → List ℕ
no_degrees [] = []
no_degrees (x ∷ xs) = 0 ∷ no_degrees xs

-- The descriptions of the selectors, from the index of the first.
abbrev pub describe : ℕ → List (List Bool) → List ℕ → List SelectorDescription
describe i (a ∷ later) (d ∷ ds) =
    record { selector = i; activations = a; max_degree = d } ∷ describe (i + 1) later ds
describe i _ _ = []

-- `vec[i] = Some(x)`
abbrev pub put {ℓ} : {A : Type ℓ} → List (Option A) → ℕ → A → Option (List (Option A))
put xs i x = if ltb i (length xs) then some (set xs i (some x)) else none

-- `map(|a| a.unwrap())`
abbrev pub unwrap_all {ℓ} : {A : Type ℓ} → List (Option A) → Option (List A)
unwrap_all [] = some []
unwrap_all (x ∷ xs) = do y ← x; ys ← unwrap_all xs; some (y ∷ ys)

abbrev pub nones {ℓ κ} : {A : Type ℓ} {B : Type κ} → List B → List (Option A)
nones [] = []
nones (b ∷ bs) = none ∷ nones bs

module _ {ℓ} {F : Type ℓ} where
  -- The loop over the assignments: the columns and the expressions by selector.
  abbrev pub place :
      List (GpuColumn GpuFixed)
      → List (SelectorAssignment F)
      → List (Option (GpuExpression F))
      → List (Option (GpuColumn GpuFixed))
      → Option (List (Option (GpuExpression F)) × List (Option (GpuColumn GpuFixed)))
  place columns [] expressions selector_map = some (expressions, selector_map)
  place columns (a ∷ rest) expressions selector_map = do
    expressions' ← put expressions a.selector a.expression
    column ← get_elem? columns a.combination_index
    selector_map' ← put selector_map a.selector column
    place columns rest expressions' selector_map'

  module _ ⦃f : Field F⦄ where
    -- What `compress_selectors` does with the result of `process`.
    unfoldable pub apply_assignment :
        GpuConstraintSystem F
        → List (List F) × List (SelectorAssignment F)
        → Option (GpuConstraintSystem F × List (List F))
    apply_assignment s result = do
      let n = length result.0
      placed ← place (new_columns n s) result.1 (nones result.1) (nones result.1)
      selector_map ← unwrap_all placed.1
      replacements ← unwrap_all placed.0
      t ←
          replace_selectors_with_fixed replacements
            (record (allocated n s) { selector_map = selector_map })
      some (t, result.0)

    unfoldable pub compress_selectors :
        Variable
        → GpuConstraintSystem F
        → List (List Bool)
        → Option (GpuConstraintSystem F × List (List F))
    compress_selectors var s selectors =
        let compressed : Option (GpuConstraintSystem F × List (List F)) = (do
          degrees ← selector_degrees (all_polys s.gates) (no_degrees selectors)
          max_degree ← degree var s
          result ← process (describe 0 selectors degrees) max_degree (allocation s)
          apply_assignment s result) in
        if length selectors == s.num_selectors then compressed else none

    unfoldable pub directly_convert_selectors_to_fixed :
        GpuConstraintSystem F → List (List Bool) → Option (GpuConstraintSystem F × List (List F))
    directly_convert_selectors_to_fixed s selectors =
        let n = length selectors in
        let converted : Option (GpuConstraintSystem F × List (List F)) = (do
          t ← replace_selectors_with_fixed (allocations n s) (allocated n s)
          some (record t { num_selectors = 0 }, map (map indicator) selectors)) in
        if n == s.num_selectors then converted else none
