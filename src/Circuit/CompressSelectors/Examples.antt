-- ===== src/Circuit/CompressSelectors/Examples.antt =====
-- The theorems on selector compression at three selectors over the field of five elements.
use halo2_gpu.Common.{
  ◌≤◌, ℕ, ◌≡◌, refl, sym, subst, Bool, true, false, some, List, [], ◌∷◌, arith, ◌≢◌,
}
use halo2_gpu.Common.Int.{pos}
use halo2_gpu.Field.Five.{F5, zero5, one5, two5, three5, four5, f5_field}
use halo2_gpu.Field.Laws.{=?_ne}
use halo2_gpu.Circuit.{GpuFixedQuery}
use halo2_gpu.Circuit.Expression
use halo2_gpu.Circuit.Expression.{GpuExpression, fixed, degree, contains_simple_selector}
use halo2_gpu.Circuit.Expression.Value.{Row, value}
use halo2_gpu.Circuit.CompressSelectors.{
  SelectorDescription, SelectorAssignment, combinations, process, overlaps, is_excluded,
  try_selectors, combine, emit_complex, emit_combinations, emit_selectors, root_product,
  assign_rows,
}
use halo2_gpu.Circuit.CompressSelectors.Group.{AllCombinations, count, count_all}
use halo2_gpu.Circuit.CompressSelectors.Partition.{combinations_total}
use halo2_gpu.Circuit.CompressSelectors.Root.{roots}
use halo2_gpu.Circuit.CompressSelectors.Rows.{AllDistinct}
use halo2_gpu.Circuit.CompressSelectors.Columns.{AllReplace, ColumnsRead}
use halo2_gpu.Circuit.CompressSelectors.Degrees.{AllFit}
use halo2_gpu.Circuit.CompressSelectors.Fit.{process-degrees}
use halo2_gpu.Circuit.CompressSelectors.Process.{process-reads, columns_of}

abbrev complex0 : SelectorDescription
complex0 = record { selector = 0; activations = true ∷ false ∷ []; max_degree = 0 }

abbrev simple1 : SelectorDescription
simple1 = record { selector = 1; activations = true ∷ false ∷ []; max_degree = 2 }

abbrev simple2 : SelectorDescription
simple2 = record { selector = 2; activations = false ∷ true ∷ []; max_degree = 1 }

-- The simple selectors share a column, since they are active on different rows.
combinations_run : combinations 4 (simple1 ∷ simple2 ∷ []) ≡ some ((simple1 ∷ simple2 ∷ []) ∷ [])
unfolding combinations combine try_selectors is_excluded overlaps
combinations_run = refl

-- With the bound 2 there is no place for a second selector.
combinations_run2 :
    combinations 2 (simple1 ∷ simple2 ∷ []) ≡ some ((simple1 ∷ []) ∷ (simple2 ∷ []) ∷ [])
unfolding combinations combine try_selectors is_excluded overlaps
combinations_run2 = refl

combinations_total_example :
    (cs : List (List SelectorDescription)) × (combinations 4 (simple1 ∷ simple2 ∷ []) ≡ some cs)
    × AllCombinations 4 cs
    × ((p : SelectorDescription → Bool) → count_all p cs ≡ count p (simple1 ∷ simple2 ∷ []))
combinations_total_example =
    combinations_total 4 (simple1 ∷ simple2 ∷ [])
      (omega arith, omega arith, (omega arith, omega arith, tt))

abbrev column : ℕ → GpuExpression F5
column k = fixed (record { index = some k; column_index = k; rotation = pos 0 })

-- The second row of the two columns.
abbrev row : Row F5
row = record {
  selector = λ _. zero5;
  fixed = λ (q : GpuFixedQuery). elim q.column_index [ ℕ.zero ↦ zero5 | ℕ.suc _ ↦ two5 ];
  advice = λ _. zero5;
  instance_query = λ _. zero5;
  challenge = λ _. zero5;
}

abbrev selectors : List SelectorDescription
selectors = complex0 ∷ simple1 ∷ simple2 ∷ []

process_run :
    columns_of (process selectors 4 column) ≡ (one5 ∷ zero5 ∷ []) ∷ (one5 ∷ two5 ∷ []) ∷ []
unfolding process emit_complex emit_combinations emit_selectors root_product assign_rows
    combinations combine try_selectors is_excluded overlaps Expression.mul Expression.sub
    contains_simple_selector
process_run = refl

differ : (a b : F5) → f5_field.beq a b ≡ false → a ≢ b
differ a b h = =?_ne a b h

distinct : AllDistinct (zero5 ∷ roots one5 4)
distinct = (
  (
    differ zero5 one5 refl,
    (differ zero5 two5 refl, (differ zero5 three5 refl, (differ zero5 four5 refl, tt))),
  ),
  (
    (differ one5 two5 refl, (differ one5 three5 refl, (differ one5 four5 refl, tt))),
    (
      (differ two5 three5 refl, (differ two5 four5 refl, tt)),
      ((differ three5 four5 refl, tt), (tt, tt)),
    ),
  ),
)

column_simple : (k : ℕ) → contains_simple_selector (column k) ≡ false
unfolding contains_simple_selector
column_simple k = refl

columns_read : ColumnsRead column row 1 0 (columns_of (process selectors 4 column))
unfolding value
columns_read = subst (ColumnsRead column row 1 0) (sym process_run) (refl, (refl, tt))

process-reads_example :
    (e : List (List F5) × List (SelectorAssignment F5)) × (process selectors 4 column ≡ some e)
    × (order : List SelectorDescription) × ((p : SelectorDescription → Bool)
        → count p order ≡ count p selectors)
    × AllReplace row 1 order e.1
process-reads_example =
    process-reads selectors 4 column row 1 refl (omega arith, (omega arith, (omega arith, tt)))
      column_simple distinct (omega arith) columns_read

degree-column : (k : ℕ) → degree (column k) ≤ 1
unfolding degree
degree-column k = omega arith

process-degrees_example :
    (e : List (List F5) × List (SelectorAssignment F5)) × (process selectors 4 column ≡ some e)
    × (order : List SelectorDescription) × ((p : SelectorDescription → Bool)
        → count p order ≡ count p selectors)
    × AllFit 4 order e.1
process-degrees_example =
    process-degrees selectors 4 column refl (omega arith, (omega arith, (omega arith, tt)))
      (omega arith) column_simple degree-column
