-- ===== src/Circuit/System/Examples.antt =====
-- The theorems on constraint systems at a configuration with two advice columns, a fixed column
-- for constants, a selector and a gate.
use halo2_gpu.Common.{
  ℕ, ◌+◌, ◌≤◌, ◌<◌, ◌⊎◌, ◌≡◌, ◌↔◌, refl, subst, true, none, some, List, [], ◌∷◌, length, ◌>>=◌,
  >>=-eq-some, arith, Bool, false, ◌==◌, if◌then◌else◌,
}
use mathlib.Core.Option.{some-injective}
use halo2_gpu.Common.Int.{pos, negsuc}
use halo2_gpu.Common.Count.{contains}
use halo2_gpu.Field.Five.{F5, zero5, one5}
use halo2_gpu.Circuit.{GpuSelector}
use halo2_gpu.Circuit.Expression.{GpuExpression, selector, fixed, advice, sum, product}
use halo2_gpu.Circuit.Column.{
  GpuColumn, GpuAny, any_advice, GpuAdvice, GpuFixed, from_column, try_advice, try_fixed,
}
use halo2_gpu.Circuit.Column.Equal.{nat_eq, any_eq, column_eq}
use halo2_gpu.Circuit.System.{GpuConstraintSystem, default}
use halo2_gpu.Circuit.System.Queries.{
  query_fixed_index, query_advice_index, query_any_index, get_any_query_index,
}
use halo2_gpu.Circuit.System.Cells.{
  GpuVirtualCells, new as new_cells, query_cells, query_advice, register_fixed, register_advice,
}
use halo2_gpu.Circuit.System.Configure.{
  Closure, cur, query_polys, create_gate, enable_equality, enable_constant,
}
use halo2_gpu.Circuit.System.Allocate.{
  selector as new_selector, fixed_column, advice_column_in, assert_phase_exists, phases, unwrap_or,
}
use halo2_gpu.Circuit.System.Rows.{degree, blinding_factors}
use halo2_gpu.Circuit.System.Indexed.{IsKnown, IsIndexed-IsKnown}
use halo2_gpu.Circuit.System.Counted.{on_column}
use halo2_gpu.Circuit.System.Register.{Queried}
use halo2_gpu.Circuit.System.Methods.{query_advice_lem}
use halo2_gpu.Circuit.System.Resolve.{Resolves, query_cells_total}
use halo2_gpu.Circuit.System.Gates.{IsHonest}
use halo2_gpu.Circuit.System.Valid.{IsValid, AllOf}
use halo2_gpu.Circuit.System.Reached.{
  Reached, start, by_selector, by_fixed_column, by_advice_column, by_constant, by_equality, by_gate,
  Reached-IsValid,
}
use halo2_gpu.Circuit.System.Phases.{phases_iff}
use halo2_gpu.Circuit.System.Backfill.{
  backfill, erase_indices, backfill-erase_indices, entry, get_any_query_index_total,
}
use halo2_gpu.Circuit.System.Budget.{blinding_factors_iff, GatesAtMost, LookupsAtMost, degree_lem}
use halo2_gpu.Permutation.Argument.{add_column}
use halo2_gpu.Field.Five.{f5_field}
use halo2_gpu.Circuit.Expression.{degree as expression_degree}
use halo2_gpu.Circuit.Expression.Selectors.{extract_simple_selector}
use halo2_gpu.Circuit.System.Compress.{
  all_polys, compress_selectors, directly_convert_selectors_to_fixed,
}
use halo2_gpu.Circuit.System.Recorded.{IsUsable}
use halo2_gpu.Circuit.System.Compressed.{LookupCovered, IsCompressed, compress_selectors_total}
use halo2_gpu.Circuit.Expression.Replace.{IsCovered}
use halo2_gpu.Circuit.Expression.Value.{Row}
use halo2_gpu.Circuit.System.Substituted.{HoldsSelectors, gate_values, lookup_values}
use halo2_gpu.Circuit.System.Converted.{IsConverted, directly_convert_selectors_to_fixed_total}

abbrev with_selector : GpuSelector × GpuConstraintSystem F5
with_selector = new_selector default

abbrev with_fixed : GpuColumn GpuFixed × GpuConstraintSystem F5
with_fixed = fixed_column with_selector.1

first_advice :
    (r : GpuColumn GpuAdvice × GpuConstraintSystem F5) × (advice_column_in with_fixed.1 0 ≡ some r)
unfolding advice_column_in fixed_column new_selector default
first_advice = (_, refl)

second_advice :
    (r : GpuColumn GpuAdvice × GpuConstraintSystem F5) × (advice_column_in first_advice.0.1 1
      ≡ some r)
unfolding first_advice advice_column_in assert_phase_exists fixed_column new_selector default
second_advice = (_, refl)

with_constant :
    (s : GpuConstraintSystem F5) × (enable_constant second_advice.0.1 with_fixed.0 ≡ some s)
unfolding second_advice first_advice fixed_column new_selector default enable_constant
    enable_equality query_any_index query_fixed_index try_fixed add_column
with_constant = (_, refl)

abbrev second_column : GpuColumn GpuAny
second_column = from_column any_advice second_advice.0.0

with_equality :
    (s : GpuConstraintSystem F5) × (enable_equality with_constant.0 second_column ≡ some s)
unfolding with_constant second_advice first_advice fixed_column new_selector default enable_equality
    query_any_index query_advice_index try_advice add_column
with_equality = (_, refl)

-- s * (a[-1] + (f + b[1])): the first query has an index, the others have none yet.
abbrev body : GpuExpression F5 → GpuExpression F5
body a = product (selector with_selector.0) (
    sum a (
      sum (fixed (record { index = none; column_index = 0; rotation = pos 0 }))
        (advice (record { index = none; column_index = 1; rotation = pos 1; phase = 1 }))))

closure : Closure F5 (GpuExpression F5)
closure cells = do a ← query_advice cells first_advice.0.0 (negsuc 0); some (body a.0 ∷ [], a.1)

closure-IsHonest : IsHonest IsKnown closure
unfolding closure
closure-IsHonest cells r h =
    let (x, p, k) = >>=-eq-some (query_advice cells first_advice.0.0 (negsuc 0)) _ h in
    let (q, i) = query_advice_lem cells (negsuc 0) first_advice.0.0 x p in
    let known = IsIndexed-IsKnown (x.1).meta x.0 i in
    subst
      (λ (z : List (GpuExpression F5) × GpuVirtualCells F5).
        Queried cells.meta (z.1).meta × AllOf (IsKnown (z.1).meta) z.0)
      (some-injective _ r k) (q, ((tt, (known, ((λ j e. absurd (cc)), (λ j e. absurd (cc))))), tt))

with_gate : (s : GpuConstraintSystem F5) × (create_gate with_equality.0 closure ≡ some s)
unfolding closure with_equality with_constant second_advice first_advice fixed_column new_selector
    default create_gate new_cells query_polys query_cells query_advice register_advice
    register_fixed query_advice_index query_fixed_index
with_gate = (_, refl)

abbrev configured : GpuConstraintSystem F5
configured = with_gate.0

reached : Reached configured
reached =
    by_gate closure closure-IsHonest
      (by_equality second_column
        (by_constant with_fixed.0
          (by_advice_column 1 second_advice.0
            (by_advice_column 0 first_advice.0 (by_fixed_column (by_selector start)) first_advice.1)
            second_advice.1)
          with_constant.1)
        with_equality.1)
      with_gate.1

-- The second column is queried at the current and at the next row.
two_queries : configured.num_advice_queries ≡ 1 ∷ 2 ∷ []
unfolding with_gate with_equality with_constant second_advice first_advice fixed_column new_selector
    default
two_queries = refl

Reached-IsValid_example : IsValid configured
Reached-IsValid_example = Reached-IsValid configured reached

backfill_example : backfill (erase_indices configured) ≡ some configured
backfill_example = backfill-erase_indices configured reached

blinding_factors_iff_example : (blinding_factors configured ≤ 5) ↔ (
    (5 ≤ 5)
    × ((c : ℕ) → c < configured.num_advice_columns → on_column c configured.advice_queries + 2 ≤ 5))
blinding_factors_iff_example = blinding_factors_iff configured reached 5

has_column : 1 ≤ configured.num_advice_columns
unfolding with_gate with_equality with_constant second_advice first_advice fixed_column new_selector
    default
has_column = omega arith

phases_iff_example :
    (contains (phases configured) 1 ≡ true) ↔ (contains configured.advice_column_phase 1 ≡ true)
phases_iff_example = phases_iff configured reached has_column 1

permuted : contains configured.permutation.columns second_column ≡ true
unfolding with_gate with_equality with_constant second_advice first_advice fixed_column new_selector
    default
permuted = refl

get_any_query_index_total_example :
    (i : ℕ) × (get_any_query_index configured second_column cur ≡ some i)
    × (entry configured second_column.column_type i ≡ some (second_column, cur))
get_any_query_index_total_example =
    get_any_query_index_total configured second_column reached permuted

degree_lem_example :
    (d : ℕ) × (degree none configured ≡ some d)
    × ((k : ℕ)
        → (d ≤ k) ↔ (
            (unwrap_or configured.minimum_degree 1 ≤ k)
            × ((5 ≤ k)
                ⊎ ((3 ≤ k) × GatesAtMost k configured.gates × LookupsAtMost k configured.lookups))))
degree_lem_example = degree_lem configured none 5 reached refl

abbrev unindexed : GpuExpression F5
unindexed =
    body (advice (record { index = none; column_index = 0; rotation = negsuc 0; phase = 0 }))

within :
    (0 < length with_equality.0.num_advice_queries)
    × (1 < length with_equality.0.num_advice_queries)
unfolding with_equality with_constant second_advice first_advice fixed_column new_selector default
within = (omega arith, omega arith)

query_cells_total_example :
    (r : GpuExpression F5 × GpuVirtualCells F5) × (query_cells unindexed (new_cells with_equality.0)
      ≡ some r)
    × Resolves (new_cells with_equality.0) unindexed r
unfolding new_cells
query_cells_total_example =
    query_cells_total unindexed (new_cells with_equality.0)
      (tt, ((λ j e. absurd (cc)), ((λ j e. absurd (cc)), (λ j e. absurd (cc)))))
      (tt, ((λ _. within.0), (tt, (λ _. within.1))))

-- The selector is simple, and active on two of three rows.
abbrev activations : List (List Bool)
activations = (true ∷ false ∷ true ∷ []) ∷ []

abbrev kinds : List Bool
kinds = true ∷ []

configured-degree : degree none configured ≡ some 3
unfolding with_gate with_equality with_constant second_advice first_advice fixed_column new_selector
    default degree expression_degree
configured-degree = refl

one_selector : 1 ≡ configured.num_selectors
unfolding with_gate with_equality with_constant second_advice first_advice fixed_column new_selector
    default
one_selector = refl

configured-IsUsable : AllOf (IsUsable kinds 3) (all_polys configured.gates)
unfolding with_gate with_equality with_constant second_advice first_advice fixed_column new_selector
    default expression_degree extract_simple_selector
configured-IsUsable = (((λ h. cc), (refl, (tt, (tt, tt))), omega arith), tt)

configured_lookups : AllOf (LookupCovered 1) configured.lookups
unfolding with_gate with_equality with_constant second_advice first_advice fixed_column new_selector
    default
configured_lookups = tt

compress_selectors_total_example :
    (r : GpuConstraintSystem F5 × List (List F5)) × ((compress_selectors none configured activations
        ≡ some r)
      × IsCompressed 3 r.0)
compress_selectors_total_example =
    compress_selectors_total none configured activations kinds 3 3 one_selector one_selector
      configured-degree (omega arith) (refl, tt) configured-IsUsable configured_lookups

-- The second fixed column has the selector's value, one.
abbrev active : Row F5
active = record {
  selector = λ s. one5;
  fixed = λ q. if q.column_index == 1 then one5 else zero5;
  advice = λ q. one5;
  instance_query = λ q. zero5;
  challenge = λ c. zero5;
}

active-HoldsSelectors : HoldsSelectors configured.num_fixed_columns configured.num_selectors active
unfolding with_gate with_equality with_constant second_advice first_advice fixed_column new_selector
    default
active-HoldsSelectors x q b c t =
    let second : (q.column_index == 1) ≡ true = ground (arith, b, c) in rw second refl

configured-IsCovered : AllOf (IsCovered configured.num_selectors false) (all_polys configured.gates)
unfolding with_gate with_equality with_constant second_advice first_advice fixed_column new_selector
    default
configured-IsCovered = (((omega arith, refl), (tt, (tt, tt))), tt)

configured-LookupCovered : AllOf (LookupCovered configured.num_selectors) configured.lookups
unfolding with_gate with_equality with_constant second_advice first_advice fixed_column new_selector
    default
configured-LookupCovered = tt

directly_convert_selectors_to_fixed_total_example :
    (t : GpuConstraintSystem F5) × (directly_convert_selectors_to_fixed configured activations
      ≡ some (t, (one5 ∷ zero5 ∷ one5 ∷ []) ∷ []))
    × IsConverted configured.num_selectors configured t
    × (gate_values active t.gates ≡ gate_values active configured.gates)
    × (lookup_values active t.lookups ≡ lookup_values active configured.lookups)
directly_convert_selectors_to_fixed_total_example =
    directly_convert_selectors_to_fixed_total configured activations active one_selector
      configured-IsCovered configured-LookupCovered active-HoldsSelectors
