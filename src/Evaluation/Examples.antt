-- ===== src/Evaluation/Examples.antt =====
-- The calculation graph of two polynomials over the field of five elements, at a row of four.
use halo2_gpu.Common.{ℕ, ◌≡◌, refl, Option, none, some, List, [], ◌∷◌, length, map, ◌>>=◌, arith}
use halo2_gpu.Common.Int.{pos, negsuc}
use halo2_gpu.Field.Five.{F5, zero5, one5, two5, three5, four5, f5_field}
use halo2_gpu.Circuit.Expression.{
  GpuExpression, constant, fixed, advice, negated, sum, product, scaled,
}
use halo2_gpu.Circuit.Expression.Replace.{AllConcrete}
use halo2_gpu.Circuit.Expression.Value.{value}
use halo2_gpu.Circuit.System.{GpuGate}
use halo2_gpu.Circuit.System.Valid.{AllOf}
use halo2_gpu.Evaluation.{
  ValueSource, GraphEvaluator, default_graph, add_constant, add_rotation, add_calculation,
  source_eq, source_le, find_target, calculation_eq,
}
use halo2_gpu.Evaluation.Build.{
  store_cell, emit_negated, emit_difference, emit_sum, emit_product, add_expression,
  add_expressions, add_gates, for_compress, custom_gates,
}
use halo2_gpu.Evaluation.Run.{
  Inputs, get_rotation_idx, get, evaluate_calculation, run_calculations, evaluate_graph,
  instance_data, evaluate_simple, evaluate_vector,
}
use halo2_gpu.Evaluation.Sound.{Outcome, default-Valid}
use halo2_gpu.Evaluation.Sound.Expression.{add_expression_lem}
use halo2_gpu.Evaluation.Compress.{
  evaluate_all, horner_fold, evaluate-custom_gates, evaluate-for_compress,
}
use halo2_gpu.Evaluation.Readable.{IsReadable, HasSize, readable-AllConcrete, row_at}
use halo2_gpu.Evaluation.Total.{
  add_expression_total, custom_gates_built, for_compress_built, run, custom_gates_total,
  for_compress_total,
}

abbrev fixed0 : GpuExpression F5
fixed0 = fixed (record { index = some 0; column_index = 0; rotation = pos 0 })

abbrev advice0 : GpuExpression F5
advice0 = advice (record { index = some 0; column_index = 0; rotation = pos 0; phase = 0 })

abbrev advice0_prev : GpuExpression F5
advice0_prev = advice (record { index = some 1; column_index = 0; rotation = negsuc 0; phase = 0 })

-- f0 * (a0 - 3 * a0[-1]) and a0 * a0 + 0
abbrev first_poly : GpuExpression F5
first_poly = product fixed0 (sum advice0 (negated (scaled advice0_prev three5)))

abbrev polys : List (GpuExpression F5)
polys = first_poly ∷ sum (product advice0 advice0) (constant zero5) ∷ []

-- Each in a gate of its own.
abbrev gate_of : GpuExpression F5 → GpuGate F5
gate_of e = record { polys = e ∷ []; queried_selectors = []; queried_cells = [] }

abbrev gates : List (GpuGate F5)
gates = map gate_of polys

abbrev inputs : Inputs F5
inputs = record {
  fixed = (one5 ∷ two5 ∷ one5 ∷ four5 ∷ []) ∷ [];
  advice = (three5 ∷ two5 ∷ zero5 ∷ one5 ∷ []) ∷ [];
  instance_values = [];
  challenges = [];
  beta = one5;
  gamma = two5;
  theta = three5;
  y = two5;
  previous_value = four5;
}

abbrev num_constants {ℓ} : {F : Type ℓ} → Option (GraphEvaluator F) → ℕ
num_constants none = 0
num_constants (some g) = length g.constants

abbrev num_calculations {ℓ} : {F : Type ℓ} → Option (GraphEvaluator F) → ℕ
num_calculations none = 0
num_calculations (some g) = length g.calculations

inputs-HasSize : HasSize inputs 4
inputs-HasSize = (omega arith, (refl, tt), (refl, tt), tt)

readable : AllOf (IsReadable inputs) polys
readable = ((omega arith, (omega arith, omega arith)), (((omega arith, omega arith), tt), tt))

-- The repeated cell is stored once, and the added zero leaves no calculation.
sharing_test :
    (num_constants (custom_gates gates) ≡ 4) × (num_calculations (custom_gates gates) ≡ 8)
unfolding custom_gates add_gates add_expressions add_expression default_graph add_constant
    add_rotation add_calculation store_cell emit_negated emit_difference emit_sum emit_product
    source_eq source_le find_target calculation_eq
sharing_test = (refl, refl)

rotation_test :
    (get_rotation_idx 0 (negsuc 0) (pos 1) 4 ≡ 3) × (get_rotation_idx 3 (pos 1) (pos 2) 4 ≡ 1)
unfolding get_rotation_idx
rotation_test = (refl, refl)

simple_test : evaluate_all inputs 0 (pos 1) 4 polys ≡ some (zero5 ∷ four5 ∷ [])
unfolding evaluate_simple get_rotation_idx
simple_test = refl

-- 4 * 2^2 + 0 * 2 + 4
run_test :
    (custom_gates gates >>= λ g.
    evaluate_graph inputs 0 (pos 1) 4 g (instance_data inputs 0 (pos 1) 4 g))
    ≡ some zero5
unfolding custom_gates add_gates add_expressions add_expression default_graph add_constant
    add_rotation add_calculation store_cell emit_negated emit_difference emit_sum emit_product
    source_eq source_le find_target calculation_eq evaluate_graph instance_data run_calculations
    evaluate_calculation get get_rotation_idx
run_test = refl

custom_gates_total_example :
    (g : GraphEvaluator F5) × (custom_gates gates ≡ some g)
    × (run inputs 0 (pos 1) 4 g
        ≡ some (horner_fold two5 four5 (map (value (row_at inputs 0 (pos 1) 4)) polys)))
custom_gates_total_example = custom_gates_total inputs 0 (pos 1) 4 gates inputs-HasSize readable

for_compress_total_example :
    (g : GraphEvaluator F5) × (for_compress polys ≡ some g)
    × (run inputs 0 (pos 1) 4 g
        ≡ some (horner_fold two5 zero5 (map (value (row_at inputs 0 (pos 1) 4)) polys)))
for_compress_total_example = for_compress_total inputs 0 (pos 1) 4 polys inputs-HasSize readable

vector_test : evaluate_vector inputs (pos 1) 4 first_poly ≡ some (zero5 ∷ one5 ∷ four5 ∷ four5 ∷ [])
unfolding evaluate_vector evaluate_simple get_rotation_idx
vector_test = refl

polys_concrete : AllConcrete polys
polys_concrete = readable-AllConcrete inputs polys readable

abbrev gates_graph : GraphEvaluator F5
gates_graph = (custom_gates_built gates polys_concrete).0

abbrev compress_graph : GraphEvaluator F5
compress_graph = (for_compress_built polys polys_concrete).0

evaluate-custom_gates_example :
    evaluate_graph inputs 0 (pos 1) 4 gates_graph (instance_data inputs 0 (pos 1) 4 gates_graph)
    ≡ some (horner_fold two5 four5 (zero5 ∷ four5 ∷ []))
evaluate-custom_gates_example =
    evaluate-custom_gates inputs 0 (pos 1) 4 gates gates_graph (zero5 ∷ four5 ∷ [])
      (custom_gates_built gates polys_concrete).1 simple_test

evaluate-for_compress_example :
    evaluate_graph inputs 0
      (pos 1)
      4
      compress_graph
      (instance_data inputs 0 (pos 1) 4 compress_graph)
    ≡ some (horner_fold two5 zero5 (zero5 ∷ four5 ∷ []))
evaluate-for_compress_example =
    evaluate-for_compress inputs 0 (pos 1) 4 polys compress_graph (zero5 ∷ four5 ∷ [])
      (for_compress_built polys polys_concrete).1 simple_test

product_value : evaluate_simple inputs 0 (pos 1) 4 (product advice0 advice0) ≡ some four5
unfolding evaluate_simple get_rotation_idx
product_value = refl

abbrev square_added :
    (r : ValueSource × GraphEvaluator F5) × (add_expression (product advice0 advice0) default_graph
      ≡ some r)
square_added = add_expression_total (product advice0 advice0) default_graph (tt, tt)

add_expression_lem_example : Outcome inputs 0 (pos 1) 4 default_graph [] square_added.0 four5
add_expression_lem_example =
    add_expression_lem inputs 0 (pos 1) 4 (product advice0 advice0) default_graph [] square_added.0
      four5 (default-Valid inputs 0 (pos 1) 4) square_added.1 product_value
