-- ===== src/Circuit/Expression/Examples.antt =====
-- The theorems on expressions at a gate with a simple selector, over the field of five elements.
use halo2_gpu.Common.{ℕ, ◌≡◌, refl, true, false, none, some, List, [], ◌∷◌, arith, inr, ◌≤◌}
use halo2_gpu.Common.Int.{pos, negsuc}
use halo2_gpu.Field.Five.{F5, zero5, one5, two5, three5, four5, f5_field, beq5, beq5_iff, mul5_comm}
use halo2_gpu.Field.Laws.{zero-mul}
use halo2_gpu.Circuit.{GpuSelector, GpuAdviceQuery}
use halo2_gpu.Circuit.Expression.{
  GpuExpression, constant, selector, fixed, advice, negated, sum, product, scaled, Closures,
  evaluate, evaluate_lazy, contains_simple_selector, degree, complexity, add, mul,
}
use halo2_gpu.Circuit.Expression.Lazy.{evaluate_lazy_lem}
use halo2_gpu.Circuit.Expression.Selectors.{
  extract_simple_selector, extract_advices, extract_fixed, Agrees, extract-Agrees, IsWellFormed,
  operators-IsWellFormed,
}
use halo2_gpu.Circuit.Expression.Replace.{replace_selectors, replace_selectors_total, IsConcrete}
use halo2_gpu.Circuit.Expression.Value.{Row, value, substituted, value-replace_selectors}
use halo2_gpu.Circuit.Expression.Degree.{Grows, replacement_degree, degree-replace_selectors}

abbrev simple0 : GpuSelector
simple0 = record { index = 0; is_simple = true }

abbrev advice0 : GpuExpression F5
advice0 = advice (record { index = some 0; column_index = 0; rotation = pos 0; phase = 0 })

abbrev advice1_prev : GpuExpression F5
advice1_prev = advice (record { index = some 1; column_index = 1; rotation = negsuc 0; phase = 0 })

abbrev fixed2 : GpuExpression F5
fixed2 = fixed (record { index = some 0; column_index = 2; rotation = pos 0 })

-- s0 * (a0 - 2 * a1[-1])
abbrev body : GpuExpression F5
body = sum advice0 (negated (scaled advice1_prev two5))

abbrev gate : GpuExpression F5
gate = product (selector simple0) body

-- q * (2 - q), for the first of two combined selectors
abbrev combined : List (GpuExpression F5)
combined = product fixed2 (sum (constant two5) (negated fixed2)) ∷ []

abbrev replaced : GpuExpression F5
replaced = product (product fixed2 (sum (constant two5) (negated fixed2))) body

abbrev row : Row F5
row = record {
  selector = λ _. one5;
  fixed = λ _. one5;
  advice = λ (q : GpuAdviceQuery). elim q.column_index [ ℕ.zero ↦ three5 | ℕ.suc _ ↦ two5 ];
  instance_query = λ _. zero5;
  challenge = λ _. zero5;
}

abbrev closures : Closures F5 F5
closures = record {
  constant = λ k. k;
  selector_column = row.selector;
  fixed_column = row.fixed;
  advice_column = row.advice;
  instance_column = row.instance_query;
  challenge = row.challenge;
  negated = f5_field.neg;
  sum = f5_field.add;
  product = f5_field.mul;
  scaled = f5_field.mul;
}

degrees_test : (degree gate ≡ 2) × (complexity gate ≡ 83) × (value row gate ≡ four5)
unfolding degree complexity value
degrees_test = (refl, refl, refl)

extract_test : (extract_advices gate ≡ 0 ∷ 1 ∷ []) × (extract_fixed replaced ≡ 2 ∷ [])
unfolding extract_advices extract_fixed
extract_test = (refl, refl)

replace_test : replace_selectors combined false gate ≡ some replaced
unfolding replace_selectors mul add contains_simple_selector
replace_test = refl

refused_test : (add gate advice0 ≡ none) × (mul gate gate ≡ none)
unfolding add mul contains_simple_selector
refused_test = (refl, refl)

evaluate_lazy_lem_example : evaluate_lazy beq5 zero5 closures gate ≡ evaluate closures gate
evaluate_lazy_lem_example = evaluate_lazy_lem beq5 zero5 closures beq5_iff mul5_comm zero-mul gate

extract-Agrees_example : Agrees (extract_simple_selector gate) (contains_simple_selector gate)
extract-Agrees_example = extract-Agrees gate

selector-IsWellFormed : IsWellFormed {F = F5} (selector simple0)
unfolding extract_simple_selector
selector-IsWellFormed h = cc

body-IsWellFormed : IsWellFormed body
unfolding extract_simple_selector
body-IsWellFormed h = cc

gate_built : mul (selector simple0) body ≡ some gate
unfolding mul contains_simple_selector
gate_built = refl

operators-IsWellFormed_example : IsWellFormed gate
operators-IsWellFormed_example =
    operators-IsWellFormed (selector simple0) body gate selector-IsWellFormed body-IsWellFormed
      (inr (inr gate_built))

replace_selectors_total_example :
    (e : GpuExpression F5) × (replace_selectors combined false gate ≡ some e) × IsConcrete e
replace_selectors_total_example =
    replace_selectors_total combined false gate (((tt, (tt, tt))), tt)
      ((omega arith, refl), (tt, tt))

value-replace_selectors_example : value row replaced ≡ value (substituted combined row) gate
value-replace_selectors_example =
    value-replace_selectors combined false row gate replaced replace_test

combined_positive : 1 ≤ degree (product fixed2 (sum (constant two5) (negated fixed2)))
unfolding degree
combined_positive = omega arith

degree-replace_selectors_example :
    Grows
      (replacement_degree combined)
      (extract_simple_selector gate)
      (degree replaced)
      (degree gate)
degree-replace_selectors_example =
    degree-replace_selectors combined false gate replaced (combined_positive, tt)
      ((λ h. absurd (ground arith)), (tt, tt)) replace_test
