-- ===== src/Assigned/Examples.antt =====
-- The theorems on `GpuAssigned<F>` at elements of the field with five elements.
use halo2_gpu.Common.{◌≡◌, refl, ◌↔◌, true}
use halo2_gpu.Field.{◌⊕◌, ◌⊖◌, ◌⊗◌}
use halo2_gpu.Field.Laws.{unwrap_or}
use halo2_gpu.Field.Five.{F5, zero5, one5, two5, three5, four5, f5_field}
use halo2_gpu.Assigned.{
  GpuAssigned, zero, trivial, rational, is_zero, eq, add, add_field, sub, sub_field, mul, mul_field,
  double, square, cube, evaluate, numerator, denominator,
}
use halo2_gpu.Assigned.Value.{ratio, evaluate-add, evaluate-mul, evaluate-sub, evaluate-powers}
use halo2_gpu.Assigned.Equality.{is_zero_iff, eq_iff, evaluate-numerator}

-- 2/3, 4/1 and 1/0
abbrev two_thirds : GpuAssigned F5
two_thirds = rational two5 three5

abbrev four : GpuAssigned F5
four = rational four5 one5

abbrev over_zero : GpuAssigned F5
over_zero = rational one5 zero5

values_test : (evaluate two_thirds ≡ four5) × (evaluate over_zero ≡ zero5)
unfolding evaluate
values_test = (refl, refl)

add_test : add two_thirds (trivial one5) ≡ rational zero5 three5
unfolding add
add_test = refl

eq_test : (eq two_thirds four ≡ true) × (eq over_zero zero ≡ true)
unfolding eq
eq_test = (refl, refl)

evaluate-add_example :
    evaluate (add two_thirds over_zero) ≡ evaluate two_thirds ⊕ evaluate over_zero
evaluate-add_example = evaluate-add two_thirds over_zero

evaluate-sub_example :
    (evaluate (sub two_thirds four) ≡ evaluate two_thirds ⊖ evaluate four)
    × (evaluate (add_field two_thirds one5) ≡ evaluate two_thirds ⊕ one5)
    × (evaluate (sub_field two_thirds one5) ≡ evaluate two_thirds ⊖ one5)
evaluate-sub_example = evaluate-sub two_thirds four one5

evaluate-mul_example : evaluate (mul two_thirds four) ≡ evaluate two_thirds ⊗ evaluate four
evaluate-mul_example = evaluate-mul two_thirds four

evaluate-powers_example :
    (evaluate (double two_thirds) ≡ evaluate two_thirds ⊕ evaluate two_thirds)
    × (evaluate (square two_thirds) ≡ evaluate two_thirds ⊗ evaluate two_thirds)
    × (evaluate (cube two_thirds)
        ≡ (evaluate two_thirds ⊗ evaluate two_thirds) ⊗ evaluate two_thirds)
    × (evaluate (mul_field two_thirds two5) ≡ evaluate two_thirds ⊗ two5)
evaluate-powers_example = evaluate-powers two_thirds two5

is_zero_iff_example : (is_zero over_zero ≡ true) ↔ (evaluate over_zero ≡ zero5)
is_zero_iff_example = is_zero_iff over_zero

eq_iff_example : (eq two_thirds four ≡ true) ↔ (evaluate two_thirds ≡ evaluate four)
eq_iff_example = eq_iff two_thirds four

evaluate-numerator_example :
    evaluate two_thirds ≡ ratio (numerator two_thirds) (unwrap_or (denominator two_thirds) one5)
evaluate-numerator_example = evaluate-numerator two_thirds
