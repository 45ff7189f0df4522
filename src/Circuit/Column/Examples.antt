-- ===== src/Circuit/Column/Examples.antt =====
-- The theorems on columns at an advice column of the second phase and a fixed column.
use Prim.Native.Nat.{Ordering}
use halo2_gpu.Common.{◌≡◌, ◌↔◌, refl, some}
use halo2_gpu.Circuit.Column.{
  GpuAny, any_advice, GpuColumn, cmp_any, cmp, GpuAdvice, GpuFixed, GpuInstance, try_advice,
  try_fixed, try_instance, from_column, from_fixed, from_instance, the_fixed, the_instance,
}
use halo2_gpu.Circuit.Column.Order.{reverse, cmp_trans, cmp_antisym}
use halo2_gpu.Circuit.Column.Convert.{try_from_iff}

abbrev same : GpuAny → GpuAny
same t = t

abbrev second_phase : GpuColumn GpuAdvice
second_phase = record { index = 4; column_type = record { phase = 1 } }

abbrev fixed_zero : GpuColumn GpuFixed
fixed_zero = record { index = 0; column_type = the_fixed }

abbrev instance_nine : GpuColumn GpuInstance
instance_nine = record { index = 9; column_type = the_instance }

abbrev low : GpuColumn GpuAny
low = from_column from_instance instance_nine

abbrev middle : GpuColumn GpuAny
middle = from_column any_advice second_phase

abbrev high : GpuColumn GpuAny
high = from_column from_fixed fixed_zero

low-middle : cmp same low middle ≡ Ordering.lt
unfolding cmp cmp_any
low-middle = refl

middle-high : cmp same middle high ≡ Ordering.lt
unfolding cmp cmp_any
middle-high = refl

cmp_trans_example : cmp same low high ≡ Ordering.lt
cmp_trans_example = cmp_trans same low middle high low-middle middle-high

cmp_antisym_example :
    (cmp same high middle ≡ reverse (cmp same middle high))
    × (cmp same middle high ≡ Ordering.eq → from_column same middle ≡ from_column same high)
cmp_antisym_example = cmp_antisym same middle high

try_from_iff_example :
    ((a : GpuColumn GpuAdvice) → (try_advice middle ≡ some a) ↔ (from_column any_advice a ≡ middle))
    × ((a : GpuColumn GpuFixed) → (try_fixed middle ≡ some a) ↔ (from_column from_fixed a ≡ middle))
    × ((a : GpuColumn GpuInstance)
        → (try_instance middle ≡ some a) ↔ (from_column from_instance a ≡ middle))
try_from_iff_example = try_from_iff middle
