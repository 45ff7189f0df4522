-- ===== src/Permutation/Examples.antt =====
-- The theorems on copy constraints at three columns of four rows, with two constraints.
use halo2_gpu.Common.{ℕ, ◌≤◌, ◌≡◌, ◌≢◌, ◌↔◌, refl, List, [], ◌∷◌, ◌==◌, ==_iff, some, arith, ◌⊎◌}
use halo2_gpu.Common.Count.{position, Eq}
use halo2_gpu.Common.Grid.{cell_eq, index, store}
use halo2_gpu.Permutation.{
  Assembly, ok, err, stuck, bounds_failure, column_not_in_permutation, new, copy, connect, balance,
  join, relabel,
}
use halo2_gpu.Permutation.Relabel.{image}
use halo2_gpu.Permutation.Copy.{IsAssembly}
use halo2_gpu.Permutation.Copy.Connect.{copy-Connects, copy_bounds, copy-ne-stuck, Connects}
use halo2_gpu.Permutation.Fresh.{new-IsAssembly}
use halo2_gpu.Permutation.Linked.{
  Link, Linked, Reached, start, step, iterate, mapping_iff, Reached-IsAssembly,
}

instance abbrev nat_eq : Eq ℕ
nat_eq = record { beq = λ a b. a == b; beq_iff = ==_iff }

-- The columns are called 5, 6 and 7.
abbrev columns : List ℕ
columns = 5 ∷ 6 ∷ 7 ∷ []

abbrev fresh : Assembly ℕ
fresh = new 4 columns

first_copy : (a : Assembly ℕ) × (copy fresh 5 0 6 1 ≡ ok a)
unfolding copy connect balance join relabel index store new
first_copy = (_, refl)

second_copy : (a : Assembly ℕ) × (copy first_copy.0 6 1 7 3 ≡ ok a)
unfolding first_copy copy connect balance join relabel index store new
second_copy = (_, refl)

-- The three cells are one cycle.
second_mapping :
    (index second_copy.0.mapping (0, 0) ≡ some (1, 1))
    × (index second_copy.0.mapping (1, 1) ≡ some (2, 3))
    × (index second_copy.0.mapping (2, 3) ≡ some (0, 0))
unfolding second_copy first_copy copy connect balance join relabel index store new
second_mapping = (refl, refl, refl)

no_such_column : copy fresh 5 0 8 1 ≡ err (column_not_in_permutation 8)
unfolding copy new
no_such_column = refl

row_beyond : copy fresh 5 4 6 1 ≡ err bounds_failure
unfolding copy new
row_beyond = refl

abbrev links : List Link
links = ((1, 1), (2, 3)) ∷ ((0, 0), (1, 1)) ∷ []

first_columns : first_copy.0.columns ≡ columns
unfolding first_copy new
first_columns = refl

reached : Reached 4 columns second_copy.0 links
unfolding first_copy new
reached =
    step 6 7 1 2 1 3 (step 5 6 0 1 0 1 start refl refl (omega arith) (omega arith) first_copy.1)
      refl refl (omega arith) (omega arith) second_copy.1

Reached-IsAssembly_example : IsAssembly 3 4 second_copy.0
Reached-IsAssembly_example = Reached-IsAssembly 4 columns second_copy.0 links reached

mapping_iff_example :
    ((k : ℕ) × (iterate k (image second_copy.0.mapping) (0, 0) ≡ (2, 3)))
    ↔ Linked links (0, 0) (2, 3)
mapping_iff_example = mapping_iff 4 columns second_copy.0 links reached (0, 0) (2, 3)

position_left : position fresh.columns 5 ≡ some 0
unfolding new
position_left = refl

position_right : position fresh.columns 6 ≡ some 1
unfolding new
position_right = refl

copy-Connects_example :
    (a : Assembly ℕ) × (copy fresh 5 0 6 1 ≡ ok a)
    × IsAssembly 3 4 a
    × (a.columns ≡ fresh.columns)
    × Connects 3 4 fresh (new-IsAssembly 4 columns) (0, 0) (1, 1) a
copy-Connects_example =
    copy-Connects 3 4 fresh (new-IsAssembly 4 columns) 5 6 0 1 0 1 position_left position_right
      (omega arith) (omega arith)

copy_bounds_example : (copy fresh 5 4 6 1 ≡ err bounds_failure) ↔ ((4 ≤ 4) ⊎ (4 ≤ 1))
copy_bounds_example =
    copy_bounds 3 4 fresh (new-IsAssembly 4 columns) 5 6 0 1 4 1 position_left position_right

copy-ne-stuck_example : copy fresh 5 0 8 1 ≢ stuck
copy-ne-stuck_example = copy-ne-stuck 3 4 fresh (new-IsAssembly 4 columns) 5 8 0 1
