-- ===== src/Circuit/System/Allocate.antt =====
-- halo2_proofs/src/plonk/circuit.rs: the allocation of columns, selectors and challenges, and the
-- phases.
use halo2_gpu.Common.{
  ℕ, zero, suc, ◌+◌, max, ltb, Bool, true, false, Option, none, some, List, [], ◌∷◌, ◌++◌,
  if◌then◌else◌,
}
use halo2_gpu.Common.Count.{contains}
use halo2_gpu.Circuit.{Phase, GpuSelector, GpuChallenge}
use halo2_gpu.Circuit.Column.{GpuColumn, GpuAdvice, GpuFixed, the_fixed, GpuInstance, the_instance}
use halo2_gpu.Circuit.Column.Equal.{nat_eq}
use halo2_gpu.Circuit.System.{GpuConstraintSystem}
use halo2_gpu.Circuit.System.Configure.{GpuTableColumn}

-- `Phase::prev` and `Phase::next`
abbrev pub prev : Phase → Option Phase
prev zero = none
prev (suc p) = some p

abbrev pub next : Phase → Option Phase
next p = if ltb p 2 then some (p + 1) else none

-- `iter().max()`
abbrev pub maximum : List ℕ → Option ℕ
maximum [] = none
maximum (n ∷ ns) = elim (maximum ns) [ none ↦ some n | some m ↦ some (max n m) ]

abbrev pub unwrap_or : Option ℕ → ℕ → ℕ
unwrap_or none d = d
unwrap_or (some n) d = n

-- `n` phases from `p` on
abbrev pub phases_from : Phase → ℕ → List Phase
phases_from p zero = []
phases_from p (suc n) = p ∷ phases_from (p + 1) n

module _ {ℓ} {F : Type ℓ} where
  unfoldable pub selector : GpuConstraintSystem F → GpuSelector × GpuConstraintSystem F
  selector s = (
    record { index = s.num_selectors; is_simple = true },
    record s { num_selectors = s.num_selectors + 1 },
  )

  unfoldable pub complex_selector : GpuConstraintSystem F → GpuSelector × GpuConstraintSystem F
  complex_selector s = (
    record { index = s.num_selectors; is_simple = false },
    record s { num_selectors = s.num_selectors + 1 },
  )

  unfoldable pub fixed_column : GpuConstraintSystem F → GpuColumn GpuFixed × GpuConstraintSystem F
  fixed_column s = (
    record { index = s.num_fixed_columns; column_type = the_fixed },
    record s { num_fixed_columns = s.num_fixed_columns + 1 },
  )

  unfoldable pub lookup_table_column :
      GpuConstraintSystem F → GpuTableColumn × GpuConstraintSystem F
  lookup_table_column s = let c = fixed_column s in (record { inner = c.0 }, c.1)

  unfoldable pub instance_column :
      GpuConstraintSystem F → GpuColumn GpuInstance × GpuConstraintSystem F
  instance_column s = (
    record { index = s.num_instance_columns; column_type = the_instance },
    record s { num_instance_columns = s.num_instance_columns + 1 },
  )

  -- True where it does not panic.
  unfoldable pub assert_phase_exists : GpuConstraintSystem F → Phase → Bool
  assert_phase_exists s phase = contains s.advice_column_phase phase

  abbrev pub previous_exists : GpuConstraintSystem F → Option Phase → Bool
  previous_exists s none = true
  previous_exists s (some p) = assert_phase_exists s p

  unfoldable pub advice_column_in :
      GpuConstraintSystem F → Phase → Option (GpuColumn GpuAdvice × GpuConstraintSystem F)
  advice_column_in s phase =
      if previous_exists s (prev phase)
      then some (
        record { index = s.num_advice_columns; column_type = record { phase = phase } },
        record s {
          num_advice_columns = s.num_advice_columns + 1;
          num_advice_queries = s.num_advice_queries ++ 0 ∷ [];
          advice_column_phase = s.advice_column_phase ++ phase ∷ [];
        },
      )
      else none

  unfoldable pub advice_column :
      GpuConstraintSystem F → Option (GpuColumn GpuAdvice × GpuConstraintSystem F)
  advice_column s = advice_column_in s 0

  unfoldable pub challenge_usable_after :
      GpuConstraintSystem F → Phase → Option (GpuChallenge × GpuConstraintSystem F)
  challenge_usable_after s phase =
      if assert_phase_exists s phase
      then some (
        record { index = s.num_challenges; phase = phase },
        record s {
          num_challenges = s.num_challenges + 1;
          challenge_phase = s.challenge_phase ++ phase ∷ [];
        },
      )
      else none

  unfoldable pub phases : GpuConstraintSystem F → List Phase
  phases s = phases_from 0 (unwrap_or (maximum s.advice_column_phase) 0 + 1)
