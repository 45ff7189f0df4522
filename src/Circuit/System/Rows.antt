-- ===== src/Circuit/System/Rows.antt =====
-- halo2_proofs/src/plonk/circuit.rs: the degree of a constraint system, and the rows that it needs.
-- The environment's variable MAX_DEGREE is an argument: none where it is not set, some none where
-- it is not a number.
use halo2_gpu.Common.{ℕ, ◌+◌, max, min, Option, none, some, List, [], ◌∷◌, ◌++◌, map, ◌>>=◌}
use halo2_gpu.Circuit.Expression.{degree as expression_degree}
use halo2_gpu.Circuit.System.{GpuConstraintSystem, GpuGate}
use halo2_gpu.Circuit.System.Allocate.{maximum, unwrap_or}
use halo2_gpu.Lookup.{Argument, required_degree as lookup_degree}
use halo2_gpu.Permutation.Argument.{required_degree as permutation_degree}

abbrev pub Variable : Type 0
Variable = Option (Option ℕ)

abbrev pub get_max_degree : Variable → Option ℕ
get_max_degree none = some 5
get_max_degree (some parsed) = parsed

module _ {ℓ} {F : Type ℓ} where
  abbrev pub lookup_degrees : List (Argument F) → Option (List ℕ)
  lookup_degrees [] = some []
  lookup_degrees (l ∷ ls) = do d ← lookup_degree l; ds ← lookup_degrees ls; some (d ∷ ds)

  -- The degrees of the polynomials of the gates, in order.
  abbrev pub gate_degrees : List (GpuGate F) → List ℕ
  gate_degrees [] = []
  gate_degrees (g ∷ gs) = map expression_degree g.polys ++ gate_degrees gs

  unfoldable pub degree : Variable → GpuConstraintSystem F → Option ℕ
  degree var s = do
    lookups ← lookup_degrees s.lookups
    let needed = max permutation_degree (unwrap_or (maximum lookups) 1)
    let all = max needed (unwrap_or (maximum (gate_degrees s.gates)) 0)
    cap ← get_max_degree var
    some (max (min all cap) (unwrap_or s.minimum_degree 1))

  unfoldable pub set_minimum_degree : GpuConstraintSystem F → ℕ → GpuConstraintSystem F
  set_minimum_degree s degree = record s { minimum_degree = some degree }

  unfoldable pub blinding_factors : GpuConstraintSystem F → ℕ
  blinding_factors s = max 3 (unwrap_or (maximum s.num_advice_queries) 1) + 1 + 1

  unfoldable pub minimum_rows : GpuConstraintSystem F → ℕ
  minimum_rows s = blinding_factors s + 1 + 1 + 1
