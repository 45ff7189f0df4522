-- ===== src/Lookup.antt =====
-- halo2_proofs/src/plonk/lookup.rs: the lookup argument. Its name is left out.
use halo2_gpu.Common.{
  ℕ, ◌+◌, max, Option, none, some, List, [], ◌∷◌, length, map, ◌==◌, if◌then◌else◌,
}
use halo2_gpu.Circuit.Expression.{GpuExpression, degree}

pub record Argument {ℓ} (F : Type ℓ) : Type ℓ where
  pub input_expressions : List (GpuExpression F)
  pub table_expressions : List (GpuExpression F)

module _ {ℓ} {F : Type ℓ} where
  unfoldable pub new : List (GpuExpression F × GpuExpression F) → Argument F
  new table_map = record {
    input_expressions = map (λ p. p.0) table_map;
    table_expressions = map (λ p. p.1) table_map;
  }

  -- The loops over the expressions, from the degree so far.
  abbrev pub max_degree : ℕ → List (GpuExpression F) → ℕ
  max_degree d [] = d
  max_degree d (e ∷ es) = max_degree (max d (degree e)) es

  -- None is the assertion that there are as many inputs as table expressions.
  unfoldable pub required_degree : Argument F → Option ℕ
  required_degree a =
      if length a.input_expressions == length a.table_expressions
      then some (max 4 (2 + max_degree 1 a.input_expressions + max_degree 1 a.table_expressions))
      else none
