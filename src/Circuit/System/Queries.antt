-- ===== src/Circuit/System/Queries.antt =====
-- halo2_proofs/src/plonk/circuit.rs: the lists of queries of a constraint system, the index that a
-- query has in them, and the backfilling of indices into an expression.
use halo2_gpu.Common.{
  ℕ, suc, zero, ◌+◌, ◌==◌, ◌&&◌, Bool, Option, none, some, List, [], ◌∷◌, ◌++◌, length, ◌>>=◌,
  if◌then◌else◌,
}
use halo2_gpu.Common.Count.{Eq, ◌≟◌, position}
use halo2_gpu.Circuit.{Rotation, GpuFixedQuery, GpuAdviceQuery, GpuInstanceQuery}
use halo2_gpu.Circuit.Expression.{
  GpuExpression, constant, selector, fixed, advice, instance_query, challenge, negated, sum,
  product, scaled,
}
use halo2_gpu.Circuit.Column.{
  GpuColumn, GpuAny, any_advice, any_fixed, any_instance, GpuAdvice, GpuFixed, GpuInstance,
  try_advice, try_fixed, try_instance,
}
use halo2_gpu.Circuit.Column.Equal.{
  nat_eq, rotation_eq, pair_eq, advice_eq, fixed_eq, instance_eq, column_eq,
}
use halo2_gpu.Circuit.System.{Query, GpuConstraintSystem}

-- The index of a query, which is appended where it is new.
abbrev pub found_or_pushed {ℓ} :
    {C : Type ℓ} → List (Query C) → Query C → Option ℕ → ℕ × List (Query C)
found_or_pushed qs q (some i) = (i, qs)
found_or_pushed qs q none = (length qs, qs ++ q ∷ [])

abbrev pub query_index {ℓ} : {C : Type ℓ} ⦃e : Eq C⦄ → List (Query C) → Query C → ℕ × List (Query C)
query_index qs q = found_or_pushed qs q (position qs q)

-- `vec[i] += 1`
abbrev pub increment : List ℕ → ℕ → Option (List ℕ)
increment [] i = none
increment (n ∷ ns) zero = some ((n + 1) ∷ ns)
increment (n ∷ ns) (suc i) = increment ns i >>= λ ms. some (n ∷ ms)

module _ {ℓ} {F : Type ℓ} where
  unfoldable pub query_fixed_index :
      GpuConstraintSystem F → GpuColumn GpuFixed → Rotation → ℕ × GpuConstraintSystem F
  query_fixed_index s column at =
      let r = query_index s.fixed_queries (column, at) in (r.0, record s { fixed_queries = r.1 })

  abbrev pub register_advice :
      GpuConstraintSystem F → Query GpuAdvice → Option ℕ → Option (ℕ × GpuConstraintSystem F)
  register_advice s q (some i) = some (i, s)
  register_advice s q none = do
    counts ← increment s.num_advice_queries q.0.index
    some (
      length s.advice_queries,
      record s { advice_queries = s.advice_queries ++ q ∷ []; num_advice_queries = counts },
    )

  unfoldable pub query_advice_index :
      GpuConstraintSystem F → GpuColumn GpuAdvice → Rotation → Option (ℕ × GpuConstraintSystem F)
  query_advice_index s column at =
      register_advice s (column, at) (position s.advice_queries (column, at))

  unfoldable pub query_instance_index :
      GpuConstraintSystem F → GpuColumn GpuInstance → Rotation → ℕ × GpuConstraintSystem F
  query_instance_index s column at =
      let r = query_index s.instance_queries (column, at) in
      (r.0, record s { instance_queries = r.1 })

  abbrev pub query_as :
      GpuAny
      → GpuConstraintSystem F
      → GpuColumn GpuAny
      → Rotation
      → Option (ℕ × GpuConstraintSystem F)
  query_as (any_advice _) s column at = try_advice column >>= λ c. query_advice_index s c at
  query_as any_fixed s column at = try_fixed column >>= λ c. some (query_fixed_index s c at)
  query_as any_instance s column at =
      try_instance column >>= λ c. some (query_instance_index s c at)

  unfoldable pub query_any_index :
      GpuConstraintSystem F → GpuColumn GpuAny → Rotation → Option (ℕ × GpuConstraintSystem F)
  query_any_index s column at = query_as column.column_type s column at

  unfoldable pub get_advice_query_index :
      GpuConstraintSystem F → GpuColumn GpuAdvice → Rotation → Option ℕ
  get_advice_query_index s column at = position s.advice_queries (column, at)

  unfoldable pub get_fixed_query_index :
      GpuConstraintSystem F → GpuColumn GpuFixed → Rotation → Option ℕ
  get_fixed_query_index s column at = position s.fixed_queries (column, at)

  unfoldable pub get_instance_query_index :
      GpuConstraintSystem F → GpuColumn GpuInstance → Rotation → Option ℕ
  get_instance_query_index s column at = position s.instance_queries (column, at)

  abbrev pub get_as : GpuAny → GpuConstraintSystem F → GpuColumn GpuAny → Rotation → Option ℕ
  get_as (any_advice _) s column at = try_advice column >>= λ c. get_advice_query_index s c at
  get_as any_fixed s column at = try_fixed column >>= λ c. get_fixed_query_index s c at
  get_as any_instance s column at = try_instance column >>= λ c. get_instance_query_index s c at

  unfoldable pub get_any_query_index :
      GpuConstraintSystem F → GpuColumn GpuAny → Rotation → Option ℕ
  get_any_query_index s column at = get_as column.column_type s column at

-- `iter().position` with a test
abbrev pub position_by {ℓ} : {A : Type ℓ} → (A → Bool) → List A → Option ℕ
position_by p [] = none
position_by p (x ∷ xs) = if p x then some 0 else (position_by p xs >>= λ i. some (suc i))

abbrev pub is_fixed : GpuFixedQuery → Query GpuFixed → Bool
is_fixed q r = r.0.index == q.column_index && r.1 ≟ q.rotation

abbrev pub is_advice : GpuAdviceQuery → Query GpuAdvice → Bool
is_advice q r =
    r.0.index == q.column_index && (r.0.column_type.phase == q.phase && r.1 ≟ q.rotation)

abbrev pub is_instance : GpuInstanceQuery → Query GpuInstance → Bool
is_instance q r = r.0.index == q.column_index && r.1 ≟ q.rotation

module _ {ℓ} {F : Type ℓ} (fixed_queries : List (Query GpuFixed))
    (advice_queries : List (Query GpuAdvice)) (instance_queries : List (Query GpuInstance)) where
  unfoldable pub assign_expr_query_indices : GpuExpression F → Option (GpuExpression F)
  assign_expr_query_indices (fixed q) = do
    i ← position_by (is_fixed q) fixed_queries
    some (fixed (record q { index = some i }))
  assign_expr_query_indices (advice q) = do
    i ← position_by (is_advice q) advice_queries
    some (advice (record q { index = some i }))
  assign_expr_query_indices (instance_query q) = do
    i ← position_by (is_instance q) instance_queries
    some (instance_query (record q { index = some i }))
  assign_expr_query_indices (negated a) = do x ← assign_expr_query_indices a; some (negated x)
  assign_expr_query_indices (sum a b) = do
    x ← assign_expr_query_indices a
    y ← assign_expr_query_indices b
    some (sum x y)
  assign_expr_query_indices (product a b) = do
    x ← assign_expr_query_indices a
    y ← assign_expr_query_indices b
    some (product x y)
  assign_expr_query_indices (scaled a k) = do x ← assign_expr_query_indices a; some (scaled x k)
  assign_expr_query_indices (constant k) = some (constant k)
  assign_expr_query_indices (selector s) = some (selector s)
  assign_expr_query_indices (challenge c) = some (challenge c)
