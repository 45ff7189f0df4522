-- ===== src/Evaluation/Build.antt =====
-- halo2_proofs/src/plonk/evaluation.rs: `add_expression`, which turns an expression into
-- calculations, and the graphs of `for_compress` and of the custom gates. None is `unreachable!`
-- on a virtual selector. The end of each arm is an `emit` function.
use halo2_gpu.Common.{ℕ, Bool, ◌||◌, Option, none, some, if◌then◌else◌, List, [], ◌∷◌, ◌++◌, ◌>>=◌}
use halo2_gpu.Field.{Field, ◌=?◌}
use halo2_gpu.Circuit.Expression.{
  GpuExpression, constant, selector, fixed, advice, instance_query, challenge, negated, sum,
  product, scaled,
}
use halo2_gpu.Circuit.System.{GpuGate}
use halo2_gpu.Evaluation.{
  ValueSource, Calculation, GraphEvaluator, source_eq, source_le, add_rotation, add_calculation,
  default_graph, add_constant,
}

-- `ValueSource::Constant(i)` for the constants at fixed positions.
abbrev pub is_constant : ℕ → ValueSource → Bool
is_constant i v = source_eq v (ValueSource.constant i)

module _ {ℓ} {F : Type ℓ} where
  -- A cell: its rotation first, then a `Store`.
  unfoldable pub store_cell :
      (ℕ → ValueSource) → ℕ × GraphEvaluator F → ValueSource × GraphEvaluator F
  store_cell cell (rot_idx, g) = add_calculation g (Calculation.store (cell rot_idx))

  unfoldable pub emit_negated : ValueSource → GraphEvaluator F → ValueSource × GraphEvaluator F
  emit_negated a g = if is_constant 0 a then (a, g) else add_calculation g (Calculation.negate a)

  unfoldable pub emit_difference :
      ValueSource → ValueSource → GraphEvaluator F → ValueSource × GraphEvaluator F
  emit_difference a b g =
      if is_constant 0 a
      then add_calculation g (Calculation.negate b)
      else if is_constant 0 b
      then (a, g)
      else add_calculation g (Calculation.sub a b)

  unfoldable pub emit_sum :
      ValueSource → ValueSource → GraphEvaluator F → ValueSource × GraphEvaluator F
  emit_sum a b g =
      if is_constant 0 a
      then (b, g)
      else if is_constant 0 b
      then (a, g)
      else if source_le a b
      then add_calculation g (Calculation.add a b)
      else add_calculation g (Calculation.add b a)

  unfoldable pub emit_product :
      ValueSource → ValueSource → GraphEvaluator F → ValueSource × GraphEvaluator F
  emit_product a b g =
      if is_constant 0 a || is_constant 0 b
      then (ValueSource.constant 0, g)
      else if is_constant 1 a
      then (b, g)
      else if is_constant 1 b
      then (a, g)
      else if is_constant 2 a
      then add_calculation g (Calculation.double b)
      else if is_constant 2 b
      then add_calculation g (Calculation.double a)
      else if source_eq a b
      then add_calculation g (Calculation.square a)
      else if source_le a b
      then add_calculation g (Calculation.mul a b)
      else add_calculation g (Calculation.mul b a)

module _ {ℓ} {F : Type ℓ} ⦃f : Field F⦄ where
  unfoldable pub add_expression :
      GpuExpression F → GraphEvaluator F → Option (ValueSource × GraphEvaluator F)
  add_expression (constant k) g = some (add_constant g k)
  add_expression (selector s) g = none
  add_expression (fixed q) g =
      some (store_cell (ValueSource.fixed q.column_index) (add_rotation g q.rotation))
  add_expression (advice q) g =
      some (store_cell (ValueSource.advice q.column_index) (add_rotation g q.rotation))
  add_expression (instance_query q) g =
      some (store_cell (ValueSource.instance_query q.column_index) (add_rotation g q.rotation))
  add_expression (challenge c) g =
      some (add_calculation g (Calculation.store (ValueSource.challenge c.index)))
  add_expression (negated (constant k)) g = some (add_constant g (f.neg k))
  add_expression (negated a) g = do (va, g₁) ← add_expression a g; some (emit_negated va g₁)
  add_expression (sum a (negated b)) g = do
    (va, g₁) ← add_expression a g
    (vb, g₂) ← add_expression b g₁
    some (emit_difference va vb g₂)
  add_expression (sum a b) g = do
    (va, g₁) ← add_expression a g
    (vb, g₂) ← add_expression b g₁
    some (emit_sum va vb g₂)
  add_expression (product a b) g = do
    (va, g₁) ← add_expression a g
    (vb, g₂) ← add_expression b g₁
    some (emit_product va vb g₂)
  add_expression (scaled a k) g =
      let plain = add_expression a g in
      let general : Option (ValueSource × GraphEvaluator F) =
        (let (vk, g₁) = add_constant g k in
          do (va, g₂) ← add_expression a g₁; some (add_calculation g₂ (Calculation.mul va vk))) in
      if k =? f.zero
      then some (ValueSource.constant 0, g)
      else if k =? f.one
      then plain
      else general

  -- The parts of a linear combination, from left to right.
  unfoldable pub add_expressions :
      List (GpuExpression F) → GraphEvaluator F → Option (List ValueSource × GraphEvaluator F)
  add_expressions [] g = some ([], g)
  add_expressions (e ∷ es) g = do
    (v, g₁) ← add_expression e g
    (vs, g₂) ← add_expressions es g₁
    some (v ∷ vs, g₂)

  -- `for_compress`: the Horner's factor is a placeholder that the kernel replaces by theta.
  unfoldable pub for_compress : List (GpuExpression F) → Option (GraphEvaluator F)
  for_compress es = do
    (parts, g) ← add_expressions es default_graph
    some (add_calculation g (Calculation.horner (ValueSource.constant 0) parts ValueSource.y)).1

  -- The loop over the gates: the parts of each are appended.
  unfoldable pub add_gates :
      List (GpuGate F) → GraphEvaluator F → Option (List ValueSource × GraphEvaluator F)
  add_gates [] g = some ([], g)
  add_gates (gate ∷ gates) g = do
    (vs, g₁) ← add_expressions gate.polys g
    (ws, g₂) ← add_gates gates g₁
    some (vs ++ ws, g₂)

  -- The custom gates of `Evaluator::new_inner`.
  unfoldable pub custom_gates : List (GpuGate F) → Option (GraphEvaluator F)
  custom_gates gates = do
    (parts, g) ← add_gates gates default_graph
    some (add_calculation g (Calculation.horner ValueSource.previous_value parts ValueSource.y)).1
