-- ===== src/Evaluation/Run.antt =====
-- halo2_proofs/src/plonk/evaluation.rs: `get_rotation_idx`, `ValueSource::get`,
-- `Calculation::evaluate` and `GraphEvaluator::evaluate`, and the simple evaluation of an
-- expression. None is the panic of an index out of range.
use halo2_gpu.Common.{ℕ, zero, suc, Option, none, some, List, [], ◌∷◌, length, get_elem?, ◌>>=◌}
use halo2_gpu.Common.Int.{ℤ, pos, ◌+ℤ◌, ◌*ℤ◌, rem_euclid}
use halo2_gpu.Field.{Field, ◌⊕◌, ◌⊖◌, ◌⊗◌}
use halo2_gpu.Circuit.{Rotation}
use halo2_gpu.Circuit.Expression.{GpuExpression, Closures}
use halo2_gpu.Circuit.Expression
use halo2_gpu.Evaluation.{ValueSource, Calculation, CalculationInfo, GraphEvaluator}

-- The index in a polynomial of size `isize` after a rotation. The size is not zero, where the
-- source panics.
unfoldable pub get_rotation_idx : ℕ → Rotation → ℤ → ℕ → ℕ
get_rotation_idx idx rot rot_scale isize = rem_euclid (pos idx +ℤ rot *ℤ rot_scale) isize

-- What an evaluation reads: the columns, the challenges and the special values.
pub record Inputs {ℓ} (F : Type ℓ) : Type ℓ where
  pub fixed : List (List F)
  pub advice : List (List F)
  pub instance_values : List (List F)
  pub challenges : List F
  pub beta : F
  pub gamma : F
  pub theta : F
  pub y : F
  pub previous_value : F

-- `EvaluationData`
pub record EvaluationData {ℓ} (F : Type ℓ) : Type ℓ where
  pub intermediates : List F
  pub rotations : List ℕ

-- `table[column][row]`
abbrev pub read_cell {ℓ} : {F : Type ℓ} → List (List F) → ℕ → ℕ → Option F
read_cell table column row = get_elem? table column >>= λ values. get_elem? values row

-- `v[i] = x`, which panics out of range.
abbrev pub write {ℓ} : {A : Type ℓ} → List A → ℕ → A → Option (List A)
write [] i x = none
write (a ∷ as') zero x = some (x ∷ as')
write (a ∷ as') (suc i) x = write as' i x >>= λ rest. some (a ∷ rest)

abbrev pub replicate {ℓ} : {A : Type ℓ} → ℕ → A → List A
replicate zero x = []
replicate (suc n) x = x ∷ replicate n x

module _ {ℓ} {F : Type ℓ} (inputs : Inputs F) where
  -- A cell at a rotation that is given by its position in the list of rotations.
  abbrev pub rotated : List (List F) → List ℕ → ℕ → ℕ → Option F
  rotated table rotations column rotation =
      get_elem? rotations rotation >>= λ row. read_cell table column row

  unfoldable pub get : List ℕ → List F → List F → ValueSource → Option F
  get rotations constants intermediates (ValueSource.constant i) = get_elem? constants i
  get rotations constants intermediates (ValueSource.intermediate i) = get_elem? intermediates i
  get rotations constants intermediates (ValueSource.fixed c r) = rotated inputs.fixed rotations c r
  get rotations constants intermediates (ValueSource.advice c r) =
      rotated inputs.advice rotations c r
  get rotations constants intermediates (ValueSource.instance_query c r) =
      rotated inputs.instance_values rotations c r
  get rotations constants intermediates (ValueSource.challenge i) = get_elem? inputs.challenges i
  get rotations constants intermediates ValueSource.beta = some inputs.beta
  get rotations constants intermediates ValueSource.gamma = some inputs.gamma
  get rotations constants intermediates ValueSource.theta = some inputs.theta
  get rotations constants intermediates ValueSource.y = some inputs.y
  get rotations constants intermediates ValueSource.previous_value = some inputs.previous_value

module _ {ℓ} {F : Type ℓ} ⦃f : Field F⦄ where
  -- `for part in parts { value = value * factor + get_value(part) }`
  abbrev pub horner_loop : (ValueSource → Option F) → F → List ValueSource → F → Option F
  horner_loop get_value factor [] value = some value
  horner_loop get_value factor (part ∷ parts) value = do
    p ← get_value part
    horner_loop get_value factor parts (value ⊗ factor ⊕ p)

  -- `Calculation::evaluate`, over `get_value`.
  unfoldable pub evaluate_calculation : (ValueSource → Option F) → Calculation → Option F
  evaluate_calculation get_value (Calculation.add a b) = do
    x ← get_value a
    z ← get_value b
    some (x ⊕ z)
  evaluate_calculation get_value (Calculation.sub a b) = do
    x ← get_value a
    z ← get_value b
    some (x ⊖ z)
  evaluate_calculation get_value (Calculation.mul a b) = do
    x ← get_value a
    z ← get_value b
    some (x ⊗ z)
  evaluate_calculation get_value (Calculation.square v) = do x ← get_value v; some (f.square x)
  evaluate_calculation get_value (Calculation.double v) = do x ← get_value v; some (f.double x)
  evaluate_calculation get_value (Calculation.negate v) = do x ← get_value v; some (f.neg x)
  evaluate_calculation get_value (Calculation.horner start parts factor) = do
    k ← get_value factor
    x ← get_value start
    horner_loop get_value k parts x
  evaluate_calculation get_value (Calculation.store v) = get_value v

module _ {ℓ} {F : Type ℓ} ⦃f : Field F⦄ (inputs : Inputs F) (idx : ℕ) (rot_scale : ℤ)
    (isize : ℕ) where
  -- `GraphEvaluator::instance`
  unfoldable pub instance_data : GraphEvaluator F → EvaluationData F
  instance_data g = record {
    intermediates = replicate g.num_intermediates f.zero;
    rotations = replicate (length g.rotations) 0;
  }

  -- The loop over the rotations, which writes the data's rotations in order.
  abbrev pub fill_rotations : List Rotation → List ℕ → Option (List ℕ)
  fill_rotations [] slots = some slots
  fill_rotations (r ∷ rs) [] = none
  fill_rotations (r ∷ rs) (slot ∷ slots) = do
    rest ← fill_rotations rs slots
    some (get_rotation_idx idx r rot_scale isize ∷ rest)

  -- The loop over the calculations, which writes each value at its target.
  unfoldable pub run_calculations :
      List ℕ → List F → List CalculationInfo → List F → Option (List F)
  run_calculations rotations constants [] intermediates = some intermediates
  run_calculations rotations constants (info ∷ infos) intermediates = do
    v ← evaluate_calculation (get inputs rotations constants intermediates) info.calculation
    next ← write intermediates info.target v
    run_calculations rotations constants infos next

  -- `calculations.last()`, and zero if there is none.
  abbrev pub last_value : List CalculationInfo → List F → Option F
  last_value [] intermediates = some f.zero
  last_value (info ∷ []) intermediates = get_elem? intermediates info.target
  last_value (info ∷ next ∷ infos) intermediates = last_value (next ∷ infos) intermediates

  -- `GraphEvaluator::evaluate`
  unfoldable pub evaluate_graph : GraphEvaluator F → EvaluationData F → Option F
  evaluate_graph g d = do
    rotations ← fill_rotations g.rotations d.rotations
    intermediates ← run_calculations rotations g.constants g.calculations d.intermediates
    last_value g.calculations intermediates

  -- `evaluate`, the simple evaluation of an expression at the row `idx`.
  unfoldable pub evaluate_simple : GpuExpression F → Option F
  unfolding Expression.evaluate
  evaluate_simple = Expression.evaluate (record {
    constant = λ k. some k;
    selector_column = λ _. none;
    fixed_column = λ q.
        read_cell inputs.fixed q.column_index (get_rotation_idx idx q.rotation rot_scale isize);
    advice_column = λ q.
        read_cell inputs.advice q.column_index (get_rotation_idx idx q.rotation rot_scale isize);
    instance_column = λ q.
        read_cell inputs.instance_values q.column_index
          (get_rotation_idx idx q.rotation rot_scale isize);
    challenge = λ q. get_elem? inputs.challenges q.index;
    negated = λ a. (do x ← a; some (f.neg x));
    sum = λ a b. (do x ← a; z ← b; some (x ⊕ z));
    product = λ a b. (do x ← a; z ← b; some (x ⊗ z));
    scaled = λ a k. (do x ← a; some (x ⊗ k));
  })

-- `evaluate`: the simple evaluation at all rows. The chunks of `parallelize` are disjoint and each
-- row is written once, so the rows are taken in order.
module _ {ℓ} {F : Type ℓ} ⦃f : Field F⦄ (inputs : Inputs F) (rot_scale : ℤ) (size : ℕ)
    (e : GpuExpression F) where
  -- The `n` rows from `idx` on.
  abbrev pub evaluate_from : ℕ → ℕ → Option (List F)
  evaluate_from idx zero = some []
  evaluate_from idx (suc n) = do
    v ← evaluate_simple inputs idx rot_scale size e
    vs ← evaluate_from (suc idx) n
    some (v ∷ vs)

  unfoldable pub evaluate_vector : Option (List F)
  evaluate_vector = evaluate_from 0 size
