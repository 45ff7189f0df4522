-- ===== src/Evaluation/Readable.antt =====
-- halo2_proofs/src/plonk/evaluation.rs: where the simple evaluation of an expression has a value,
-- and which one.
use halo2_gpu.Common.{
  ℕ, zero, suc, ◌≤◌, ◌<◌, ◌+◌, ◌≡◌, refl, some, List, [], ◌∷◌, length, map, get_elem?, arith,
}
use halo2_gpu.Common.Int.{ℤ, ◌+ℤ◌, ◌*ℤ◌, pos, rem_euclid-lt}
use halo2_gpu.Common.Grid.{get_elem?-some}
use halo2_gpu.Field.{Field}
use halo2_gpu.Field.Laws.{unwrap_or}
use halo2_gpu.Circuit.{Rotation}
use halo2_gpu.Circuit.Expression.{
  GpuExpression, constant, selector, fixed, advice, instance_query, challenge, negated, sum,
  product, scaled,
}
use halo2_gpu.Circuit.Expression.Replace.{IsConcrete, AllConcrete}
use halo2_gpu.Circuit.Expression.Value.{Row, value}
use halo2_gpu.Circuit.System.Valid.{AllOf}
use halo2_gpu.Evaluation.Run.{Inputs, read_cell, get_rotation_idx, evaluate_simple}
use halo2_gpu.Evaluation.Compress.{evaluate_all}

module _ {ℓ} {F : Type ℓ} (inputs : Inputs F) where
  -- The expression has no selector, and its columns and challenges exist.
  abbrev pub IsReadable : GpuExpression F → Type 0
  IsReadable (selector s) = ⊥
  IsReadable (fixed q) = q.column_index < length inputs.fixed
  IsReadable (advice q) = q.column_index < length inputs.advice
  IsReadable (instance_query q) = q.column_index < length inputs.instance_values
  IsReadable (challenge q) = q.index < length inputs.challenges
  IsReadable (negated a) = IsReadable a
  IsReadable (sum a b) = IsReadable a × IsReadable b
  IsReadable (product a b) = IsReadable a × IsReadable b
  IsReadable (scaled a k) = IsReadable a
  IsReadable _ = Unit

  -- All columns have the given size, which is not zero.
  abbrev pub HasSize : ℕ → Type 0
  HasSize isize =
      (1 ≤ isize)
      × AllOf (λ column. length column ≡ isize) inputs.fixed
      × AllOf (λ column. length column ≡ isize) inputs.advice
      × AllOf (λ column. length column ≡ isize) inputs.instance_values

  readable-IsConcrete : (e : GpuExpression F) → IsReadable e → IsConcrete e
  readable-IsConcrete (selector s) h = h
  readable-IsConcrete (negated a) h = readable-IsConcrete a h
  readable-IsConcrete (sum a b) h = (readable-IsConcrete a h.0, readable-IsConcrete b h.1)
  readable-IsConcrete (product a b) h = (readable-IsConcrete a h.0, readable-IsConcrete b h.1)
  readable-IsConcrete (scaled a k) h = readable-IsConcrete a h
  readable-IsConcrete _ h = tt

  pub readable-AllConcrete : (es : List (GpuExpression F)) → AllOf IsReadable es → AllConcrete es
  readable-AllConcrete [] h = tt
  readable-AllConcrete (e ∷ es) h = (readable-IsConcrete e h.0, readable-AllConcrete es h.1)

module _ {ℓ} {F : Type ℓ} ⦃f : Field F⦄ where
  read_cell_lem :
      (table : List (List F)) (size column row : ℕ)
      → AllOf (λ values. length values ≡ size) table
      → row < size
      → column < length table
      → read_cell table column row ≡ some (unwrap_or (read_cell table column row) f.zero)
  read_cell_lem [] size column row h r c = absurd (omega arith)
  read_cell_lem (values ∷ table) size zero row h r c =
      let (x, p) = get_elem?-some values row (omega (arith, h.0)) in rw (p)
  read_cell_lem (values ∷ table) size (suc column) row h r c =
      read_cell_lem table size column row h.1 r (omega arith)

  module _ (inputs : Inputs F) (idx : ℕ) (rot_scale : ℤ) (isize : ℕ) where
    -- The cell of a column at a rotation.
    abbrev cell : List (List F) → ℕ → Rotation → F
    cell table column rotation =
        unwrap_or (read_cell table column (get_rotation_idx idx rotation rot_scale isize)) f.zero

    -- What the queries read at the index `idx`.
    abbrev pub row_at : Row F
    row_at = record {
      selector = λ s. f.zero;
      fixed = λ q. cell inputs.fixed q.column_index q.rotation;
      advice = λ q. cell inputs.advice q.column_index q.rotation;
      instance_query = λ q. cell inputs.instance_values q.column_index q.rotation;
      challenge = λ q. unwrap_or (get_elem? inputs.challenges q.index) f.zero;
    }

    module _ (size : HasSize inputs isize) where
      in_column : (rotation : Rotation) → get_rotation_idx idx rotation rot_scale isize < isize
      unfolding get_rotation_idx
      in_column rotation = rem_euclid-lt (pos idx +ℤ rotation *ℤ rot_scale) isize size.0

      evaluate_simple-value :
          (e : GpuExpression F)
          → IsReadable inputs e
          → evaluate_simple inputs idx rot_scale isize e ≡ some (value row_at e)
      unfolding evaluate_simple value
      evaluate_simple-value (constant k) h = refl
      evaluate_simple-value (selector s) h = elim h [ ]
      evaluate_simple-value (fixed q) h =
          read_cell_lem inputs.fixed isize q.column_index _ size.1 (in_column q.rotation) h
      evaluate_simple-value (advice q) h =
          read_cell_lem inputs.advice isize q.column_index _ size.2 (in_column q.rotation) h
      evaluate_simple-value (instance_query q) h =
          read_cell_lem inputs.instance_values isize q.column_index _ size.3 (in_column q.rotation)
            h
      evaluate_simple-value (challenge q) h =
          let (x, p) = get_elem?-some inputs.challenges q.index h in rw (p)
      evaluate_simple-value (negated a) h = rw (evaluate_simple-value a h)
      evaluate_simple-value (sum a b) h =
          rw (evaluate_simple-value a h.0, evaluate_simple-value b h.1)
      evaluate_simple-value (product a b) h =
          rw (evaluate_simple-value a h.0, evaluate_simple-value b h.1)
      evaluate_simple-value (scaled a k) h = rw (evaluate_simple-value a h)

      pub evaluate_all-value :
          (es : List (GpuExpression F))
          → AllOf (IsReadable inputs) es
          → evaluate_all inputs idx rot_scale isize es ≡ some (map (value row_at) es)
      evaluate_all-value [] h = refl
      evaluate_all-value (e ∷ es) h = rw (evaluate_simple-value e h.0, evaluate_all-value es h.1)

  module _ (inputs : Inputs F) (rot_scale : ℤ) (size : ℕ) (e : GpuExpression F)
      (sized : HasSize inputs size) (readable : IsReadable inputs e) where
    -- A list of the values at the rows from `idx` on.
    HoldsValues : ℕ → List F → Type ℓ
    HoldsValues idx vs =
        (i : ℕ)
        → i < length vs
        → get_elem? vs i ≡ some (value (row_at inputs (idx + i) rot_scale size) e)
