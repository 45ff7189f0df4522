-- ===== src/Circuit/CompressSelectors/Process.antt =====
-- halo2_proofs/src/plonk/circuit/compress_selectors.rs: `process` as a whole.
use halo2_gpu.Common.{
  ℕ, zero, suc, ◌+◌, ◌≡◌, ◌≢◌, refl, sym, ◌∙◌, Bool, true, false, ◌==◌, Option, none, some, List,
  [], ◌∷◌, ◌++◌, if◌then◌else◌, Bool-cases, inl, inr, ◌<◌, arith, length, subst, map,
}
use halo2_gpu.Field.{Field}
use halo2_gpu.Circuit.Expression.{GpuExpression, contains_simple_selector}
use halo2_gpu.Circuit.Expression.Value.{Row, value}
use halo2_gpu.Circuit.CompressSelectors.{
  SelectorDescription, SelectorAssignment, emit_complex, indicator, process, same_length,
}
use halo2_gpu.Circuit.CompressSelectors.Group.{AllWithin, count}
use halo2_gpu.Circuit.CompressSelectors.Partition.{combinations_total}
use halo2_gpu.Circuit.CompressSelectors.Root.{roots}
use halo2_gpu.Circuit.CompressSelectors.Rows.{is_active, read, AllDistinct}
use halo2_gpu.Circuit.CompressSelectors.Columns.{
  AllAtMost, ColumnsRead, AllReplace, AllReplace-append, ColumnsRead-append, emit_combinations_lem,
  concat, count-append, count-concat,
}

-- The selectors of degree zero, which are complex or in no gate.
abbrev pub complex : List SelectorDescription → List SelectorDescription
complex [] = []
complex (s ∷ ss) = if s.max_degree == 0 then s ∷ complex ss else complex ss

abbrev pub is_same : List SelectorDescription → Bool
is_same [] = true
is_same (s ∷ ss) = same_length (length s.activations) (s ∷ ss)

abbrev pub rows_of : List SelectorDescription → ℕ
rows_of [] = 0
rows_of (s ∷ ss) = length s.activations

module _ {ℓ} {F : Type ℓ} ⦃f : Field F⦄ where
  read-indicator :
      (bs : List Bool) (i : ℕ)
      → read (map (indicator {F = F}) bs) i ≡ (if is_active bs i then f.one else f.zero)
  read-indicator [] i = refl
  read-indicator (b ∷ bs) zero = refl
  read-indicator (b ∷ bs) (suc i) = read-indicator bs i

  indicator_value :
      (v : F) (b : Bool)
      → v ≡ (if b then f.one else f.zero)
      → (b ≡ false → v ≡ f.zero) × (b ≡ true → v ≢ f.zero)
  indicator_value v true h = ((λ t. cc), (λ _ p. f.one≢zero (sym h ∙ p)))
  indicator_value v false h = ((λ _. h), (λ t. absurd (cc)))

  module _ (column : ℕ → GpuExpression F) (r : Row F) (i : ℕ) where
    emit_complex-AllReplace :
        (index : ℕ) (ss : List SelectorDescription)
        → ColumnsRead column r i index (emit_complex column index ss).0
        → AllReplace r i (complex ss) (emit_complex column index ss).1
    unfolding emit_complex
    emit_complex-AllReplace index [] = λ h. tt
    emit_complex-AllReplace index (s ∷ ss) = elim (Bool-cases (s.max_degree == 0)) [
      | inl t ↦ rw (t) (λ h.
          (let (z, o) =
              indicator_value (value r (column index)) (is_active s.activations i)
                (h.0 ∙ read-indicator s.activations i) in
            (refl, z, o, emit_complex-AllReplace (index + 1) ss h.1)))
      | inr e ↦ rw (e) (emit_complex-AllReplace index ss)
    ]

  module _ (column : ℕ → GpuExpression F) where
    pub emit_complex-count :
        (p : SelectorDescription → Bool) (index : ℕ) (ss : List SelectorDescription)
        → count p (complex ss) + count p (emit_complex column index ss).2 ≡ count p ss
    unfolding emit_complex
    emit_complex-count p index [] = refl
    emit_complex-count p index (s ∷ ss) = elim (Bool-cases (s.max_degree == 0)) [
      | inl t ↦ rw (t) (omega (arith, emit_complex-count p (index + 1) ss))
      | inr e ↦ rw (e) (omega (arith, emit_complex-count p index ss))
    ]

    pub emit_complex-AllWithin :
        (max_degree index : ℕ) (ss : List SelectorDescription)
        → AllAtMost max_degree ss
        → AllWithin max_degree (emit_complex column index ss).2
    unfolding emit_complex
    emit_complex-AllWithin max_degree index [] h = tt
    emit_complex-AllWithin max_degree index (s ∷ ss) h = elim (Bool-cases (s.max_degree == 0)) [
      | inl t ↦ rw (t) (emit_complex-AllWithin max_degree (index + 1) ss h.1)
      | inr e ↦ rw (e) (ground arith, h.0, emit_complex-AllWithin max_degree index ss h.1)
    ]

  abbrev pub columns_of : Option (List (List F) × List (SelectorAssignment F)) → List (List F)
  columns_of none = []
  columns_of (some e) = e.0

  -- If all selectors have as many rows, no gate is above `max_degree`, the allocated queries have
  -- no simple selector, and 0, 1, …, `max_degree` are different in the field, the code fails no
  -- assertion. The assignments are for the given selectors, each once, in some order. At every
  -- row at which the queries read the returned columns, the expression assigned to a selector is
  -- zero if the selector is not active on the row, and not zero if it is.
  pub process-reads :
      (ss : List SelectorDescription) (max_degree : ℕ) (column : ℕ → GpuExpression F) (r : Row F)
      (i : ℕ)
      → is_same ss ≡ true
      → AllAtMost max_degree ss
      → ((k : ℕ) → contains_simple_selector (column k) ≡ false)
      → AllDistinct (f.zero ∷ roots f.one max_degree)
      → i < rows_of ss
      → ColumnsRead column r i 0 (columns_of (process ss max_degree column))
      → (e : List (List F) × List (SelectorAssignment F)) × (process ss max_degree column ≡ some e)
        × (order : List SelectorDescription) × ((p : SelectorDescription → Bool)
            → count p order ≡ count p ss)
        × AllReplace r i order e.1
  unfolding process
  process-reads [] max_degree column r i n d q u b h = absurd (omega arith)
  process-reads (s ∷ rest) max_degree column r i n d q u b h =
      let ss : List SelectorDescription = s ∷ rest in
      let c = emit_complex column 0 ss in
      let (cs, p, a, m) =
        combinations_total max_degree c.2 (emit_complex-AllWithin column max_degree 0 ss d) in
      let (e, p', g) =
        emit_combinations_lem column q r i (length s.activations) max_degree b u (length c.0) cs
          a in
      let returned : process ss max_degree column ≡ some (c.0 ++ e.0, c.1 ++ e.1) = rw (n, p, p') in
      let (x, y) =
        ColumnsRead-append column r i 0 c.0 e.0
          (subst (λ o. ColumnsRead column r i 0 (columns_of o)) returned h) in
      let z : ColumnsRead column r i (length c.0) e.0 =
        subst (λ m. ColumnsRead column r i m e.0) (omega arith) y in
      (
        (c.0 ++ e.0, c.1 ++ e.1),
        returned,
        complex ss ++ concat cs,
        (λ t. omega (
          arith,
          count-append t (complex ss) (concat cs),
          count-concat t cs,
          m t,
          emit_complex-count column t 0 ss,
        )),
        AllReplace-append r i (complex ss) (concat cs) c.1 e.1
            (emit_complex-AllReplace column r i 0 ss x) (g z),
      )
