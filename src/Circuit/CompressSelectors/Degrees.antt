-- ===== src/Circuit/CompressSelectors/Degrees.antt =====
-- halo2_proofs/src/plonk/circuit/compress_selectors.rs: the degree of the expressions that
-- `process` emits.
use halo2_gpu.Common.{
  ℕ, zero, suc, ◌==◌, Bool, ◌+◌, ◌-◌, ◌≡◌, refl, sym, false, some, List, [], ◌∷◌, ◌++◌, Bool-cases,
  inl, inr, ◌≤◌, arith, length, subst,
}
use mathlib.Core.Option.{some-injective}
use cubical.Cubical.Data.Empty.Base.{⊥*}
use halo2_gpu.Field.{Field, ◌⊕◌, ◌=?◌}
use halo2_gpu.Field.Laws.{=?_refl}
use halo2_gpu.Circuit.Expression.{
  GpuExpression, constant, negated, sum, product, contains_simple_selector, degree,
}
use halo2_gpu.Circuit.CompressSelectors.{
  SelectorDescription, SelectorAssignment, root_product, emit_selectors, emit_combinations, zeros,
  assign_rows,
}
use halo2_gpu.Circuit.CompressSelectors.Group.{AllBounded, AllCombinations, count}
use halo2_gpu.Circuit.CompressSelectors.Root.{
  roots, In, sub_factor, mul_factor, simple_factor, root_product_lem,
}
use halo2_gpu.Circuit.CompressSelectors.Columns.{concat, count-append}

abbrev pub is_zero : SelectorDescription → Bool
is_zero s = s.max_degree == 0

module _ {ℓ} {F : Type ℓ} ⦃f : Field F⦄ where
  module _ (query : GpuExpression F) (q : contains_simple_selector query ≡ false)
      (l : degree query ≤ 1) (assigned : F) where
    factor_degree :
        (x : F) (e : GpuExpression F)
        → degree (product e (sum (constant x) (negated query))) ≤ degree e + 1
    unfolding degree
    factor_degree x e = omega (arith, l)

    degree-root_product :
        (root : F) (n : ℕ) (e e' : GpuExpression F)
        → root_product n query assigned root e ≡ some e'
        → degree e' ≤ degree e + n
    unfolding root_product
    degree-root_product root zero e e' =
        λ h. subst (λ x. degree x ≤ degree e + 0) (some-injective e e' h) (omega arith)
    degree-root_product root (suc n) e e' = elim (Bool-cases (root =? assigned)) [
      | inl t ↦ rw (t) (λ h. omega (arith, degree-root_product (root ⊕ f.one) n e e' h))
      | inr k ↦
          let y = sum (constant root) (negated query) in
          rw (k, sub_factor query root q, mul_factor e y (simple_factor query root q))
            (λ h. omega (
              arith,
              factor_degree root e,
              degree-root_product (root ⊕ f.one) n (product e y) e' h,
            ))
    ]

    degree-root_product-In :
        (root : F) (n : ℕ) (e e' : GpuExpression F)
        → In assigned (roots root n)
        → root_product n query assigned root e ≡ some e'
        → degree e' + 1 ≤ degree e + n
    unfolding root_product
    degree-root_product-In root zero e e' j = λ h. elim j.lower [ ]
    degree-root_product-In root (suc n) e e' (inl p) =
        rw (sym p, =?_refl assigned)
          (λ h. omega (arith, degree-root_product (assigned ⊕ f.one) n e e' h))
    degree-root_product-In root (suc n) e e' (inr j) = elim (Bool-cases (root =? assigned)) [
      | inl t ↦ rw (t) (λ h. omega (arith, degree-root_product (root ⊕ f.one) n e e' h))
      | inr k ↦
          let y = sum (constant root) (negated query) in
          rw (k, sub_factor query root q, mul_factor e y (simple_factor query root q))
            (λ h. omega (
              arith,
              factor_degree root e,
              degree-root_product-In (root ⊕ f.one) n (product e y) e' j h,
            ))
    ]

  -- Each selector's gates stay within the bound when its expression takes its place, and the
  -- expression of a selector of degree zero is at most linear.
  abbrev pub AllFit : ℕ → List SelectorDescription → List (SelectorAssignment F) → Type ℓ
  AllFit max_degree [] [] = Unit
  AllFit max_degree (s ∷ ss) (x ∷ xs) =
      (x.selector ≡ s.selector)
      × (s.max_degree - 1 + degree x.expression ≤ max_degree)
      × (s.max_degree ≡ 0 → degree x.expression ≤ 1)
      × AllFit max_degree ss xs
  AllFit max_degree _ _ = ⊥*

  pub AllFit-append :
      (max_degree : ℕ) (ss ts : List SelectorDescription) (xs ys : List (SelectorAssignment F))
      → AllFit max_degree ss xs
      → AllFit max_degree ts ys
      → AllFit max_degree (ss ++ ts) (xs ++ ys)
  AllFit-append m [] ts [] ys h k = k
  AllFit-append m [] ts (x ∷ xs) ys h k = elim h.lower [ ]
  AllFit-append m (s ∷ ss) ts [] ys h k = elim h.lower [ ]
  AllFit-append m (s ∷ ss) ts (x ∷ xs) ys h k = (h.0, h.1, h.2, AllFit-append m ss ts xs ys h.3 k)

  abbrev AllIn : List F → List F → Type ℓ
  AllIn [] ys = Unit
  AllIn (x ∷ xs) ys = In x ys × AllIn xs ys

  AllIn-cons : (y : F) (xs ys : List F) → AllIn xs ys → AllIn xs (y ∷ ys)
  AllIn-cons y [] ys h = tt
  AllIn-cons y (x ∷ xs) ys h = (inr h.0, AllIn-cons y xs ys h.1)

  AllIn-refl : (xs : List F) → AllIn xs xs
  AllIn-refl [] = tt
  AllIn-refl (x ∷ xs) = (inl refl, AllIn-cons x xs xs (AllIn-refl xs))

  emit_selectors-AllFit :
      (d len index : ℕ) (query : GpuExpression F) (a : F) (rows : List F)
      (ss : List SelectorDescription)
      → contains_simple_selector query ≡ false
      → degree query ≤ 1
      → AllBounded d ss
      → count is_zero ss ≡ 0
      → AllIn (roots a (length ss)) (roots f.one len)
      → (e : List F × List (SelectorAssignment F)) × (emit_selectors len index query a rows ss
          ≡ some e)
        × AllFit (d + len) ss e.1
  unfolding emit_selectors
  emit_selectors-AllFit d len index query a rows [] q l b z j = ((rows, []), refl, tt)
  emit_selectors-AllFit d len index query a rows (s ∷ ss) q l b z j =
      let (x, p, v) = root_product_lem query a f.one len query q in
      let g = degree-root_product-In query q l a f.one len query x j.0 p in
      let (e, p', h) =
        emit_selectors-AllFit d len index query (a ⊕ f.one) (assign_rows a rows s.activations) ss q
          l b.1 (ground arith) j.1 in
      rw (p, p') (_, refl, (refl, omega (arith, g, b.0, l), (λ e. absurd (ground arith)), h))

  AllFit-more :
      (m n : ℕ) (ss : List SelectorDescription) (xs : List (SelectorAssignment F))
      → m ≤ n
      → AllFit m ss xs
      → AllFit n ss xs
  AllFit-more m n [] [] h k = tt
  AllFit-more m n [] (x ∷ xs) h k = k
  AllFit-more m n (s ∷ ss) [] h k = k
  AllFit-more m n (s ∷ ss) (x ∷ xs) h k =
      (k.0, omega (arith, k.1), k.2, AllFit-more m n ss xs h k.3)

  pub emit_combinations-AllFit :
      (n max_degree : ℕ) (column : ℕ → GpuExpression F) (index : ℕ)
      (cs : List (List SelectorDescription))
      → ((k : ℕ) → contains_simple_selector (column k) ≡ false)
      → ((k : ℕ) → degree (column k) ≤ 1)
      → AllCombinations max_degree cs
      → count is_zero (concat cs) ≡ 0
      → (e : List (List F) × List (SelectorAssignment F)) × (emit_combinations n column index cs
          ≡ some e)
        × AllFit max_degree (concat cs) e.1
  unfolding emit_combinations
  emit_combinations-AllFit n max_degree column index [] q l h z = (([], []), refl, tt)
  emit_combinations-AllFit n max_degree column index (c ∷ cs) q l h z =
      let (_, rest) = h.0 in
      let (d, bs, m) = rest in
      let (e, p, g) =
        emit_selectors-AllFit d (length c) index (column index) f.one (zeros n) c (q index)
          (l index) bs (omega (arith, z, count-append is_zero c (concat cs)))
          (AllIn-refl (roots f.one (length c))) in
      let (e', p', g') =
        emit_combinations-AllFit n max_degree column (index + 1) cs q l h.1
          (omega (arith, z, count-append is_zero c (concat cs))) in
      rw (p, p')
        (
          _,
          refl,
          AllFit-append max_degree c (concat cs) e.1 e'.1
              (AllFit-more (d + length c) max_degree c e.1 m g) g',
        )
