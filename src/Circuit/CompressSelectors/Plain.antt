-- ===== src/Circuit/CompressSelectors/Plain.antt =====
-- halo2_proofs/src/plonk/circuit/compress_selectors.rs: the expressions that `process` assigns have
-- no selector and a positive degree, and the assignments refer to columns that are returned.
use halo2_gpu.Common.{
  ℕ, zero, suc, ◌+◌, ◌≤◌, ◌<◌, ◌≡◌, subst, Bool, true, false, ◌==◌, none, some, List, [], ◌∷◌, ◌++◌,
  length, length-append, >>=-eq-some, if◌then◌else◌, Bool-cases, inl, inr, arith,
}
use mathlib.Core.Option.{some-injective}
use halo2_gpu.Field.{Field, ◌⊕◌, ◌=?◌}
use halo2_gpu.Circuit.Expression.{GpuExpression, constant, negated, sum, product, degree, sub, mul}
use halo2_gpu.Circuit.Expression.Replace.{IsConcrete, mul_some}
use halo2_gpu.Circuit.CompressSelectors.{
  SelectorDescription, SelectorAssignment, root_product, emit_selectors, emit_combinations,
  emit_complex, zeros, assign_rows, combinations, process, same_length,
}

module _ {ℓ} {F : Type ℓ} where
  -- No selector, and a positive degree.
  abbrev pub IsPlain : GpuExpression F → Type 0
  IsPlain e = IsConcrete e × (1 ≤ degree e)

  -- The assignments are plain, and to columns before the given one.
  abbrev pub AllPlain : ℕ → List (SelectorAssignment F) → Type 0
  AllPlain n [] = Unit
  AllPlain n (x ∷ xs) = IsPlain x.expression × (x.combination_index < n) × AllPlain n xs

  AllPlain-more :
      (m n : ℕ) (xs : List (SelectorAssignment F)) → m ≤ n → AllPlain m xs → AllPlain n xs
  AllPlain-more m n [] h p = tt
  AllPlain-more m n (x ∷ xs) h p = (p.0, omega (arith, p.1), AllPlain-more m n xs h p.2)

  AllPlain-append :
      (n : ℕ) (xs ys : List (SelectorAssignment F))
      → AllPlain n xs
      → AllPlain n ys
      → AllPlain n (xs ++ ys)
  AllPlain-append n [] ys p q = q
  AllPlain-append n (x ∷ xs) ys p q = (p.0, p.1, AllPlain-append n xs ys p.2 q)

  sub_some :
      (refused : Bool) (x e : GpuExpression F) → (if refused then none else some x) ≡ some e → x ≡ e
  sub_some true x e h = cc
  sub_some false x e h = some-injective x e h

module _ {ℓ} {F : Type ℓ} ⦃f : Field F⦄ where
  root_product-IsPlain :
      (n : ℕ) (query : GpuExpression F) (assigned root : F) (e e' : GpuExpression F)
      → IsPlain query
      → IsPlain e
      → root_product n query assigned root e ≡ some e'
      → IsPlain e'
  unfolding root_product sub degree
  root_product-IsPlain zero query assigned root e e' q p =
      λ h. subst IsPlain (some-injective e e' h) p
  root_product-IsPlain (suc n) query assigned root e e' q p = elim (Bool-cases (root =? assigned)) [
    | inl t ↦ rw (t) (root_product-IsPlain n query assigned (root ⊕ f.one) e e' q p)
    | inr k ↦ rw (k) (λ h.
        (let (x, a, h') = >>=-eq-some (sub (constant root) query) _ h in
          let (y, b, h'') = >>=-eq-some (mul e x) _ h' in
          let factor = sub_some _ (sum (constant root) (negated query)) x a in
          let plain : IsPlain (product e x) =
            subst (λ z. IsPlain (product e z)) factor ((p.0, (tt, q.0)), omega (arith, p.1)) in
          root_product-IsPlain n query assigned (root ⊕ f.one) y e' q
            (subst IsPlain (mul_some e x y b) plain) h''))
  ]

  module _ (column : ℕ → GpuExpression F) (plain : (k : ℕ) → IsPlain (column k)) where
    emit_selectors-AllPlain :
        (len index : ℕ) (a : F) (rows : List F) (ss : List SelectorDescription)
        (e : List F × List (SelectorAssignment F))
        → emit_selectors len index (column index) a rows ss ≡ some e
        → AllPlain (index + 1) e.1
    unfolding emit_selectors
    emit_selectors-AllPlain len index a rows [] e h =
        subst (λ (z : List F × List (SelectorAssignment F)). AllPlain (index + 1) z.1)
          (some-injective _ e h) tt
    emit_selectors-AllPlain len index a rows (s ∷ ss) e h =
        let (x, p, h') = >>=-eq-some (root_product len (column index) a f.one (column index)) _ h in
        let (later, p', h'') =
          >>=-eq-some
            (emit_selectors len index (column index) (a ⊕ f.one) (assign_rows a rows s.activations)
              ss)
            _ h' in
        let rest =
          emit_selectors-AllPlain len index (a ⊕ f.one) (assign_rows a rows s.activations) ss later
            p' in
        subst (λ (z : List F × List (SelectorAssignment F)). AllPlain (index + 1) z.1)
          (some-injective _ e h'')
          (
            root_product-IsPlain len (column index) a f.one (column index) x (plain index)
                (plain index) p,
            omega arith,
            rest,
          )

    emit_combinations-AllPlain :
        (n index : ℕ) (cs : List (List SelectorDescription))
        (e : List (List F) × List (SelectorAssignment F))
        → emit_combinations n column index cs ≡ some e
        → AllPlain (index + length e.0) e.1
    unfolding emit_combinations
    emit_combinations-AllPlain n index [] e h =
        subst
          (λ (z : List (List F) × List (SelectorAssignment F)). AllPlain (index + length z.0) z.1)
          (some-injective _ e h) tt
    emit_combinations-AllPlain n index (c ∷ cs) e h =
        let (one, p, h') =
          >>=-eq-some (emit_selectors (length c) index (column index) f.one (zeros n) c) _ h in
        let (later, p', h'') = >>=-eq-some (emit_combinations n column (index + 1) cs) _ h' in
        let first = emit_selectors-AllPlain (length c) index f.one (zeros n) c one p in
        let rest = emit_combinations-AllPlain n (index + 1) cs later p' in
        subst
          (λ (z : List (List F) × List (SelectorAssignment F)). AllPlain (index + length z.0) z.1)
          (some-injective _ e h'')
          (AllPlain-append (index + suc (length later.0)) one.1 later.1
            (AllPlain-more (index + 1) (index + suc (length later.0)) one.1 (omega arith) first)
            (AllPlain-more (index + 1 + length later.0) (index + suc (length later.0)) later.1
              (omega arith) rest))

    emit_complex-AllPlain :
        (index : ℕ) (ss : List SelectorDescription)
        → AllPlain
            (index + length (emit_complex column index ss).0)
            (emit_complex column index ss).1
    unfolding emit_complex
    emit_complex-AllPlain index [] = tt
    emit_complex-AllPlain index (s ∷ ss) = elim (Bool-cases (s.max_degree == 0)) [
      | inl t ↦ rw (t) (
        plain index,
        omega arith,
        AllPlain-more (index + 1 + length (emit_complex column (index + 1) ss).0)
            (index + suc (length (emit_complex column (index + 1) ss).0))
            (emit_complex column (index + 1) ss).1 (omega arith)
            (emit_complex-AllPlain (index + 1) ss),
      )
      | inr k ↦ rw (k) (emit_complex-AllPlain index ss)
    ]

    pub process-AllPlain :
        (ss : List SelectorDescription) (max_degree : ℕ)
        (e : List (List F) × List (SelectorAssignment F))
        → process ss max_degree column ≡ some e
        → AllPlain (length e.0) e.1
    unfolding process
    process-AllPlain [] max_degree e = λ h.
        subst (λ (z : List (List F) × List (SelectorAssignment F)). AllPlain (length z.0) z.1)
          (some-injective _ e h) tt
    process-AllPlain (s ∷ rest) max_degree e =
        let ss : List SelectorDescription = s ∷ rest in
        let c = emit_complex column 0 ss in
        elim (Bool-cases (same_length (length s.activations) ss)) [
          | inl t ↦ rw (t) (λ h.
              (let (groups, p, h') = >>=-eq-some (combinations max_degree c.2) _ h in
                let (simple, p', h'') =
                  >>=-eq-some (emit_combinations (length s.activations) column (length c.0) groups)
                    _ h' in
                let all = length-append c.0 simple.0 in
                subst
                  (λ (z : List (List F) × List (SelectorAssignment F)). AllPlain (length z.0) z.1)
                  (some-injective _ e h'')
                  (AllPlain-append (length (c.0 ++ simple.0)) c.1 simple.1
                    (AllPlain-more (0 + length c.0) _ c.1 (omega (arith, all))
                      (emit_complex-AllPlain 0 ss))
                    (AllPlain-more (length c.0 + length simple.0) _ simple.1 (omega (arith, all)) (
                      emit_combinations-AllPlain (length s.activations) (length c.0) groups simple
                        p')))))
          | inr k ↦ rw (k) (λ h. absurd (cc))
        ]
