-- ===== src/Circuit/CompressSelectors/Root.antt =====
-- halo2_proofs/src/plonk/circuit/compress_selectors.rs: the product of a combined column's query
-- with a factor for every other root, and its value.
use halo2_gpu.Common.{
  ℕ, zero, suc, ◌≡◌, ◌≢◌, refl, sym, ◌∙◌, Bool, true, false, ◌&&◌, Option, some, List, [], ◌∷◌,
  if◌then◌else◌, Bool-cases, ◌⊎◌, inl, inr,
}
use cubical.Cubical.Data.Empty.Base.{⊥*}
use halo2_gpu.Field.{Field, ◌⊕◌, ◌⊗◌, ◌=?◌}
use halo2_gpu.Field.Laws.{=?_ne, mul_nonzero, add_cancel, mul-zero, zero-mul}
use halo2_gpu.Circuit.Expression.{
  GpuExpression, constant, negated, sum, product, contains_simple_selector, sub, mul,
}
use halo2_gpu.Circuit.Expression.Value.{Row, value}
use halo2_gpu.Circuit.CompressSelectors.{root_product}

and_false : (b : Bool) → (b && false) ≡ false
and_false true = refl
and_false false = refl

module _ {ℓ} {F : Type ℓ} ⦃f : Field F⦄ where
  -- The `n` roots from `a` on.
  abbrev pub roots : F → ℕ → List F
  roots a zero = []
  roots a (suc n) = a ∷ roots (a ⊕ f.one) n

  abbrev pub In : F → List F → Type ℓ
  In v [] = ⊥*
  In v (x ∷ xs) = (v ≡ x) ⊎ In v xs

  abbrev pub IsFresh : F → List F → Type ℓ
  IsFresh v [] = Unit
  IsFresh v (x ∷ xs) = (v ≢ x) × IsFresh v xs

  -- The product of the factors other than the assigned root's, where the column reads `v`.
  abbrev pub factors : F → F → List F → F
  factors v assigned [] = f.one
  factors v assigned (x ∷ xs) =
      if x =? assigned then factors v assigned xs else (x ⊕ f.neg v) ⊗ factors v assigned xs

  difference_zero : (a b : F) → a ⊕ f.neg b ≡ f.zero → a ≡ b
  difference_zero a b h = add_cancel a b (f.neg b) (h ∙ sym (f.add-neg b))

  pub factors-other :
      (v assigned : F) (xs : List F) → In v xs → v ≢ assigned → factors v assigned xs ≡ f.zero
  factors-other v assigned [] i ne = elim i.lower [ ]
  factors-other v assigned (x ∷ xs) i ne = elim (Bool-cases (x =? assigned)) [
    | inl t ↦ elim i [
      | inl e ↦ absurd (ne (e ∙ (f.beq_iff x assigned).0 t))
      | inr j ↦ rw (t) (factors-other v assigned xs j ne)
    ]
    | inr e ↦ elim i [
      | inl p ↦ rw (e, p, f.add-neg x) (zero-mul _)
      | inr j ↦ rw (e, factors-other v assigned xs j ne) (mul-zero _)
    ]
  ]

  pub factors-own : (assigned : F) (xs : List F) → factors assigned assigned xs ≢ f.zero
  factors-own assigned [] = f.one≢zero
  factors-own assigned (x ∷ xs) = elim (Bool-cases (x =? assigned)) [
    | inl t ↦ rw (t) (factors-own assigned xs)
    | inr e ↦ rw (e) (
        mul_nonzero _ _ (λ h. =?_ne x assigned e (difference_zero x assigned h))
          (factors-own assigned xs))
  ]

  abbrev pub Multiplied :
      GpuExpression F → F → List F → GpuExpression F → Option (GpuExpression F) → Type ℓ
  Multiplied query assigned xs e r =
      (e' : GpuExpression F) × (r ≡ some e')
      × ((row : Row F) → value row e' ≡ value row e ⊗ factors (value row query) assigned xs)

  pub simple_factor :
      (query : GpuExpression F) (x : F)
      → contains_simple_selector query ≡ false
      → contains_simple_selector (sum (constant x) (negated query)) ≡ false
  unfolding contains_simple_selector
  simple_factor query x h = h

  simple_constant : (x : F) → contains_simple_selector (constant x) ≡ false
  unfolding contains_simple_selector
  simple_constant x = refl

  pub sub_factor :
      (query : GpuExpression F) (x : F)
      → contains_simple_selector query ≡ false
      → sub (constant x) query ≡ some (sum (constant x) (negated query))
  unfolding sub
  sub_factor query x h = rw (simple_constant x, h)

  pub mul_factor :
      (e y : GpuExpression F) → contains_simple_selector y ≡ false → mul e y ≡ some (product e y)
  unfolding mul
  mul_factor e y h = rw (h, and_false (contains_simple_selector e))

  -- The product is formed, and reads the value of the expression times that of the factors.
  pub root_product_lem :
      (query : GpuExpression F) (assigned root : F) (n : ℕ) (e : GpuExpression F)
      → contains_simple_selector query ≡ false
      → Multiplied query assigned (roots root n) e (root_product n query assigned root e)
  unfolding root_product value
  root_product_lem query assigned root zero e h = (e, refl, λ row. sym (f.mul-one _))
  root_product_lem query assigned root (suc n) e h = elim (Bool-cases (root =? assigned)) [
    | inl t ↦ rw (t) (root_product_lem query assigned (root ⊕ f.one) n e h)
    | inr k ↦
        let y = sum (constant root) (negated query) in
        let (e', p, v) = root_product_lem query assigned (root ⊕ f.one) n (product e y) h in
        rw (k, sub_factor query root h, mul_factor e y (simple_factor query root h))
          (e', p, λ row. v row ∙ f.mul_assoc _ _ _)
  ]
