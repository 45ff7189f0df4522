-- ===== src/Circuit/System/Place.antt =====
-- halo2_proofs/src/plonk/circuit.rs: `compress_selectors` finds an expression and a column for
-- every selector.
use halo2_gpu.Common.{
  ℕ, zero, suc, ◌+◌, ◌≤◌, ◌<◌, ◌≡◌, refl, ap, ◌∙◌, subst, Bool, true, false, ◌==◌, ltb, Option,
  some, List, [], ◌∷◌, length, get_elem?, if◌then◌else◌, Bool-cases, ◌⊎◌, inl, inr, arith,
}
use mathlib.Core.Option.{some-injective}
use halo2_gpu.Common.Grid.{set, length-set, get_elem?-set, get_elem?-some}
use halo2_gpu.Circuit.Expression.{GpuExpression}
use halo2_gpu.Circuit.CompressSelectors.{SelectorAssignment}
use halo2_gpu.Circuit.Column.{GpuColumn, GpuFixed}
use halo2_gpu.Circuit.System.Compress.{put, place, unwrap_all}

module _ {ℓ} {A : Type ℓ} where
  -- The slot has a value.
  abbrev pub Filled : List (Option A) → ℕ → Type ℓ
  Filled xs i = (a : A) × (get_elem? xs i ≡ some (some a))

  -- Every value in a slot meets the predicate.
  abbrev pub Slots : (ℕ → A → Type 0) → List (Option A) → Type ℓ
  Slots p xs = (i : ℕ) (a : A) → get_elem? xs i ≡ some (some a) → p i a

  -- What `put` returns.
  abbrev Put : List (Option A) → ℕ → A → List (Option A) → Type ℓ
  Put xs i x ys =
      (put xs i x ≡ some ys)
      × (length ys ≡ length xs)
      × ((j : ℕ) → get_elem? ys j ≡ (if i == j then some (some x) else get_elem? xs j))

  put_lem :
      (xs : List (Option A)) (i : ℕ) (x : A)
      → i < length xs
      → (ys : List (Option A)) × Put xs i x ys
  put_lem xs i x h =
      let t : ltb i (length xs) ≡ true = ground arith in
      (
        set xs i (some x),
        (rw (t), length-set xs i (some x), (λ j. get_elem?-set xs i (some x) j h)),
      )

  Put-Slots :
      (p : ℕ → A → Type 0) (xs : List (Option A)) (i : ℕ) (x : A) (ys : List (Option A))
      → Put xs i x ys
      → p i x
      → Slots p xs
      → Slots p ys
  Put-Slots p xs i x ys (_, _, g) h s j a k = elim (Bool-cases (i == j)) [
    | inl t ↦
        let e : i ≡ j = ground arith in
        let f : x ≡ a = ground (arith, g j, k, t) in subst (λ z. p z a) e (subst (p i) f h)
    | inr f ↦ s j a (ground (arith, g j, k, f))
  ]

  Put-Filled :
      (xs : List (Option A)) (i : ℕ) (x : A) (ys : List (Option A)) (j : ℕ)
      → Put xs i x ys
      → (i ≡ j) ⊎ Filled xs j
      → Filled ys j
  Put-Filled xs i x ys j (_, _, g) (inl e) = (x, ground (arith, g j, e))
  Put-Filled xs i x ys j (_, _, g) (inr (a, k)) = elim (Bool-cases (i == j)) [
    | inl t ↦ (x, ground (arith, g j, t))
    | inr f ↦ (a, ground (arith, g j, k, f))
  ]

  pub unwrap_all_lem :
      (xs : List (Option A))
      → ((i : ℕ) → i < length xs → Filled xs i)
      → (ys : List A) × (unwrap_all xs ≡ some ys)
        × (length ys ≡ length xs)
        × ((i : ℕ) (a : A) → get_elem? ys i ≡ some a → get_elem? xs i ≡ some (some a))
  unwrap_all_lem [] h = ([], refl, refl, λ i a k. absurd (cc))
  unwrap_all_lem (x ∷ xs) h =
      let (a, p) = h 0 (omega arith) in
      let (ys, q, l, g) = unwrap_all_lem xs (λ i k. h (suc i) (omega (arith, k))) in
      let e = some-injective x (some a) p in (a ∷ ys, rw (e, q), ap suc l, later a ys e g)
    where
      later :
          (a : A) (ys : List A)
          → x ≡ some a
          → ((i : ℕ) (b : A) → get_elem? ys i ≡ some b → get_elem? xs i ≡ some (some b))
          → (i : ℕ) (b : A) → get_elem? (a ∷ ys) i ≡ some b
          → get_elem? (x ∷ xs) i ≡ some (some b)
      later a ys e g zero b k = ap some (e ∙ k)
      later a ys e g (suc i) b k = g i b k

module _ {ℓ} {F : Type ℓ} where
  -- The number of the assignments for a selector.
  abbrev pub for_selector : ℕ → List (SelectorAssignment F) → ℕ
  for_selector i [] = 0
  for_selector i (x ∷ xs) = (if x.selector == i then 1 else 0) + for_selector i xs

  module _ (p : ℕ → GpuExpression F → Type 0) (n : ℕ) (columns : List (GpuColumn GpuFixed)) where
    abbrev pub AllGood : List (SelectorAssignment F) → Type 0
    AllGood [] = Unit
    AllGood (x ∷ xs) =
        (x.selector < n)
        × (x.combination_index < length columns)
        × p x.selector x.expression
        × AllGood xs

    abbrev pub Placed :
        List (SelectorAssignment F)
        → List (Option (GpuExpression F))
        → List (Option (GpuColumn GpuFixed))
        → List (Option (GpuExpression F)) × List (Option (GpuColumn GpuFixed))
        → Type ℓ
    Placed xs es cs r =
        (place columns xs es cs ≡ some r)
        × (length r.0 ≡ n)
        × (length r.1 ≡ n)
        × Slots p r.0
        × ((i : ℕ)
            → (1 ≤ for_selector i xs) ⊎ (Filled es i × Filled cs i)
            → Filled r.0 i × Filled r.1 i)

    pub place_lem :
        (xs : List (SelectorAssignment F)) (es : List (Option (GpuExpression F)))
        (cs : List (Option (GpuColumn GpuFixed)))
        → AllGood xs
        → length es ≡ n
        → length cs ≡ n
        → Slots p es
        → (r : List (Option (GpuExpression F)) × List (Option (GpuColumn GpuFixed))) × Placed xs es
            cs r
    place_lem [] es cs g le lc s = ((es, cs), (refl, le, lc, s, (λ i. either i)))
      where
        either : (i : ℕ) → (1 ≤ 0) ⊎ (Filled es i × Filled cs i) → Filled es i × Filled cs i
        either i (inl h) = absurd (omega (arith, h))
        either i (inr h) = h
    place_lem (x ∷ xs) es cs g le lc s =
        let (column, k) = get_elem?-some columns x.combination_index g.1 in
        let (es', pe) = put_lem es x.selector x.expression (omega (arith, g.0, le)) in
        let (cs', pc) = put_lem cs x.selector column (omega (arith, g.0, lc)) in
        let (r, (q, l, l', sl, fl)) =
          place_lem xs es' cs' g.3 (pe.1 ∙ le) (pc.1 ∙ lc)
            (Put-Slots p es x.selector x.expression es' pe g.2 s) in
        (
          r,
          (
            rw (pe.0, k, pc.0, q),
            l,
            l',
            sl,
            (λ i h. fl i (
                next es' cs' i (x.selector == i) refl h
                  (λ t. (Put-Filled es x.selector x.expression es' i pe t))
                  (λ t. (Put-Filled cs x.selector column cs' i pc t)))),
          ),
        )
      where
        next :
            (es' : List (Option (GpuExpression F))) (cs' : List (Option (GpuColumn GpuFixed)))
            (i : ℕ) (b : Bool)
            → (x.selector == i) ≡ b
            → (1 ≤ for_selector i (x ∷ xs)) ⊎ (Filled es i × Filled cs i)
            → ((x.selector ≡ i) ⊎ Filled es i → Filled es' i)
            → ((x.selector ≡ i) ⊎ Filled cs i → Filled cs' i)
            → (1 ≤ for_selector i xs) ⊎ (Filled es' i × Filled cs' i)
        next es' cs' i true e h fe fc =
            let d : x.selector ≡ i = ground arith in inr (fe (inl d), fc (inl d))
        next es' cs' i false e (inl h) fe fc = inl (ground arith)
        next es' cs' i false e (inr h) fe fc = inr (fe (inr h.0), fc (inr h.1))
