-- ===== src/Circuit/Expression/Degree.antt =====
-- What replacing selectors does to the degree of a gate's polynomial.
use halo2_gpu.Common.{
  ℕ, ◌+◌, ◌≤◌, max, ◌≡◌, sym, ap, subst, Bool, false, Option, none, some, List, [], ◌∷◌, get_elem?,
  if◌then◌else◌, >>=-eq-some, arith, suc, zero, ◌&&◌,
}
use mathlib.Core.Option.{some-injective}
use halo2_gpu.Circuit.{GpuSelector}
use halo2_gpu.Circuit.Expression.{
  GpuExpression, constant, selector, fixed, advice, instance_query, challenge, negated, sum,
  product, scaled, degree, add, mul,
}
use halo2_gpu.Circuit.Expression.Selectors.{extract_simple_selector, join_selectors, simple_only}
use halo2_gpu.Circuit.Expression.Replace.{replace_selectors, add_some, mul_some}

module _ {ℓ} {F : Type ℓ} where
  abbrev degree_or_one : Option (GpuExpression F) → ℕ
  degree_or_one none = 1
  degree_or_one (some e) = degree e

  -- The degree of the replacement of a selector.
  abbrev pub replacement_degree : List (GpuExpression F) → GpuSelector → ℕ
  replacement_degree reps s = degree_or_one (get_elem? reps s.index)

  -- Every replacement in the list has a degree of at least one.
  abbrev pub AllPositive : List (GpuExpression F) → Type 0
  AllPositive [] = Unit
  AllPositive (e ∷ es) = (1 ≤ degree e) × AllPositive es

  -- The complex selectors of an expression are replaced by expressions of degree one.
  abbrev pub ComplexAreLinear : List (GpuExpression F) → GpuExpression F → Type 0
  ComplexAreLinear reps (selector s) = s.is_simple ≡ false → replacement_degree reps s ≤ 1
  ComplexAreLinear reps (negated a) = ComplexAreLinear reps a
  ComplexAreLinear reps (sum a b) = ComplexAreLinear reps a × ComplexAreLinear reps b
  ComplexAreLinear reps (product a b) = ComplexAreLinear reps a × ComplexAreLinear reps b
  ComplexAreLinear reps (scaled a k) = ComplexAreLinear reps a
  ComplexAreLinear reps _ = Unit

  replacement_degree_pos :
      (reps : List (GpuExpression F)) (i : ℕ)
      → AllPositive reps
      → 1 ≤ degree_or_one (get_elem? reps i)
  replacement_degree_pos [] i h = omega arith
  replacement_degree_pos (e ∷ es) zero h = h.0
  replacement_degree_pos (e ∷ es) (suc i) h = replacement_degree_pos es i h.1

-- The new degree against the old one: at most the old one without a simple selector; with one,
-- its own degree of one gives way to that of its replacement.
abbrev pub Grows : (GpuSelector → ℕ) → Option (Option GpuSelector) → ℕ → ℕ → Type 0
Grows m none new old = Unit
Grows m (some none) new old = new ≤ old
Grows m (some (some s)) new old = new + 1 ≤ old + m s

module _ (m : GpuSelector → ℕ) (pos : (s : GpuSelector) → 1 ≤ m s) where
  Grows-max :
      (p q : Option (Option GpuSelector)) (a' a b' b : ℕ)
      → Grows m p a' a
      → Grows m q b' b
      → Grows m (join_selectors p q) (max a' b') (max a b)
  Grows-max none q a' a b' b ha hb = tt
  Grows-max (some none) none a' a b' b ha hb = tt
  Grows-max (some none) (some none) a' a b' b ha hb = omega arith
  Grows-max (some none) (some (some t)) a' a b' b ha hb = omega (arith, pos t)
  Grows-max (some (some s)) none a' a b' b ha hb = tt
  Grows-max (some (some s)) (some none) a' a b' b ha hb = omega (arith, pos s)
  Grows-max (some (some s)) (some (some t)) a' a b' b ha hb = tt

  Grows-add :
      (p q : Option (Option GpuSelector)) (a' a b' b : ℕ)
      → Grows m p a' a
      → Grows m q b' b
      → Grows m (join_selectors p q) (a' + b') (a + b)
  Grows-add none q a' a b' b ha hb = tt
  Grows-add (some none) none a' a b' b ha hb = tt
  Grows-add (some none) (some none) a' a b' b ha hb = omega arith
  Grows-add (some none) (some (some t)) a' a b' b ha hb = omega arith
  Grows-add (some (some s)) none a' a b' b ha hb = tt
  Grows-add (some (some s)) (some none) a' a b' b ha hb = omega arith
  Grows-add (some (some s)) (some (some t)) a' a b' b ha hb = tt

module _ {ℓ} {F : Type ℓ} where
  degree-add : (a b e : GpuExpression F) → add a b ≡ some e → degree e ≡ max (degree a) (degree b)
  unfolding degree
  degree-add a b e h = sym (ap degree (add_some a b e h))

  degree-mul : (a b e : GpuExpression F) → mul a b ≡ some e → degree e ≡ degree a + degree b
  unfolding degree
  degree-mul a b e h = sym (ap degree (mul_some a b e h))

  selector_Grows :
      (must : Bool) (reps : List (GpuExpression F)) (s : GpuSelector) (e : GpuExpression F)
      → ComplexAreLinear reps (selector s)
      → (if must && s.is_simple then none else get_elem? reps s.index) ≡ some e
      → Grows (replacement_degree reps) (simple_only s) (degree e) 1
  selector_Grows must reps s e c h = ground (arith, ap (degree_or_one {F = F}) h)

  -- Where it succeeds, replacing the selectors of an expression with no simple selector does not
  -- raise its degree; with one simple selector the degree grows by at most one less than the
  -- degree of that selector's replacement. The replacements have positive degrees, and those of
  -- complex selectors are linear.
  pub degree-replace_selectors :
      (reps : List (GpuExpression F)) (must : Bool) (e e' : GpuExpression F)
      → AllPositive reps
      → ComplexAreLinear reps e
      → replace_selectors reps must e ≡ some e'
      → Grows (replacement_degree reps) (extract_simple_selector e) (degree e') (degree e)
  unfolding replace_selectors degree extract_simple_selector
  degree-replace_selectors reps must (selector s) e' p c h = selector_Grows must reps s e' c h
  degree-replace_selectors reps must (negated a) e' p c h =
      let (a', ea, k) = >>=-eq-some (replace_selectors reps must a) _ h in
      subst (λ t. Grows (replacement_degree reps) (extract_simple_selector a) (degree t) (degree a))
        (some-injective (negated a') e' k) (degree-replace_selectors reps must a a' p c ea)
  degree-replace_selectors reps must (scaled a f) e' p c h =
      let (a', ea, k) = >>=-eq-some (replace_selectors reps must a) _ h in
      subst (λ t. Grows (replacement_degree reps) (extract_simple_selector a) (degree t) (degree a))
        (some-injective (scaled a' f) e' k) (degree-replace_selectors reps must a a' p c ea)
  degree-replace_selectors reps must (sum a b) e' p c h =
      let (a', ea, k) = >>=-eq-some (replace_selectors reps must a) _ h in
      let (b', eb, l) = >>=-eq-some (replace_selectors reps must b) _ k in
      subst
        (λ t.
          Grows (replacement_degree reps) (extract_simple_selector (sum a b)) t (degree (sum a b)))
        (sym (degree-add a' b' e' l))
        (Grows-max (replacement_degree reps) (λ s. replacement_degree_pos reps s.index p)
          (extract_simple_selector a) (extract_simple_selector b) _ _ _ _
          (degree-replace_selectors reps must a a' p c.0 ea)
          (degree-replace_selectors reps must b b' p c.1 eb))
  degree-replace_selectors reps must (product a b) e' p c h =
      let (a', ea, k) = >>=-eq-some (replace_selectors reps must a) _ h in
      let (b', eb, l) = >>=-eq-some (replace_selectors reps must b) _ k in
      subst
        (λ t.
          Grows (replacement_degree reps) (extract_simple_selector (product a b)) t
            (degree (product a b)))
        (sym (degree-mul a' b' e' l))
        (Grows-add (replacement_degree reps) (λ s. replacement_degree_pos reps s.index p)
          (extract_simple_selector a) (extract_simple_selector b) _ _ _ _
          (degree-replace_selectors reps must a a' p c.0 ea)
          (degree-replace_selectors reps must b b' p c.1 eb))
  degree-replace_selectors reps must (constant c) e' p l h =
      subst (λ t. degree t ≤ 0) (some-injective (constant c) e' h) (omega arith)
  degree-replace_selectors reps must (fixed q) e' p l h =
      subst (λ t. degree t ≤ 1) (some-injective (fixed q) e' h) (omega arith)
  degree-replace_selectors reps must (advice q) e' p l h =
      subst (λ t. degree t ≤ 1) (some-injective (advice q) e' h) (omega arith)
  degree-replace_selectors reps must (instance_query q) e' p l h =
      subst (λ t. degree t ≤ 1) (some-injective (instance_query q) e' h) (omega arith)
  degree-replace_selectors reps must (challenge q) e' p l h =
      subst (λ t. degree t ≤ 0) (some-injective (challenge q) e' h) (omega arith)
