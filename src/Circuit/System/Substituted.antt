-- ===== src/Circuit/System/Substituted.antt =====
-- halo2_proofs/src/plonk/circuit.rs: the values of the gates and of the lookups after
-- `directly_convert_selectors_to_fixed` has replaced the selectors.
use halo2_gpu.Common.{
  ℕ, zero, suc, ◌+◌, ◌<◌, ◌≡◌, refl, sym, ap, ap₂, ◌∙◌, Bool, true, false, Option, some, List, [],
  ◌∷◌, map, get_elem?, >>=-eq-some, arith,
}
use mathlib.Core.Option.{some-injective}
use halo2_gpu.Field.{Field}
use halo2_gpu.Circuit.{GpuSelector, GpuFixedQuery}
use halo2_gpu.Circuit.Expression.{
  GpuExpression, constant, selector, fixed, advice, instance_query, challenge, negated, sum,
  product, scaled,
}
use halo2_gpu.Circuit.Expression.Replace.{IsCovered, replace_selectors}
use halo2_gpu.Circuit.Expression.Value.{
  Row, value, value_or_zero, substituted, value-replace_selectors,
}
use halo2_gpu.Circuit.System.{GpuConstraintSystem, GpuGate}
use halo2_gpu.Circuit.System.Queries.{query_fixed_index}
use halo2_gpu.Circuit.System.Configure.{cur}
use halo2_gpu.Circuit.System.Allocate.{fixed_column}
use halo2_gpu.Circuit.System.Compress.{
  replace_all, replace_gates, replace_lookups, allocate, allocations, all_polys,
}
use halo2_gpu.Circuit.System.Valid.{AllOf}
use halo2_gpu.Circuit.System.Compressed.{LookupCovered, split-AllOf}
use halo2_gpu.Lookup.{Argument}

-- The row has the values of the first `n` selectors in the fixed columns from `k` on.
abbrev pub HoldsSelectors {ℓ} : {F : Type ℓ} → ℕ → ℕ → Row F → Type ℓ
HoldsSelectors k n r =
    (x : GpuSelector) (q : GpuFixedQuery)
    → x.index < n
    → q.column_index ≡ k + x.index
    → q.rotation ≡ cur
    → r.fixed q ≡ r.selector x

module _ {ℓ} {F : Type ℓ} where
  -- The replacement of the selector with index `i`.
  IsColumn : ℕ → Option (GpuExpression F) → Type ℓ
  IsColumn k o =
      (q : GpuFixedQuery) × (o ≡ some (fixed q)) × (q.column_index ≡ k) × (q.rotation ≡ cur)

  allocations-IsColumn :
      (n : ℕ) (s : GpuConstraintSystem F) (i : ℕ)
      → i < n
      → IsColumn (s.num_fixed_columns + i) (get_elem? (allocations n s) i)
  unfolding IsColumn allocate fixed_column query_fixed_index
  allocations-IsColumn zero s i h = absurd (omega arith)
  allocations-IsColumn (suc n) s zero h = (_, refl, omega arith, refl)
  allocations-IsColumn (suc n) s (suc i) h =
      let (q, e, c, t) = allocations-IsColumn n (allocate s).2 i (omega arith) in
      (q, e, omega (arith, c), t)

module _ {ℓ} {F : Type ℓ} ⦃f : Field F⦄ where
  -- The values of the gates' polynomials.
  abbrev pub gate_values : Row F → List (GpuGate F) → List (List F)
  gate_values r gs = map (λ (g : GpuGate F). map (value r) g.polys) gs

  -- The values of the lookups' inputs and tables.
  abbrev pub lookup_values : Row F → List (Argument F) → List (List F × List F)
  lookup_values r ls =
      map
        (λ (l : Argument F). (map (value r) l.input_expressions, map (value r) l.table_expressions))
        ls

  module _ (s : GpuConstraintSystem F) (n : ℕ) (r : Row F)
      (holds : HoldsSelectors s.num_fixed_columns n r) where
    same_value :
        (must : Bool) (e : GpuExpression F)
        → IsCovered n must e
        → value (substituted (allocations n s) r) e ≡ value r e
    unfolding value IsColumn
    same_value must (selector x) h =
        let (q, e, c, t) = allocations-IsColumn n s x.index h.0 in
        ap (value_or_zero r) e ∙ holds x q h.0 c t
    same_value must (negated a) h = ap f.neg (same_value must a h)
    same_value must (scaled a k) h = ap (λ z. f.mul z k) (same_value must a h)
    same_value must (sum a b) h = ap₂ f.add (same_value must a h.0) (same_value must b h.1)
    same_value must (product a b) h = ap₂ f.mul (same_value must a h.0) (same_value must b h.1)
    same_value must (constant k) h = refl
    same_value must (fixed q) h = refl
    same_value must (advice q) h = refl
    same_value must (instance_query q) h = refl
    same_value must (challenge q) h = refl

    value-replace_all :
        (must : Bool) (es es' : List (GpuExpression F))
        → AllOf (IsCovered n must) es
        → replace_all (allocations n s) must es ≡ some es'
        → map (value r) es' ≡ map (value r) es
    value-replace_all must [] es' h p = sym (ap (map (value r)) (some-injective [] es' p))
    value-replace_all must (e ∷ es) es' h p =
        let (x, a, p') = >>=-eq-some (replace_selectors (allocations n s) must e) _ p in
        let (xs, b, p'') = >>=-eq-some (replace_all (allocations n s) must es) _ p' in
        sym (ap (map (value r)) (some-injective (x ∷ xs) es' p''))
        ∙ ap₂ (λ y ys. y ∷ ys)
            (value-replace_selectors (allocations n s) must r e x a ∙ same_value must e h.0)
            (value-replace_all must es xs h.1 b)

    pub value-replace_gates :
        (gs gs' : List (GpuGate F))
        → AllOf (IsCovered n false) (all_polys gs)
        → replace_gates (allocations n s) gs ≡ some gs'
        → gate_values r gs' ≡ gate_values r gs
    value-replace_gates [] gs' h p = sym (ap (gate_values r) (some-injective [] gs' p))
    value-replace_gates (g ∷ gs) gs' h p =
        let (here, later) = split-AllOf (IsCovered n false) g.polys (all_polys gs) h in
        let (x, a, p') = >>=-eq-some (replace_all (allocations n s) false g.polys) _ p in
        let (xs, b, p'') = >>=-eq-some (replace_gates (allocations n s) gs) _ p' in
        sym (ap (gate_values r) (some-injective (record g { polys = x } ∷ xs) gs' p''))
        ∙ ap₂ (λ y ys. y ∷ ys) (value-replace_all false g.polys x here a)
            (value-replace_gates gs xs later b)

    pub value-replace_lookups :
        (ls ls' : List (Argument F))
        → AllOf (LookupCovered n) ls
        → replace_lookups (allocations n s) ls ≡ some ls'
        → lookup_values r ls' ≡ lookup_values r ls
    value-replace_lookups [] ls' h p = sym (ap (lookup_values r) (some-injective [] ls' p))
    value-replace_lookups (l ∷ ls) ls' h p =
        let (x, a, p') = >>=-eq-some (replace_all (allocations n s) true l.input_expressions) _ p in
        let (y, b, p'') =
          >>=-eq-some (replace_all (allocations n s) true l.table_expressions) _ p' in
        let (xs, c, p''') = >>=-eq-some (replace_lookups (allocations n s) ls) _ p'' in
        sym (
          ap (lookup_values r) (
            some-injective (record { input_expressions = x; table_expressions = y } ∷ xs) ls' p'''))
        ∙ ap₂ (λ z zs. z ∷ zs)
            (ap₂ (λ u v. (u, v)) (value-replace_all true l.input_expressions x (h.0).0 a)
              (value-replace_all true l.table_expressions y (h.0).1 b))
            (value-replace_lookups ls xs h.1 c)
