-- ===== src/Circuit/System/Replaced.antt =====
-- halo2_proofs/src/plonk/circuit.rs: what the replacements of the selectors do to a gate's polynomial.
use halo2_gpu.Common.{
  ℕ, suc, ◌+◌, ◌-◌, ◌≤◌, ◌<◌, ◌≡◌, refl, ap, ◌∙◌, subst, Bool, true, false, Option, none, some,
  List, [], ◌∷◌, length, get_elem?, arith,
}
use halo2_gpu.Common.Grid.{get_elem?_lt, get_elem?-some}
use halo2_gpu.Circuit.{GpuSelector}
use halo2_gpu.Circuit.Expression.{
  GpuExpression, selector, negated, sum, product, scaled, degree as expression_degree,
}
use halo2_gpu.Circuit.Expression.Selectors.{extract_simple_selector}
use halo2_gpu.Circuit.Expression.Replace.{
  IsConcrete, IsCovered, AllConcrete, replace_selectors, replace_selectors_total,
}
use halo2_gpu.Circuit.Expression.Degree.{
  Grows, AllPositive, ComplexAreLinear, replacement_degree, degree-replace_selectors,
}
use halo2_gpu.Circuit.CompressSelectors.Plain.{IsPlain}
use halo2_gpu.Circuit.System.Recorded.{
  Found, IsKinded, extract-Found, IsBounded, IsUsable, IsRecorded,
}

-- An expression that may replace the selector at the index: its recorded degree is `m`.
module _ {ℓ} {F : Type ℓ} (ds : List ℕ) (d : ℕ) where
  abbrev pub Replaces : ℕ → GpuExpression F → Type 0
  Replaces i x =
      IsPlain x
      × ((m : ℕ)
          → get_elem? ds i ≡ some m
          → (m - 1 + expression_degree x ≤ d) × (m ≡ 0 → expression_degree x ≤ 1))

  module _ (kinds : List Bool) (v : IsBounded kinds d ds) (reps : List (GpuExpression F))
      (l : length reps ≡ length kinds)
      (ok : (i : ℕ) (x : GpuExpression F) → get_elem? reps i ≡ some x → Replaces i x) where
    all_concrete :
        (rs : List (GpuExpression F))
        → ((i : ℕ) (x : GpuExpression F) → get_elem? rs i ≡ some x → IsPlain x)
        → AllConcrete rs × AllPositive rs
    all_concrete [] h = (tt, tt)
    all_concrete (r ∷ rs) h =
        let first = h 0 r refl in
        let (c, p) = all_concrete rs (λ i. h (suc i)) in ((first.0, c), (first.1, p))

    pub plain : AllConcrete reps × AllPositive reps
    plain = all_concrete reps (λ i x k. (ok i x k).0)

    -- The replacement of a selector, and the degree recorded for it.
    recorded :
        (i : ℕ)
        → i < length kinds
        → (x : GpuExpression F) × (get_elem? reps i ≡ some x)
          × ((m : ℕ) × (get_elem? ds i ≡ some m))
    recorded i h =
        let (x, p) = get_elem?-some reps i (omega (arith, h, l)) in
        let (m, q) = get_elem?-some ds i (omega (arith, h, v.0)) in (x, p, (m, q))

    kinded-ComplexAreLinear : (e : GpuExpression F) → IsKinded kinds e → ComplexAreLinear reps e
    kinded-ComplexAreLinear (selector s) k = λ c.
        (let (x, p, (m, q)) = recorded s.index (get_elem?_lt kinds s.index s.is_simple k) in
          let none_recorded = (v.1 s.index m q).1 (k ∙ ap some c) in
          let linear = ((ok s.index x p).1 m q).1 none_recorded in rw (p) linear)
    kinded-ComplexAreLinear (negated a) k = kinded-ComplexAreLinear a k
    kinded-ComplexAreLinear (scaled a c) k = kinded-ComplexAreLinear a k
    kinded-ComplexAreLinear (sum a b) k =
        (kinded-ComplexAreLinear a k.0, kinded-ComplexAreLinear b k.1)
    kinded-ComplexAreLinear (product a b) k =
        (kinded-ComplexAreLinear a k.0, kinded-ComplexAreLinear b k.1)
    kinded-ComplexAreLinear _ k = tt

    kinded-IsCovered : (e : GpuExpression F) → IsKinded kinds e → IsCovered (length reps) false e
    kinded-IsCovered (selector s) k =
        (omega (arith, l, get_elem?_lt kinds s.index s.is_simple k), refl)
    kinded-IsCovered (negated a) k = kinded-IsCovered a k
    kinded-IsCovered (scaled a c) k = kinded-IsCovered a k
    kinded-IsCovered (sum a b) k = (kinded-IsCovered a k.0, kinded-IsCovered b k.1)
    kinded-IsCovered (product a b) k = (kinded-IsCovered a k.0, kinded-IsCovered b k.1)
    kinded-IsCovered _ k = tt

    grown :
        (e e' : GpuExpression F) (o : Option (Option GpuSelector))
        → extract_simple_selector e ≡ o
        → IsUsable kinds d e
        → IsRecorded kinds d ds e
        → Grows (replacement_degree reps) o (expression_degree e') (expression_degree e)
        → expression_degree e' ≤ d
    grown e e' none p u r g = absurd (u.0 p)
    grown e e' (some none) p u r g = omega (arith, g, u.2)
    grown e e' (some (some s)) p u r g =
        let found = subst (Found kinds) p (extract-Found kinds e u.1) in
        let (x, q, (m, t)) = recorded s.index (get_elem?_lt kinds s.index true found) in
        let rep : replacement_degree reps s ≡ expression_degree x = rw (q) refl in
        omega (arith, g, r s m p t, ((ok s.index x q).1 m t).0, rep)

    -- A gate's polynomial, with its selectors replaced.
    pub replaced_lem :
        (e : GpuExpression F)
        → IsUsable kinds d e
        → IsRecorded kinds d ds e
        → (e' : GpuExpression F) × (replace_selectors reps false e ≡ some e')
          × (IsConcrete e' × (expression_degree e' ≤ d))
    replaced_lem e u r =
        let (e', p, c) = replace_selectors_total reps false e plain.0 (kinded-IsCovered e u.1) in
        let g =
          degree-replace_selectors reps false e e' plain.1 (kinded-ComplexAreLinear e u.1) p in
        (e', p, (c, grown e e' (extract_simple_selector e) refl u r g))
