-- ===== src/Circuit/System/Compressed.antt =====
-- halo2_proofs/src/plonk/circuit.rs: `compress_selectors` as a whole.
use halo2_gpu.Common.{
  ℕ, zero, suc, ◌≤◌, ◌<◌, ◌≡◌, ◌≢◌, refl, sym, ap, ◌∙◌, subst, Bool, true, false, ◌==◌, some, List,
  [], ◌∷◌, ◌++◌, length, get_elem?, inl, arith,
}
use mathlib.Core.Option.{some-injective}
use halo2_gpu.Field.{Field}
use halo2_gpu.Circuit.Expression.{
  GpuExpression, degree as expression_degree, contains_simple_selector,
}
use halo2_gpu.Circuit.Expression.Replace.{
  IsConcrete, IsCovered, AllConcrete, replace_selectors, replace_selectors_total,
}
use halo2_gpu.Circuit.CompressSelectors.{SelectorAssignment}
use halo2_gpu.Circuit.CompressSelectors.Fit.{process-degrees}
use halo2_gpu.Circuit.CompressSelectors.Plain.{IsPlain, AllPlain, process-AllPlain}
use halo2_gpu.Circuit.Column.{GpuColumn, GpuFixed}
use halo2_gpu.Circuit.System.{GpuConstraintSystem, GpuGate}
use halo2_gpu.Circuit.System.Rows.{Variable, degree}
use halo2_gpu.Circuit.System.Allocate.{fixed_column}
use halo2_gpu.Circuit.System.Queries.{query_fixed_index}
use halo2_gpu.Circuit.System.Compress.{
  replace_all, replace_gates, replace_lookups, replace_selectors_with_fixed, allocate, allocated,
  allocation, new_columns, all_polys, no_degrees, describe, nones, apply_assignment,
  compress_selectors,
}
use halo2_gpu.Circuit.System.Place.{for_selector, AllGood, place_lem, unwrap_all_lem}
use halo2_gpu.Circuit.System.Recorded.{IsBounded, IsUsable, IsRecorded, selector_degrees_lem}
use halo2_gpu.Circuit.System.Valid.{AllOf, AllOf-map}
use halo2_gpu.Lookup.{Argument}
use halo2_gpu.Circuit.System.Replaced.{Replaces, plain, replaced_lem}
use halo2_gpu.Circuit.System.Described.{
  describe-AllAtMost, HaveRows, describe-is_same, assigned_lem,
}

module _ {ℓ} {F : Type ℓ} where
  -- Replacing goes through where it does for each expression.
  module _ (q : GpuExpression F → Type 0) (reps : List (GpuExpression F)) (must : Bool) where
    abbrev pub Done : GpuExpression F → Type ℓ
    Done e = (e' : GpuExpression F) × (replace_selectors reps must e ≡ some e') × q e'

    replace_all_lem :
        (es : List (GpuExpression F))
        → AllOf Done es
        → (es' : List (GpuExpression F)) × ((replace_all reps must es ≡ some es') × AllOf q es')
    replace_all_lem [] h = ([], (refl, tt))
    replace_all_lem (e ∷ es) h =
        let (e', p, k) = h.0 in
        let (es', (p', ks)) = replace_all_lem es h.1 in (e' ∷ es', (rw (p, p'), (k, ks)))

  pub split-AllOf {κ} :
      (p : GpuExpression F → Type κ) (xs ys : List (GpuExpression F))
      → AllOf p (xs ++ ys)
      → AllOf p xs × AllOf p ys
  split-AllOf p [] ys h = (tt, h)
  split-AllOf p (x ∷ xs) ys h = let (a, b) = split-AllOf p xs ys h.1 in ((h.0, a), b)

  pub replace_gates_lem :
      (q : GpuExpression F → Type 0) (reps : List (GpuExpression F)) (gs : List (GpuGate F))
      → AllOf (Done q reps false) (all_polys gs)
      → (gs' : List (GpuGate F)) × ((replace_gates reps gs ≡ some gs')
          × AllOf (λ (g : GpuGate F). AllOf q g.polys) gs')
  replace_gates_lem q reps [] h = ([], (refl, tt))
  replace_gates_lem q reps (g ∷ gs) h =
      let (a, b) = split-AllOf (Done q reps false) g.polys (all_polys gs) h in
      let (polys, (p, k)) = replace_all_lem q reps false g.polys a in
      let (gs', (p', ks)) = replace_gates_lem q reps gs b in
      (record g { polys = polys } ∷ gs', (rw (p, p'), (k, ks)))

  -- The selectors of the lookups exist and are complex.
  abbrev pub LookupCovered : ℕ → Argument F → Type 0
  LookupCovered n l =
      AllOf (IsCovered n true) l.input_expressions × AllOf (IsCovered n true) l.table_expressions

  abbrev pub LookupConcrete : Argument F → Type 0
  LookupConcrete l = AllOf IsConcrete l.input_expressions × AllOf IsConcrete l.table_expressions

  pub replace_lookups_lem :
      (reps : List (GpuExpression F)) (ls : List (Argument F))
      → AllConcrete reps
      → AllOf (LookupCovered (length reps)) ls
      → (ls' : List (Argument F)) × ((replace_lookups reps ls ≡ some ls')
          × AllOf LookupConcrete ls')
  replace_lookups_lem reps [] c h = ([], (refl, tt))
  replace_lookups_lem reps (l ∷ ls) c h =
      let each =
        AllOf-map (IsCovered (length reps) true) (Done IsConcrete reps true)
          (λ e. replace_selectors_total reps true e c) in
      let (inputs, (p, k)) =
        replace_all_lem IsConcrete reps true l.input_expressions
          (each l.input_expressions (h.0).0) in
      let (tables, (p', k')) =
        replace_all_lem IsConcrete reps true l.table_expressions
          (each l.table_expressions (h.0).1) in
      let (ls', (p'', ks)) = replace_lookups_lem reps ls c h.1 in
      (
        record { input_expressions = inputs; table_expressions = tables } ∷ ls',
        (rw (p, p', p''), ((k, k'), ks)),
      )

  -- An allocation changes neither the gates nor the lookups.
  pub allocated-gates : (n : ℕ) (s : GpuConstraintSystem F) → (allocated n s).gates ≡ s.gates
  unfolding allocate fixed_column query_fixed_index
  allocated-gates zero s = refl
  allocated-gates (suc n) s = allocated-gates n (allocate s).2

  pub allocated-lookups : (n : ℕ) (s : GpuConstraintSystem F) → (allocated n s).lookups ≡ s.lookups
  unfolding allocate fixed_column query_fixed_index
  allocated-lookups zero s = refl
  allocated-lookups (suc n) s = allocated-lookups n (allocate s).2

  length-new_columns : (n : ℕ) (s : GpuConstraintSystem F) → length (new_columns n s) ≡ n
  length-new_columns zero s = refl
  length-new_columns (suc n) s = ap suc (length-new_columns n (allocate s).2)

  allocation-IsPlain :
      (s : GpuConstraintSystem F) (k : ℕ)
      → IsPlain (allocation s k)
        × (contains_simple_selector (allocation s k) ≡ false)
        × (expression_degree (allocation s k) ≤ 1)
  unfolding allocate contains_simple_selector expression_degree
  allocation-IsPlain s k = ((tt, omega arith), refl, omega arith)

length-nones {ℓ κ} : (A : Type ℓ) {B : Type κ} (bs : List B) → length (nones {A = A} bs) ≡ length bs
length-nones A [] = refl
length-nones A (b ∷ bs) = ap suc (length-nones A bs)

nones-empty {ℓ κ} :
    {A : Type ℓ} {B : Type κ} (bs : List B) (i : ℕ) (a : A)
    → get_elem? (nones {A = A} bs) i ≢ some (some a)
nones-empty [] i a h = cc
nones-empty (b ∷ bs) zero a h = cc
nones-empty (b ∷ bs) (suc i) a h = nones-empty bs i a h

no_degrees_zero {ℓ} :
    {A : Type ℓ} (xs : List A) (j m : ℕ) → get_elem? (no_degrees xs) j ≡ some m → m ≡ 0
no_degrees_zero [] j m h = cc
no_degrees_zero (x ∷ xs) zero m h = sym (some-injective 0 m h)
no_degrees_zero (x ∷ xs) (suc j) m h = no_degrees_zero xs j m h

length-no_degrees {ℓ} : {A : Type ℓ} (xs : List A) → length (no_degrees xs) ≡ length xs
length-no_degrees [] = refl
length-no_degrees (x ∷ xs) = ap suc (length-no_degrees xs)

module _ {ℓ} {F : Type ℓ} where
  -- A gate's polynomial after the replacement.
  abbrev pub IsReplaced : ℕ → GpuExpression F → Type 0
  IsReplaced d e = IsConcrete e × (expression_degree e ≤ d)

  -- No selector is left, and no gate is above the degree.
  abbrev pub IsCompressed : ℕ → GpuConstraintSystem F → Type 0
  IsCompressed d t =
      AllOf (λ (g : GpuGate F). AllOf (IsReplaced d) g.polys) t.gates
      × AllOf LookupConcrete t.lookups

  module _ (s : GpuConstraintSystem F) (kinds : List Bool) (d : ℕ) (ds : List ℕ)
      (v : IsBounded kinds d ds) (usable : AllOf (IsUsable kinds d) (all_polys s.gates))
      (recorded : AllOf (IsRecorded kinds d ds) (all_polys s.gates))
      (covered : AllOf (LookupCovered (length kinds)) s.lookups) where
    abbrev AllReplace : List (GpuExpression F) → Type ℓ
    AllReplace reps = (i : ℕ) (x : GpuExpression F) → get_elem? reps i ≡ some x → Replaces ds d i x

    both :
        (reps : List (GpuExpression F))
        → length reps ≡ length kinds
        → AllReplace reps
        → (es : List (GpuExpression F)) → AllOf (IsUsable kinds d) es
        → AllOf (IsRecorded kinds d ds) es
        → AllOf (Done (IsReplaced d) reps false) es
    both reps n ok [] u r = tt
    both reps n ok (e ∷ es) u r =
        (replaced_lem ds d kinds v reps n ok e u.0 r.0, both reps n ok es u.1 r.1)

    replace_selectors_with_fixed_lem :
        (t : GpuConstraintSystem F) (reps : List (GpuExpression F))
        → t.gates ≡ s.gates
        → t.lookups ≡ s.lookups
        → length reps ≡ length kinds
        → AllReplace reps
        → (u : GpuConstraintSystem F) × ((replace_selectors_with_fixed reps t ≡ some u)
            × IsCompressed d u)
    unfolding replace_selectors_with_fixed
    replace_selectors_with_fixed_lem t reps g l n ok =
        let (gates, (p, ks)) =
          replace_gates_lem (IsReplaced d) reps s.gates
            (both reps n ok (all_polys s.gates) usable recorded) in
        let (lookups, (p', ks')) =
          replace_lookups_lem reps s.lookups (plain ds d kinds v reps n ok).0
            (subst (λ z. AllOf (LookupCovered z) s.lookups) (sym n) covered) in
        (record t { gates = gates; lookups = lookups }, (rw (g, l, p, p'), (ks, ks')))

    apply_assignment_lem :
        ⦃f : Field F⦄ (result : List (List F) × List (SelectorAssignment F))
        → AllGood (Replaces ds d) (length ds) (new_columns (length result.0) s) result.1
        → length result.1 ≡ length ds
        → ((k : ℕ) → k < length ds → 1 ≤ for_selector k result.1)
        → (r : GpuConstraintSystem F × List (List F)) × ((apply_assignment s result ≡ some r)
            × IsCompressed d r.0)
    unfolding apply_assignment
    apply_assignment_lem result good len cover =
        let columns = new_columns (length result.0) s in
        let (r, (p, l, l', slots, fill)) =
          place_lem (Replaces ds d) (length ds) columns result.1 (nones result.1) (nones result.1)
            good (length-nones (GpuExpression F) result.1 ∙ len)
            (length-nones (GpuColumn GpuFixed) result.1 ∙ len)
            (λ i a h. absurd (nones-empty result.1 i a h)) in
        let (reps, q, n, back) =
          unwrap_all_lem r.0 (λ i b. (fill i (inl (cover i (omega (arith, b, l))))).0) in
        let (selector_map, q', _, _) =
          unwrap_all_lem r.1 (λ i b. (fill i (inl (cover i (omega (arith, b, l'))))).1) in
        let (u, (e, k)) =
          replace_selectors_with_fixed_lem
            (record (allocated (length result.0) s) { selector_map = selector_map }) reps
            (allocated-gates (length result.0) s) (allocated-lookups (length result.0) s)
            (n ∙ l ∙ v.0) (λ i x h. slots i x (back i x h)) in
        ((u, result.0), (rw (p, q', q, e), k))

-- If there are as many lists of activations as selectors, all of one length, no gate is above the
-- degree of the system, which is positive, the selectors of the gates are those that were
-- allocated and those of the lookups also complex, and no gate makes `extract_simple_selector`
-- panic, then `compress_selectors` does not panic. No selector is left in the gates and the
-- lookups, and still no gate is above the degree.
pub compress_selectors_total {ℓ} :
    {F : Type ℓ} ⦃f : Field F⦄ (var : Variable) (s : GpuConstraintSystem F)
    (selectors : List (List Bool)) (kinds : List Bool) (d n : ℕ)
    → length selectors ≡ s.num_selectors
    → length kinds ≡ s.num_selectors
    → degree var s ≡ some d
    → 1 ≤ d
    → HaveRows n selectors
    → AllOf (IsUsable kinds d) (all_polys s.gates)
    → AllOf (LookupCovered (length kinds)) s.lookups
    → (r : GpuConstraintSystem F × List (List F)) × ((compress_selectors var s selectors ≡ some r)
        × IsCompressed d r.0)
unfolding compress_selectors
compress_selectors_total var s selectors kinds d n ls lk dd pos rows usable covered =
    let zeros : IsBounded kinds d (no_degrees selectors) = (
      length-no_degrees selectors ∙ ls ∙ sym lk,
      λ j m h.
          (omega (arith, no_degrees_zero selectors j m h), (λ _. no_degrees_zero selectors j m h)),
    ) in
    let (ds, (p, v, _, recorded)) =
      selector_degrees_lem kinds d (all_polys s.gates) (no_degrees selectors) usable zeros in
    let l : length selectors ≡ length ds = omega (arith, ls, lk, v.0) in
    let (result, q, order, m, fit) =
      process-degrees (describe 0 selectors ds) d (allocation s)
        (describe-is_same n 0 selectors ds rows)
        (describe-AllAtMost d 0 selectors ds (λ j k h. (v.1 j k h).0)) pos
        (λ k. (allocation-IsPlain s k).1) (λ k. (allocation-IsPlain s k).2) in
    let in_range =
      subst (λ k. AllPlain k result.1) (sym (length-new_columns (length result.0) s))
        (process-AllPlain (allocation s) (λ k. (allocation-IsPlain s k).0) (describe 0 selectors ds)
          d result q) in
    let (good, len, cover) =
      assigned_lem d selectors ds (new_columns (length result.0) s) order result.1 l m fit
        in_range in
    let (r, (e, k)) =
      apply_assignment_lem s kinds d ds v usable recorded covered result good (len ∙ l)
        (λ i b. cover i (omega (arith, b, l))) in
    let counted : (length selectors == s.num_selectors) ≡ true = ground arith in
    (r, (rw (counted, p, dd, q, e), k))
