-- ===== src/Circuit/System/Converted.antt =====
-- halo2_proofs/src/plonk/circuit.rs: `directly_convert_selectors_to_fixed` as a whole.
use halo2_gpu.Common.{
  ℕ, zero, suc, ◌+◌, ◌≡◌, refl, sym, ap, ◌∙◌, subst, Bool, true, false, ◌==◌, some, List, length,
  map, arith,
}
use halo2_gpu.Field.{Field}
use halo2_gpu.Circuit.Expression.Replace.{
  IsConcrete, IsCovered, AllConcrete, replace_selectors_total,
}
use halo2_gpu.Circuit.Expression.Value.{Row}
use halo2_gpu.Circuit.CompressSelectors.{indicator}
use halo2_gpu.Circuit.System.{GpuConstraintSystem, GpuGate}
use halo2_gpu.Circuit.System.Queries.{query_fixed_index}
use halo2_gpu.Circuit.System.Allocate.{fixed_column}
use halo2_gpu.Circuit.System.Compress.{
  replace_selectors_with_fixed, allocate, allocated, allocations, all_polys,
  directly_convert_selectors_to_fixed,
}
use halo2_gpu.Circuit.System.Valid.{AllOf, AllOf-map}
use halo2_gpu.Circuit.System.Compressed.{
  LookupCovered, LookupConcrete, Done, replace_gates_lem, replace_lookups_lem, allocated-gates,
  allocated-lookups,
}
use halo2_gpu.Circuit.System.Substituted.{
  HoldsSelectors, gate_values, lookup_values, value-replace_gates, value-replace_lookups,
}

module _ {ℓ} {F : Type ℓ} where
  allocations-AllConcrete : (n : ℕ) (s : GpuConstraintSystem F) → AllConcrete (allocations n s)
  unfolding allocate
  allocations-AllConcrete zero s = tt
  allocations-AllConcrete (suc n) s = (tt, allocations-AllConcrete n (allocate s).2)

  length-allocations : (n : ℕ) (s : GpuConstraintSystem F) → length (allocations n s) ≡ n
  length-allocations zero s = refl
  length-allocations (suc n) s = ap suc (length-allocations n (allocate s).2)

  allocated-columns :
      (n : ℕ) (s : GpuConstraintSystem F)
      → (allocated n s).num_fixed_columns ≡ s.num_fixed_columns + n
  unfolding allocate fixed_column query_fixed_index
  allocated-columns zero s = omega arith
  allocated-columns (suc n) s = omega (arith, allocated-columns n (allocate s).2)

  -- No selector is left or counted, and each of the `n` before has a fixed column.
  abbrev pub IsConverted : ℕ → GpuConstraintSystem F → GpuConstraintSystem F → Type 0
  IsConverted n s t =
      AllOf (λ (g : GpuGate F). AllOf IsConcrete g.polys) t.gates
      × AllOf LookupConcrete t.lookups
      × (t.num_selectors ≡ 0)
      × (t.num_fixed_columns ≡ s.num_fixed_columns + n)

  -- If there are as many lists of activations as selectors, the selectors of the gates are those
  -- that were allocated, and those of the lookups also complex, then
  -- `directly_convert_selectors_to_fixed` does not panic. No selector is left in the gates and the
  -- lookups, none is counted, each has got a new fixed column, and the columns' values are one
  -- where the selector is active and zero elsewhere. In a row that has the values of the selectors
  -- in the new columns, the gates and the lookups have the same values as before.
  pub directly_convert_selectors_to_fixed_total :
      ⦃f : Field F⦄ (s : GpuConstraintSystem F) (selectors : List (List Bool)) (r : Row F)
      → length selectors ≡ s.num_selectors
      → AllOf (IsCovered s.num_selectors false) (all_polys s.gates)
      → AllOf (LookupCovered s.num_selectors) s.lookups
      → HoldsSelectors s.num_fixed_columns s.num_selectors r
      → (t : GpuConstraintSystem F) × (directly_convert_selectors_to_fixed s selectors
          ≡ some (t, map (map indicator) selectors))
        × IsConverted s.num_selectors s t
        × (gate_values r t.gates ≡ gate_values r s.gates)
        × (lookup_values r t.lookups ≡ lookup_values r s.lookups)
  unfolding directly_convert_selectors_to_fixed replace_selectors_with_fixed
  directly_convert_selectors_to_fixed_total s selectors r ls covered looked holds =
      let n = length selectors in
      let reps = allocations n s in
      let concrete = allocations-AllConcrete n s in
      let size = length-allocations n s in
      let covered' = subst (λ z. AllOf (IsCovered z false) (all_polys s.gates)) (sym ls) covered in
      let looked' = subst (λ z. AllOf (LookupCovered z) s.lookups) (sym ls) looked in
      let holds' = subst (λ z. HoldsSelectors s.num_fixed_columns z r) (sym ls) holds in
      let (gates, (p, ks)) = replace_gates_lem IsConcrete reps s.gates (
        AllOf-map (IsCovered n false) (Done IsConcrete reps false)
          (λ e c.
            replace_selectors_total reps false e concrete
              (subst (λ z. IsCovered z false e) (sym size) c))
          (all_polys s.gates) covered') in
      let (lookups, (p', ks')) =
        replace_lookups_lem reps s.lookups concrete
          (subst (λ z. AllOf (LookupCovered z) s.lookups) (sym size) looked') in
      let g = allocated-gates n s in
      let l = allocated-lookups n s in
      let counted : (n == s.num_selectors) ≡ true = ground arith in
      (
        record (allocated n s) { gates = gates; lookups = lookups; num_selectors = 0 },
        rw (counted, g, l, p, p') refl,
        (ks, ks', refl, allocated-columns n s ∙ ap (λ z. s.num_fixed_columns + z) ls),
        value-replace_gates s n r holds' s.gates gates covered' p,
        value-replace_lookups s n r holds' s.lookups lookups looked' p',
      )
