-- ===== src/Circuit/System/Methods.antt =====
-- halo2_proofs/src/plonk/circuit.rs: the methods of `GpuVirtualCells` change the constraint system
-- by queries only, and return queries with the index of their cell.
use halo2_gpu.Common.{ℕ, ◌≡◌, refl, ap, ◌∙◌, subst, some, >>=-eq-some}
use mathlib.Core.Option.{some-injective}
use halo2_gpu.Common.Count.{position}
use halo2_gpu.Circuit.{Rotation}
use halo2_gpu.Circuit.Expression.{GpuExpression, advice}
use halo2_gpu.Circuit.Column.{GpuColumn, GpuAdvice, GpuFixed, the_fixed, GpuInstance, the_instance}
use halo2_gpu.Circuit.Column.Equal.{
  rotation_eq, pair_eq, fixed_eq, fixed_beq_iff, instance_eq, instance_beq_iff, advice_eq,
  column_eq,
}
use halo2_gpu.Circuit.System.Queries.{query_fixed_index, query_advice_index, query_instance_index}
use halo2_gpu.Circuit.System.Cells.{
  GpuVirtualCells, query_fixed, query_advice, query_instance, register_fixed, register_advice,
  register_instance,
}
use halo2_gpu.Circuit.System.Indexed.{IsIndexed}
use halo2_gpu.Circuit.System.Register.{
  Queried, itself, by_fixed, by_advice, by_instance, query_fixed_index_lem, query_advice_index_lem,
  query_instance_index_lem,
}

-- There is one fixed column type, and one instance column type.
plain_fixed : (c : GpuColumn GpuFixed) → record { index = c.index; column_type = the_fixed } ≡ c
plain_fixed c =
    ap (λ t. record { index = c.index; column_type = t })
      ((fixed_beq_iff the_fixed c.column_type).0 refl)

plain_instance :
    (c : GpuColumn GpuInstance) → record { index = c.index; column_type = the_instance } ≡ c
plain_instance c =
    ap (λ t. record { index = c.index; column_type = t })
      ((instance_beq_iff the_instance c.column_type).0 refl)

module _ {ℓ} {F : Type ℓ} (cells : GpuVirtualCells F) (at : Rotation) where
  abbrev pub OnlyQueries : GpuExpression F × GpuVirtualCells F → Type ℓ
  OnlyQueries r = Queried cells.meta (r.1).meta × IsIndexed (r.1).meta r.0

  pub query_fixed_lem : (c : GpuColumn GpuFixed) → OnlyQueries (query_fixed cells c at)
  unfolding query_fixed register_fixed
  query_fixed_lem c =
      let (g, p, _) = query_fixed_index_lem cells.meta c at in
      let found = query_fixed_index cells.meta c at in
      (
        by_fixed c at itself,
        (found.0, refl, ap (λ z. position (found.1).fixed_queries (z, at)) (plain_fixed c) ∙ p),
      )

  pub query_instance_lem : (c : GpuColumn GpuInstance) → OnlyQueries (query_instance cells c at)
  unfolding query_instance register_instance
  query_instance_lem c =
      let (g, p, _) = query_instance_index_lem cells.meta c at in
      let found = query_instance_index cells.meta c at in
      (
        by_instance c at itself,
        (
          found.0,
          refl,
          ap (λ z. position (found.1).instance_queries (z, at)) (plain_instance c) ∙ p,
        ),
      )

  abbrev advice_query :
      GpuColumn GpuAdvice → ℕ × GpuVirtualCells F → GpuExpression F × GpuVirtualCells F
  advice_query c z = (
    advice (record {
      index = some z.0;
      column_index = c.index;
      rotation = at;
      phase = c.column_type.phase;
    }),
    z.1,
  )

  pub query_advice_lem :
      (c : GpuColumn GpuAdvice) (r : GpuExpression F × GpuVirtualCells F)
      → query_advice cells c at ≡ some r
      → OnlyQueries r
  unfolding query_advice register_advice
  query_advice_lem c r h =
      let (x, e, f) = >>=-eq-some (register_advice cells c at) _ h in
      let (y, e', f') = >>=-eq-some (query_advice_index cells.meta c at) _ e in
      let (g, p, _, _) = query_advice_index_lem cells.meta c at y e' in
      subst OnlyQueries (ap (advice_query c) (some-injective _ x f') ∙ some-injective _ r f)
        (by_advice c at y.0 itself e', (y.0, refl, p))
