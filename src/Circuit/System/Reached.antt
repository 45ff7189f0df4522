-- ===== src/Circuit/System/Reached.antt =====
-- halo2_proofs/src/plonk/circuit.rs: the constraint systems that a configuration reaches, and what
-- holds in all of them.
use halo2_gpu.Common.{ℕ, ◌≡◌, refl, sym, subst, some, [], ◌∷◌, ◌++◌}
use halo2_gpu.Circuit.{Phase, GpuChallenge}
use halo2_gpu.Circuit.Expression.{GpuExpression}
use halo2_gpu.Circuit.Column.{GpuColumn, GpuAny, GpuAdvice, GpuFixed}
use halo2_gpu.Circuit.System.{GpuConstraintSystem, default}
use halo2_gpu.Circuit.System.Allocate.{
  selector, complex_selector, fixed_column, instance_column, advice_column_in,
  challenge_usable_after,
}
use halo2_gpu.Circuit.System.Configure.{
  GpuTableColumn, Closure, enable_equality, enable_constant, create_gate, lookup, lookup_any,
}
use halo2_gpu.Circuit.System.Rows.{set_minimum_degree}
use halo2_gpu.Circuit.System.Indexed.{IsKnown}
use halo2_gpu.Circuit.System.Gates.{
  IsHonest, InputKnown, PairKnown, GateAdded, LookupAdded, create_gate_lem, lookup_lem,
  lookup_any_lem,
}
use halo2_gpu.Circuit.System.Valid.{
  AllOf-push, IsValid, GateIndexed, LookupIndexed, Referenced-Grows,
}
use halo2_gpu.Circuit.System.Kept.{Queried-IsValid}
use halo2_gpu.Circuit.System.Equality.{enable_equality-IsValid, enable_constant-IsValid}
use halo2_gpu.Circuit.System.Allocated.{
  Grows-same, default-IsValid, selector-IsValid, complex_selector-IsValid, fixed_column-IsValid,
  instance_column-IsValid, set_minimum_degree-IsValid, advice_column_in-IsValid,
  challenge_usable_after-IsValid,
}

-- A configuration: the calls that do not panic, with closures that only query.
pub data Reached {ℓ} {F : Type ℓ} : GpuConstraintSystem F → Type ℓ where
  start : Reached default
  by_selector : {s : GpuConstraintSystem F} → Reached s → Reached (selector s).1
  by_complex_selector : {s : GpuConstraintSystem F} → Reached s → Reached (complex_selector s).1
  by_fixed_column : {s : GpuConstraintSystem F} → Reached s → Reached (fixed_column s).1
  by_instance_column : {s : GpuConstraintSystem F} → Reached s → Reached (instance_column s).1
  by_minimum_degree :
      {s : GpuConstraintSystem F} (degree : ℕ) → Reached s → Reached (set_minimum_degree s degree)
  by_advice_column :
      {s : GpuConstraintSystem F} (phase : Phase) (r : GpuColumn GpuAdvice × GpuConstraintSystem F)
      → Reached s
      → advice_column_in s phase ≡ some r
      → Reached r.1
  by_challenge :
      {s : GpuConstraintSystem F} (phase : Phase) (r : GpuChallenge × GpuConstraintSystem F)
      → Reached s
      → challenge_usable_after s phase ≡ some r
      → Reached r.1
  by_equality :
      {s t : GpuConstraintSystem F} (column : GpuColumn GpuAny)
      → Reached s
      → enable_equality s column ≡ some t
      → Reached t
  by_constant :
      {s t : GpuConstraintSystem F} (column : GpuColumn GpuFixed)
      → Reached s
      → enable_constant s column ≡ some t
      → Reached t
  by_gate :
      {s t : GpuConstraintSystem F} (closure : Closure F (GpuExpression F))
      → IsHonest IsKnown closure
      → Reached s
      → create_gate s closure ≡ some t
      → Reached t
  by_lookup :
      {s : GpuConstraintSystem F} (r : ℕ × GpuConstraintSystem F)
      (closure : Closure F (GpuExpression F × GpuTableColumn))
      → IsHonest InputKnown closure
      → Reached s
      → lookup s closure ≡ some r
      → Reached r.1
  by_lookup_any :
      {s : GpuConstraintSystem F} (r : ℕ × GpuConstraintSystem F)
      (closure : Closure F (GpuExpression F × GpuExpression F))
      → IsHonest PairKnown closure
      → Reached s
      → lookup_any s closure ≡ some r
      → Reached r.1

module _ {ℓ} {F : Type ℓ} where
  GateAdded-IsValid : (s t : GpuConstraintSystem F) → GateAdded s t → IsValid s → IsValid t
  GateAdded-IsValid s t (u, g, q, i, p) v =
      let w = Queried-IsValid s u q v in
      let t' : GpuConstraintSystem F = record u { gates = u.gates ++ g ∷ [] } in
      subst IsValid (sym p) (record {
        counted = w.counted;
        phased = w.phased;
        referenced =
            Referenced-Grows u t' t'.gates u.lookups u.permutation u.constants
              (Grows-same u t' refl refl refl)
              (record {
                gates_indexed = AllOf-push (GateIndexed u) u.gates g (w.referenced).gates_indexed i;
                lookups_indexed = (w.referenced).lookups_indexed;
                permuted = (w.referenced).permuted;
                columns_once = (w.referenced).columns_once;
                constants_permuted = (w.referenced).constants_permuted;
              });
      })

  LookupAdded-IsValid :
      (s : GpuConstraintSystem F) (r : ℕ × GpuConstraintSystem F)
      → LookupAdded s r
      → IsValid s
      → IsValid r.1
  LookupAdded-IsValid s r (u, l, q, i, p) v =
      let w = Queried-IsValid s u q v in
      let t' : GpuConstraintSystem F = record u { lookups = u.lookups ++ l ∷ [] } in
      subst (λ (z : ℕ × GpuConstraintSystem F). IsValid z.1) (sym p)
        (record {
          counted = w.counted;
          phased = w.phased;
          referenced =
              Referenced-Grows u t' u.gates t'.lookups u.permutation u.constants
                (Grows-same u t' refl refl refl)
                (record {
                  gates_indexed = (w.referenced).gates_indexed;
                  lookups_indexed =
                      AllOf-push (LookupIndexed u) u.lookups l (w.referenced).lookups_indexed i;
                  permuted = (w.referenced).permuted;
                  columns_once = (w.referenced).columns_once;
                  constants_permuted = (w.referenced).constants_permuted;
                });
        })

  -- Every constraint system that a configuration reaches is well formed: no query stands twice in
  -- its list, `num_advice_queries` holds for each advice column the number of its queries, every
  -- phase that is used comes after one that is, every gate has a polynomial, every lookup as many
  -- inputs as table expressions, every query in them has the index of its column and rotation,
  -- the permutation's columns are distinct and queried at the current row, and the columns of
  -- constants are among them.
  pub Reached-IsValid : (s : GpuConstraintSystem F) → Reached s → IsValid s
  Reached-IsValid s start = default-IsValid
  Reached-IsValid _ (by_selector {s = s} h) = selector-IsValid s (Reached-IsValid s h)
  Reached-IsValid _ (by_complex_selector {s = s} h) =
      complex_selector-IsValid s (Reached-IsValid s h)
  Reached-IsValid _ (by_fixed_column {s = s} h) = fixed_column-IsValid s (Reached-IsValid s h)
  Reached-IsValid _ (by_instance_column {s = s} h) = instance_column-IsValid s (Reached-IsValid s h)
  Reached-IsValid _ (by_minimum_degree {s = s} d h) =
      set_minimum_degree-IsValid s (Reached-IsValid s h) d
  Reached-IsValid _ (by_advice_column {s = s} phase r h e) =
      advice_column_in-IsValid s (Reached-IsValid s h) phase r e
  Reached-IsValid _ (by_challenge {s = s} phase r h e) =
      challenge_usable_after-IsValid s (Reached-IsValid s h) phase r e
  Reached-IsValid t (by_equality {s = s} c h e) =
      enable_equality-IsValid s t c e (Reached-IsValid s h)
  Reached-IsValid t (by_constant {s = s} c h e) =
      enable_constant-IsValid s t c e (Reached-IsValid s h)
  Reached-IsValid t (by_gate {s = s} c honest h e) =
      GateAdded-IsValid s t (create_gate_lem s t c honest e) (Reached-IsValid s h)
  Reached-IsValid _ (by_lookup {s = s} r c honest h e) =
      LookupAdded-IsValid s r (lookup_lem s r c honest e) (Reached-IsValid s h)
  Reached-IsValid _ (by_lookup_any {s = s} r c honest h e) =
      LookupAdded-IsValid s r (lookup_any_lem s r c honest e) (Reached-IsValid s h)
