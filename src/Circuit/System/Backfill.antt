-- ===== src/Circuit/System/Backfill.antt =====
-- halo2_proofs/src/plonk/circuit.rs: the backfilling of the query indices at the end of the
-- conversion from the constraint system of the crate halo2-axiom, which does not carry them, and
-- the index of a permutation column.
use halo2_gpu.Common.{
  ℕ, ◌≡◌, refl, subst, true, Option, some, List, [], ◌∷◌, map, get_elem?, ◌>>=◌, Bool-cases, inl,
  inr, arith,
}
use halo2_gpu.Common.Count.{◌≟◌, contains, position_get}
use halo2_gpu.Circuit.{Rotation}
use halo2_gpu.Circuit.Expression.{GpuExpression}
use halo2_gpu.Circuit.Column.{
  GpuColumn, GpuAny, any_advice, any_fixed, any_instance, GpuAdvice, GpuFixed, the_fixed,
  GpuInstance, the_instance, from_column, from_fixed, from_instance, try_advice, try_fixed,
  try_instance,
}
use halo2_gpu.Circuit.Column.Equal.{
  nat_eq, rotation_eq, pair_eq, any_eq, advice_eq, fixed_eq, instance_eq, column_eq,
}
use halo2_gpu.Circuit.System.{Query, GpuConstraintSystem, GpuGate}
use halo2_gpu.Circuit.System.Queries.{
  assign_expr_query_indices, get_any_query_index, get_advice_query_index, get_fixed_query_index,
  get_instance_query_index,
}
use halo2_gpu.Circuit.System.Configure.{cur}
use halo2_gpu.Circuit.System.Indexed.{IsIndexed, erase, assign_erased}
use halo2_gpu.Circuit.System.Valid.{AllOf, GateIndexed, LookupIndexed, IsQueried}
use halo2_gpu.Circuit.System.Reached.{Reached, Reached-IsValid}
use halo2_gpu.Lookup.{Argument}

module _ {ℓ} {F : Type ℓ} where
  module _ (fq : List (Query GpuFixed)) (aq : List (Query GpuAdvice))
      (iq : List (Query GpuInstance)) where
    abbrev assign_all : List (GpuExpression F) → Option (List (GpuExpression F))
    assign_all [] = some []
    assign_all (e ∷ es) = do
      x ← assign_expr_query_indices fq aq iq e
      xs ← assign_all es
      some (x ∷ xs)

    abbrev assign_gates : List (GpuGate F) → Option (List (GpuGate F))
    assign_gates [] = some []
    assign_gates (g ∷ gs) = do
      polys ← assign_all g.polys
      rest ← assign_gates gs
      some (record g { polys = polys } ∷ rest)

    abbrev assign_lookups : List (Argument F) → Option (List (Argument F))
    assign_lookups [] = some []
    assign_lookups (l ∷ ls) = do
      inputs ← assign_all l.input_expressions
      tables ← assign_all l.table_expressions
      rest ← assign_lookups ls
      some (record { input_expressions = inputs; table_expressions = tables } ∷ rest)

  -- The loops over the gates and the lookups of the converted system.
  unfoldable pub backfill : GpuConstraintSystem F → Option (GpuConstraintSystem F)
  backfill out = do
    gates ← assign_gates out.fixed_queries out.advice_queries out.instance_queries out.gates
    lookups ← assign_lookups out.fixed_queries out.advice_queries out.instance_queries out.lookups
    some (record out { gates = gates; lookups = lookups })

  abbrev erase_gate : GpuGate F → GpuGate F
  erase_gate g = record g { polys = map erase g.polys }

  abbrev erase_lookup : Argument F → Argument F
  erase_lookup l = record {
    input_expressions = map erase l.input_expressions;
    table_expressions = map erase l.table_expressions;
  }

  -- The system without the indices of the queries.
  abbrev pub erase_indices : GpuConstraintSystem F → GpuConstraintSystem F
  erase_indices s = record s {
    gates = map erase_gate s.gates;
    lookups = map erase_lookup s.lookups;
  }

  module _ (s : GpuConstraintSystem F) where
    assign_all_lem :
        (es : List (GpuExpression F))
        → AllOf (IsIndexed s) es
        → assign_all s.fixed_queries s.advice_queries s.instance_queries (map erase es) ≡ some es
    assign_all_lem [] h = refl
    assign_all_lem (e ∷ es) h = rw (assign_erased s e h.0, assign_all_lem es h.1)

    assign_gates_lem :
        (gs : List (GpuGate F))
        → AllOf (GateIndexed s) gs
        → assign_gates s.fixed_queries s.advice_queries s.instance_queries (map erase_gate gs)
          ≡ some gs
    assign_gates_lem [] h = refl
    assign_gates_lem (g ∷ gs) h = rw (assign_all_lem g.polys (h.0).1, assign_gates_lem gs h.1)

    assign_lookups_lem :
        (ls : List (Argument F))
        → AllOf (LookupIndexed s) ls
        → assign_lookups s.fixed_queries s.advice_queries s.instance_queries (map erase_lookup ls)
          ≡ some ls
    assign_lookups_lem [] h = refl
    assign_lookups_lem (l ∷ ls) h = rw (
      assign_all_lem l.input_expressions (h.0).1,
      assign_all_lem l.table_expressions (h.0).2,
      assign_lookups_lem ls h.1,
    )

    -- If a constraint system that a configuration reaches loses the indices of its queries, the
    -- backfilling does not panic and gives back the same system.
    pub backfill-erase_indices : Reached s → backfill (erase_indices s) ≡ some s
    unfolding backfill
    backfill-erase_indices h =
        let v = (Reached-IsValid s h).referenced in
        rw
          (assign_gates_lem s.gates v.gates_indexed, assign_lookups_lem s.lookups v.lookups_indexed)

  -- The entry at an index of the list of queries for a column's type.
  abbrev pub entry : GpuConstraintSystem F → GpuAny → ℕ → Option (GpuColumn GpuAny × Rotation)
  entry s (any_advice _) i =
      get_elem? s.advice_queries i >>= λ q. some (from_column any_advice q.0, q.1)
  entry s any_fixed i = get_elem? s.fixed_queries i >>= λ q. some (from_column from_fixed q.0, q.1)
  entry s any_instance i =
      get_elem? s.instance_queries i >>= λ q. some (from_column from_instance q.0, q.1)

  get_as-entry :
      (s : GpuConstraintSystem F) (n : ℕ) (t : GpuAny) (at : Rotation) (i : ℕ)
      → get_any_query_index s (record { index = n; column_type = t }) at ≡ some i
      → entry s t i ≡ some (record { index = n; column_type = t }, at)
  unfolding get_any_query_index get_advice_query_index get_fixed_query_index
      get_instance_query_index try_advice try_fixed try_instance
  get_as-entry s n (any_advice a) at i h =
      rw (position_get s.advice_queries (record { index = n; column_type = a }, at) i h)
  get_as-entry s n any_fixed at i h =
      rw (position_get s.fixed_queries (record { index = n; column_type = the_fixed }, at) i h)
  get_as-entry s n any_instance at i h =
      rw
        (position_get s.instance_queries (record { index = n; column_type = the_instance }, at) i h)

  find-IsQueried :
      (s : GpuConstraintSystem F) (cs : List (GpuColumn GpuAny)) (c : GpuColumn GpuAny)
      → AllOf (IsQueried s) cs
      → contains cs c ≡ true
      → IsQueried s c
  find-IsQueried s [] c h k = cc
  find-IsQueried s (d ∷ ds) c h k = elim (Bool-cases (d ≟ c)) [
    | inl t ↦ subst (IsQueried s) ((column_eq.beq_iff d c).0 t) h.0
    | inr f ↦ find-IsQueried s ds c h.1 (ground arith)
  ]

  -- In a constraint system that a configuration reaches, `get_any_query_index` does not panic on
  -- a column of the permutation at the current row, and the list for the column's type has the
  -- column's query at the index.
  pub get_any_query_index_total :
      (s : GpuConstraintSystem F) (c : GpuColumn GpuAny)
      → Reached s
      → contains s.permutation.columns c ≡ true
      → (i : ℕ) × (get_any_query_index s c cur ≡ some i) × (entry s c.column_type i ≡ some (c, cur))
  get_any_query_index_total s c h k =
      let (i, p) =
        find-IsQueried s s.permutation.columns c ((Reached-IsValid s h).referenced).permuted k in
      (i, p, get_as-entry s c.index c.column_type cur i p)
