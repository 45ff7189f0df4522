-- ===== src/Circuit/System/Gates.antt =====
-- halo2_proofs/src/plonk/circuit.rs: `create_gate`, `lookup` and `lookup_any` leave gates and
-- lookups whose queries have their index.
use halo2_gpu.Common.{
  ℕ, suc, ◌≡◌, refl, sym, ap, subst, Bool, true, false, Option, none, some, List, [], ◌∷◌, ◌++◌,
  length, >>=-eq-some, if◌then◌else◌, arith,
}
use mathlib.Core.Option.{some-injective}
use halo2_gpu.Circuit.Expression.{GpuExpression, contains_simple_selector}
use halo2_gpu.Circuit.Column.Equal.{rotation_eq, pair_eq, fixed_eq, column_eq}
use halo2_gpu.Circuit.System.{GpuConstraintSystem, GpuGate}
use halo2_gpu.Circuit.System.Cells.{GpuVirtualCells, new as new_cells, query_cells, query_fixed}
use halo2_gpu.Circuit.System.Configure.{
  GpuTableColumn, Closure, Pairs, cur, query_polys, query_pairs, query_tables, push_gate,
  push_lookup, create_gate, lookup, lookup_any,
}
use halo2_gpu.Circuit.System.Indexed.{
  IsIndexed, IsKnown, IsIndexed-Grows, IsKnown-Grows, IsIndexed-IsKnown,
}
use halo2_gpu.Circuit.System.Register.{Queried, itself, Queried-trans, Queried-Grows}
use halo2_gpu.Circuit.System.Methods.{query_fixed_lem}
use halo2_gpu.Circuit.System.Resolve.{query_cells_lem}
use halo2_gpu.Circuit.System.Valid.{AllOf, AllOf-map, GateIndexed, LookupIndexed}
use halo2_gpu.Lookup.{Argument, new as new_lookup}

module _ {ℓ} {F : Type ℓ} where
  -- What the circuit's closures may do: they change the system by queries only, and the queries in
  -- what they return have no index or that of their cell.
  abbrev pub IsHonest {κ} :
      {A : Type κ} → (GpuConstraintSystem F → A → Type 0) → Closure F A → Type (ℓ ⊔ κ)
  IsHonest {A = A} known closure =
      (cells : GpuVirtualCells F) (r : List A × GpuVirtualCells F)
      → closure cells ≡ some r
      → Queried cells.meta (r.1).meta × AllOf (known (r.1).meta) r.0

  -- The polynomials stay known while the system grows.
  IsKnown-later :
      (s t : GpuConstraintSystem F) (es : List (GpuExpression F))
      → Queried s t
      → AllOf (IsKnown s) es
      → AllOf (IsKnown t) es
  IsKnown-later s t es q h =
      AllOf-map (IsKnown s) (IsKnown t) (λ e. IsKnown-Grows s t e (Queried-Grows q)) es h

  abbrev PolysIndexed : GpuVirtualCells F → ℕ → List (GpuExpression F) × GpuVirtualCells F → Type ℓ
  PolysIndexed cells n r =
      Queried cells.meta (r.1).meta × (length r.0 ≡ n) × AllOf (IsIndexed (r.1).meta) r.0

  query_polys_lem :
      (es : List (GpuExpression F)) (cells : GpuVirtualCells F)
      (r : List (GpuExpression F) × GpuVirtualCells F)
      → AllOf (IsKnown cells.meta) es
      → query_polys es cells ≡ some r
      → PolysIndexed cells (length es) r
  unfolding query_polys
  query_polys_lem [] cells r k h =
      subst (PolysIndexed cells 0) (some-injective _ r h) (itself, refl, tt)
  query_polys_lem (e ∷ es) cells r k h =
      let (x, p, h') = >>=-eq-some (query_cells e cells) _ h in
      let (y, p', h'') = >>=-eq-some (query_polys es x.1) _ h' in
      let (q, i, _) = query_cells_lem e cells x k.0 p in
      let (q', l, is) =
        query_polys_lem es x.1 y (IsKnown-later cells.meta (x.1).meta es q k.1) p' in
      subst (PolysIndexed cells (length (e ∷ es))) (some-injective _ r h'') (
        Queried-trans q q',
        ap suc l,
        (IsIndexed-Grows (x.1).meta (y.1).meta x.0 (Queried-Grows q') i, is),
      )

  abbrev pub PairKnown : GpuConstraintSystem F → GpuExpression F × GpuExpression F → Type 0
  PairKnown s p = IsKnown s p.0 × IsKnown s p.1

  abbrev pub PairIndexed : GpuConstraintSystem F → GpuExpression F × GpuExpression F → Type 0
  PairIndexed s p = IsIndexed s p.0 × IsIndexed s p.1

  abbrev pub InputKnown : GpuConstraintSystem F → GpuExpression F × GpuTableColumn → Type 0
  InputKnown s p = IsKnown s p.0

  abbrev pub PairsIndexed : GpuVirtualCells F → Pairs F × GpuVirtualCells F → Type ℓ
  PairsIndexed cells r = Queried cells.meta (r.1).meta × AllOf (PairIndexed (r.1).meta) r.0

  -- A pair, and then the others.
  pair_step :
      (cells : GpuVirtualCells F) (input table : GpuExpression F)
      (x y : GpuExpression F × GpuVirtualCells F) (z : Pairs F × GpuVirtualCells F)
      → IsKnown cells.meta input
      → IsKnown cells.meta table
      → query_cells input cells ≡ some x
      → query_cells table x.1 ≡ some y
      → (Queried cells.meta (y.1).meta → PairsIndexed y.1 z)
      → PairsIndexed cells ((x.0, y.0) ∷ z.0, z.1)
  pair_step cells input table x y z k l p p' later =
      let (q, i, _) = query_cells_lem input cells x k p in
      let (q', i', _) =
        query_cells_lem table x.1 y (IsKnown-Grows cells.meta (x.1).meta table (Queried-Grows q) l)
          p' in
      let (q'', is) = later (Queried-trans q q') in
      (
        Queried-trans (Queried-trans q q') q'',
        (
          (
            IsIndexed-Grows (x.1).meta (z.1).meta x.0 (Queried-Grows (Queried-trans q' q'')) i,
            IsIndexed-Grows (y.1).meta (z.1).meta y.0 (Queried-Grows q'') i',
          ),
          is,
        ),
      )

  query_pairs_lem :
      (ps : Pairs F) (cells : GpuVirtualCells F) (r : Pairs F × GpuVirtualCells F)
      → AllOf (PairKnown cells.meta) ps
      → query_pairs ps cells ≡ some r
      → PairsIndexed cells r
  unfolding query_pairs
  query_pairs_lem [] cells r k h = subst (PairsIndexed cells) (some-injective _ r h) (itself, tt)
  query_pairs_lem ((input, table) ∷ ps) cells r k h =
      let (x, p, h') = >>=-eq-some (query_cells input cells) _ h in
      let (y, p', h'') = >>=-eq-some (query_cells table x.1) _ h' in
      let (z, p'', h''') = >>=-eq-some (query_pairs ps y.1) _ h'' in
      subst (PairsIndexed cells) (some-injective _ r h''') (
        pair_step cells input table x y z (k.0).0 (k.0).1 p p' (λ q.
          query_pairs_lem ps y.1 z
            (AllOf-map (PairKnown cells.meta) (PairKnown (y.1).meta)
              (λ a b. (
                IsKnown-Grows cells.meta (y.1).meta a.0 (Queried-Grows q) b.0,
                IsKnown-Grows cells.meta (y.1).meta a.1 (Queried-Grows q) b.1,
              ))
              ps k.1)
            p''))

  unless :
      (b : Bool) (o : Option (Pairs F × GpuVirtualCells F)) (r : Pairs F × GpuVirtualCells F)
      → (if b then none else o) ≡ some r
      → o ≡ some r
  unless true o r h = cc
  unless false o r h = h

  query_tables_lem :
      (ps : List (GpuExpression F × GpuTableColumn)) (cells : GpuVirtualCells F)
      (r : Pairs F × GpuVirtualCells F)
      → AllOf (InputKnown cells.meta) ps
      → query_tables ps cells ≡ some r
      → PairsIndexed cells r
  unfolding query_tables
  query_tables_lem [] cells r k h = subst (PairsIndexed cells) (some-injective _ r h) (itself, tt)
  query_tables_lem ((input, column) ∷ ps) cells r k h =
      let table = query_fixed cells column.inner cur in
      let (q, indexed) = query_fixed_lem cells cur column.inner in
      let known = IsIndexed-IsKnown (table.1).meta table.0 indexed in
      let g = unless (contains_simple_selector input) _ r h in
      let (x, p, h') = >>=-eq-some (query_cells input table.1) _ g in
      let (y, p', h'') = >>=-eq-some (query_cells table.0 x.1) _ h' in
      let (z, p'', h''') = >>=-eq-some (query_tables ps y.1) _ h'' in
      let later = λ (s : GpuConstraintSystem F) (u : Queried cells.meta s).
        AllOf-map (InputKnown cells.meta) (InputKnown s)
          (λ a. IsKnown-Grows cells.meta s a.0 (Queried-Grows u)) ps k.1 in
      let (t, is) =
        pair_step table.1 input table.0 x y z
          (IsKnown-Grows cells.meta (table.1).meta input (Queried-Grows q) k.0) known p p'
          (λ u. query_tables_lem ps y.1 z (later (y.1).meta (Queried-trans q u)) p'') in
      subst (PairsIndexed cells) (some-injective _ r h''') (Queried-trans q t, is)

  abbrev pub GateAdded : GpuConstraintSystem F → GpuConstraintSystem F → Type ℓ
  GateAdded s t =
      (u : GpuConstraintSystem F) × (g : GpuGate F) × Queried s u
      × GateIndexed u g
      × (t ≡ record u { gates = u.gates ++ g ∷ [] })

  gate_pushed :
      (s : GpuConstraintSystem F) (es : List (GpuExpression F)) (cells : GpuVirtualCells F)
      (t : GpuConstraintSystem F)
      → Queried s cells.meta
      → AllOf (IsIndexed cells.meta) es
      → push_gate es cells ≡ some t
      → GateAdded s t
  gate_pushed s [] cells t q i h = cc
  gate_pushed s (e ∷ es) cells t q i h =
      (cells.meta, _, q, (omega arith, i), sym (some-injective _ t h))

  -- Where it succeeds, `create_gate` registers queries and adds a gate, which is not empty.
  pub create_gate_lem :
      (s t : GpuConstraintSystem F) (closure : Closure F (GpuExpression F))
      → IsHonest IsKnown closure
      → create_gate s closure ≡ some t
      → GateAdded s t
  unfolding create_gate new_cells
  create_gate_lem s t closure honest h =
      let (c, p, h') = >>=-eq-some (closure (new_cells s)) _ h in
      let (polys, p', h'') = >>=-eq-some (query_polys c.0 c.1) _ h' in
      let (q, k) = honest (new_cells s) c p in
      let (q', _, i) = query_polys_lem c.0 c.1 polys k p' in
      gate_pushed s polys.0 polys.1 t (Queried-trans q q') i h''

  abbrev pub LookupAdded : GpuConstraintSystem F → ℕ × GpuConstraintSystem F → Type ℓ
  LookupAdded s r =
      (u : GpuConstraintSystem F) × (l : Argument F) × Queried s u
      × LookupIndexed u l
      × (r ≡ (length u.lookups, record u { lookups = u.lookups ++ l ∷ [] }))

  new_LookupIndexed :
      (s : GpuConstraintSystem F) (ps : Pairs F)
      → AllOf (PairIndexed s) ps
      → LookupIndexed s (new_lookup ps)
  unfolding new_lookup
  new_LookupIndexed s [] h = (refl, tt, tt)
  new_LookupIndexed s (p ∷ ps) h =
      let (l, i, t) = new_LookupIndexed s ps h.1 in (ap suc l, ((h.0).0, i), ((h.0).1, t))

  lookup_pushed :
      (s : GpuConstraintSystem F) (z : Pairs F × GpuVirtualCells F) (r : ℕ × GpuConstraintSystem F)
      → Queried s (z.1).meta
      → AllOf (PairIndexed (z.1).meta) z.0
      → some (push_lookup z) ≡ some r
      → LookupAdded s r
  lookup_pushed s (ps, cells) r q i h =
      (cells.meta, new_lookup ps, q, new_LookupIndexed cells.meta ps i, sym (some-injective _ r h))

  pub lookup_lem :
      (s : GpuConstraintSystem F) (r : ℕ × GpuConstraintSystem F)
      (closure : Closure F (GpuExpression F × GpuTableColumn))
      → IsHonest InputKnown closure
      → lookup s closure ≡ some r
      → LookupAdded s r
  unfolding lookup new_cells
  lookup_lem s r closure honest h =
      let (c, p, h') = >>=-eq-some (closure (new_cells s)) _ h in
      let (z, p', h'') = >>=-eq-some (query_tables c.0 c.1) _ h' in
      let (q, k) = honest (new_cells s) c p in
      let (q', i) = query_tables_lem c.0 c.1 z k p' in
      lookup_pushed s z r (Queried-trans q q') i h''

  pub lookup_any_lem :
      (s : GpuConstraintSystem F) (r : ℕ × GpuConstraintSystem F)
      (closure : Closure F (GpuExpression F × GpuExpression F))
      → IsHonest PairKnown closure
      → lookup_any s closure ≡ some r
      → LookupAdded s r
  unfolding lookup_any new_cells
  lookup_any_lem s r closure honest h =
      let (c, p, h') = >>=-eq-some (closure (new_cells s)) _ h in
      let (z, p', h'') = >>=-eq-some (query_pairs c.0 c.1) _ h' in
      let (q, k) = honest (new_cells s) c p in
      let (q', i) = query_pairs_lem c.0 c.1 z k p' in lookup_pushed s z r (Queried-trans q q') i h''
