-- ===== src/Circuit/System/Resolve.antt =====
-- halo2_proofs/src/plonk/circuit.rs: `query_cells` gives every query of an expression the index of
-- its cell.
use halo2_gpu.Common.{
  ℕ, ◌<◌, ◌≡◌, refl, sym, ap, ap₂, ◌∙◌, subst, Bool, true, false, Option, none, some, length,
  >>=-eq-some,
}
use mathlib.Core.Option.{some-injective}
use halo2_gpu.Circuit.{Rotation, GpuFixedQuery, GpuAdviceQuery, GpuInstanceQuery, GpuSelector}
use halo2_gpu.Circuit.Expression.{
  GpuExpression, constant, selector, fixed, advice, instance_query, challenge, negated, sum,
  product, scaled,
}
use halo2_gpu.Circuit.Column.{
  GpuColumn, GpuAdvice, the_fixed, the_instance, from_column, any_advice,
}
use halo2_gpu.Circuit.System.{GpuConstraintSystem}
use halo2_gpu.Circuit.System.Cells.{
  GpuVirtualCells, push_cell, register_fixed, register_advice, register_instance, query_cells,
  cells_of_fixed, cells_of_advice, cells_of_instance, cells_of_selector,
}
use halo2_gpu.Circuit.System.Indexed.{IsIndexed, IsKnown, erase, IsIndexed-Grows, IsKnown-Grows}
use halo2_gpu.Circuit.System.Register.{
  Queried, itself, by_fixed, by_advice, by_instance, Queried-trans, Queried-Grows,
  query_fixed_index_lem, query_advice_index_lem, query_instance_index_lem, query_advice_index_total,
}
use halo2_gpu.Circuit.System.Queries.{query_advice_index, query_fixed_index, query_instance_index}

module _ {ℓ} {F : Type ℓ} where
  -- The expression comes back with the indices of its cells, and is the same but for them.
  abbrev pub Resolves :
      GpuVirtualCells F → GpuExpression F → GpuExpression F × GpuVirtualCells F → Type ℓ
  Resolves cells e r =
      Queried cells.meta (r.1).meta × IsIndexed (r.1).meta r.0 × (erase r.0 ≡ erase e)

  fixed_Resolves :
      (cells : GpuVirtualCells F) (q : GpuFixedQuery) (o : Option ℕ)
      → q.index ≡ o
      → IsKnown cells.meta (fixed q)
      → Resolves cells (fixed q) (cells_of_fixed o q cells)
  unfolding register_fixed
  fixed_Resolves cells q (some i) p k = (itself, (i, p, k i p), refl)
  fixed_Resolves cells q none p k =
      let (g, h, c) =
        query_fixed_index_lem cells.meta
          (record { index = q.column_index; column_type = the_fixed }) q.rotation in
      (by_fixed _ q.rotation itself, (_, refl, h), refl)

  instance_Resolves :
      (cells : GpuVirtualCells F) (q : GpuInstanceQuery) (o : Option ℕ)
      → q.index ≡ o
      → IsKnown cells.meta (instance_query q)
      → Resolves cells (instance_query q) (cells_of_instance o q cells)
  unfolding register_instance
  instance_Resolves cells q (some i) p k = (itself, (i, p, k i p), refl)
  instance_Resolves cells q none p k =
      let (g, h, c) =
        query_instance_index_lem cells.meta
          (record { index = q.column_index; column_type = the_instance }) q.rotation in
      (by_instance _ q.rotation itself, (_, refl, h), refl)

  advice_Resolves :
      (cells : GpuVirtualCells F) (q : GpuAdviceQuery) (o : Option ℕ)
      (r : GpuExpression F × GpuVirtualCells F)
      → q.index ≡ o
      → IsKnown cells.meta (advice q)
      → cells_of_advice o q cells ≡ some r
      → Resolves cells (advice q) r
  unfolding register_advice
  advice_Resolves cells q (some i) r p k h =
      subst (Resolves cells (advice q)) (some-injective _ r h) (itself, (i, p, k i p), refl)
  advice_Resolves cells q none r p k h =
      let column : GpuColumn GpuAdvice = record {
        index = q.column_index;
        column_type = record { phase = q.phase };
      } in
      let (x, e, f) = >>=-eq-some (register_advice cells column q.rotation) _ h in
      let (y, e', f') = >>=-eq-some (query_advice_index cells.meta column q.rotation) _ e in
      let (g, l, _, _) = query_advice_index_lem cells.meta column q.rotation y e' in
      let final =
        ap (λ z. (advice (record q { index = some z.0 }), z.1)) (some-injective _ x f')
        ∙ some-injective _ r f in
      subst (Resolves cells (advice q)) final
        (by_advice column q.rotation y.0 itself e', (y.0, refl, l), refl)

  selector_meta :
      (b : Bool) (s : GpuSelector) (cells : GpuVirtualCells F)
      → (cells_of_selector b s cells).meta ≡ cells.meta
  selector_meta true s cells = refl
  selector_meta false s cells = refl

  -- Two expressions, one after the other.
  module _ (cells : GpuVirtualCells F) (a b : GpuExpression F)
      (x y : GpuExpression F × GpuVirtualCells F) (p : Resolves cells a x)
      (q : Resolves x.1 b y) where
    sum_Resolves : Resolves cells (sum a b) (sum x.0 y.0, y.1)
    sum_Resolves = (
      Queried-trans p.0 q.0,
      (IsIndexed-Grows (x.1).meta (y.1).meta x.0 (Queried-Grows q.0) p.1, q.1),
      ap₂ sum p.2 q.2,
    )

    product_Resolves : Resolves cells (product a b) (product x.0 y.0, y.1)
    product_Resolves = (
      Queried-trans p.0 q.0,
      (IsIndexed-Grows (x.1).meta (y.1).meta x.0 (Queried-Grows q.0) p.1, q.1),
      ap₂ product p.2 q.2,
    )

  -- Where `query_cells` succeeds on an expression whose queries have no index or that of their
  -- cell, it has registered the queries, and returned the expression with all indices.
  pub query_cells_lem :
      (e : GpuExpression F) (cells : GpuVirtualCells F) (r : GpuExpression F × GpuVirtualCells F)
      → IsKnown cells.meta e
      → query_cells e cells ≡ some r
      → Resolves cells e r
  unfolding query_cells
  query_cells_lem (constant c) cells r k h =
      subst (Resolves cells (constant c)) (some-injective _ r h) (itself, tt, refl)
  query_cells_lem (challenge c) cells r k h =
      subst (Resolves cells (challenge c)) (some-injective _ r h) (itself, tt, refl)
  query_cells_lem (selector s) cells r k h =
      subst (Resolves cells (selector s)) (some-injective _ r h)
        (subst (Queried cells.meta) (sym (selector_meta _ s cells)) itself, tt, refl)
  query_cells_lem (fixed q) cells r k h =
      subst (Resolves cells (fixed q)) (some-injective _ r h)
        (fixed_Resolves cells q q.index refl k)
  query_cells_lem (instance_query q) cells r k h =
      subst (Resolves cells (instance_query q)) (some-injective _ r h)
        (instance_Resolves cells q q.index refl k)
  query_cells_lem (advice q) cells r k h = advice_Resolves cells q q.index r refl k h
  query_cells_lem (negated a) cells r k h =
      let (x, e, f) = >>=-eq-some (query_cells a cells) _ h in
      let (q, i, s) = query_cells_lem a cells x k e in
      subst (Resolves cells (negated a)) (some-injective _ r f) (q, i, ap negated s)
  query_cells_lem (scaled a c) cells r k h =
      let (x, e, f) = >>=-eq-some (query_cells a cells) _ h in
      let (q, i, s) = query_cells_lem a cells x k e in
      subst (Resolves cells (scaled a c)) (some-injective _ r f) (q, i, ap (λ z. scaled z c) s)
  query_cells_lem (sum a b) cells r k h =
      let (x, e, f) = >>=-eq-some (query_cells a cells) _ h in
      let (y, e', f') = >>=-eq-some (query_cells b x.1) _ f in
      let p = query_cells_lem a cells x k.0 e in
      let q =
        query_cells_lem b x.1 y (IsKnown-Grows cells.meta (x.1).meta b (Queried-Grows p.0) k.1)
          e' in
      subst (Resolves cells (sum a b)) (some-injective _ r f') (sum_Resolves cells a b x y p q)
  query_cells_lem (product a b) cells r k h =
      let (x, e, f) = >>=-eq-some (query_cells a cells) _ h in
      let (y, e', f') = >>=-eq-some (query_cells b x.1) _ f in
      let p = query_cells_lem a cells x k.0 e in
      let q =
        query_cells_lem b x.1 y (IsKnown-Grows cells.meta (x.1).meta b (Queried-Grows p.0) k.1)
          e' in
      subst (Resolves cells (product a b)) (some-injective _ r f')
        (product_Resolves cells a b x y p q)

  -- The columns of the advice queries that have no index yet are less than `n`.
  abbrev pub IsWithin : ℕ → GpuExpression F → Type 0
  IsWithin n (advice q) = q.index ≡ none → q.column_index < n
  IsWithin n (negated a) = IsWithin n a
  IsWithin n (sum a b) = IsWithin n a × IsWithin n b
  IsWithin n (product a b) = IsWithin n a × IsWithin n b
  IsWithin n (scaled a k) = IsWithin n a
  IsWithin n _ = Unit

  pub Queried-length :
      {s t : GpuConstraintSystem F}
      → Queried s t
      → length t.num_advice_queries ≡ length s.num_advice_queries
  unfolding query_fixed_index query_instance_index
  Queried-length itself = refl
  Queried-length (by_fixed column at h) = Queried-length h
  Queried-length (by_advice {t = t} {u = u} column at i h e) =
      (query_advice_index_lem t column at (i, u) e).2 ∙ Queried-length h
  Queried-length (by_instance column at h) = Queried-length h

  abbrev Done : Option (GpuExpression F × GpuVirtualCells F) → Type ℓ
  Done o = (r : GpuExpression F × GpuVirtualCells F) × (o ≡ some r)

  register_advice_done :
      (cells : GpuVirtualCells F) (column : GpuColumn GpuAdvice) (at : Rotation)
      → column.index < length (cells.meta).num_advice_queries
      → (r : ℕ × GpuVirtualCells F) × (register_advice cells column at ≡ some r)
  unfolding register_advice
  register_advice_done cells column at h =
      let (x, e) = query_advice_index_total cells.meta column at h in
      (
        (
          x.0,
          record cells {
            meta = x.1;
            queried_cells = push_cell cells (from_column any_advice column) at;
          },
        ),
        rw (e),
      )

  advice-Done :
      (cells : GpuVirtualCells F) (q : GpuAdviceQuery) (o : Option ℕ)
      → q.index ≡ o
      → IsWithin (length (cells.meta).num_advice_queries) (advice q)
      → Done (cells_of_advice o q cells)
  advice-Done cells q (some i) p w = ((advice q, cells), refl)
  advice-Done cells q none p w =
      let (x, e) =
        register_advice_done cells
          (record { index = q.column_index; column_type = record { phase = q.phase } }) q.rotation
          (w p) in
      ((advice (record q { index = some x.0 }), x.1), rw (e))

  later-IsWithin :
      (a b : GpuExpression F) (cells : GpuVirtualCells F) (x : GpuExpression F × GpuVirtualCells F)
      → IsKnown cells.meta a
      → query_cells a cells ≡ some x
      → IsWithin (length (cells.meta).num_advice_queries) b
      → IsWithin (length ((x.1).meta).num_advice_queries) b
  later-IsWithin a b cells x k e w =
      subst (λ n. IsWithin n b) (sym (Queried-length (query_cells_lem a cells x k e).0)) w

  query_cells-Done :
      (e : GpuExpression F) (cells : GpuVirtualCells F)
      → IsKnown cells.meta e
      → IsWithin (length (cells.meta).num_advice_queries) e
      → Done (query_cells e cells)
  unfolding query_cells
  query_cells-Done (constant c) cells k w = (_, refl)
  query_cells-Done (challenge c) cells k w = (_, refl)
  query_cells-Done (selector s) cells k w = (_, refl)
  query_cells-Done (fixed q) cells k w = (_, refl)
  query_cells-Done (instance_query q) cells k w = (_, refl)
  query_cells-Done (advice q) cells k w = advice-Done cells q q.index refl w
  query_cells-Done (negated a) cells k w =
      let (x, e) = query_cells-Done a cells k w in ((negated x.0, x.1), rw (e))
  query_cells-Done (scaled a c) cells k w =
      let (x, e) = query_cells-Done a cells k w in ((scaled x.0 c, x.1), rw (e))
  query_cells-Done (sum a b) cells k w =
      let (x, e) = query_cells-Done a cells k.0 w.0 in
      let g = Queried-Grows (query_cells_lem a cells x k.0 e).0 in
      let (y, f) =
        query_cells-Done b x.1 (IsKnown-Grows cells.meta (x.1).meta b g k.1)
          (later-IsWithin a b cells x k.0 e w.1) in
      ((sum x.0 y.0, y.1), rw (e, f))
  query_cells-Done (product a b) cells k w =
      let (x, e) = query_cells-Done a cells k.0 w.0 in
      let g = Queried-Grows (query_cells_lem a cells x k.0 e).0 in
      let (y, f) =
        query_cells-Done b x.1 (IsKnown-Grows cells.meta (x.1).meta b g k.1)
          (later-IsWithin a b cells x k.0 e w.1) in
      ((product x.0 y.0, y.1), rw (e, f))

  -- If the queries of an expression have no index or that of their cell, and the advice columns
  -- of those without one exist, `query_cells` does not panic. It registers queries only, and
  -- returns the same expression with the index of its cell in every query.
  pub query_cells_total :
      (e : GpuExpression F) (cells : GpuVirtualCells F)
      → IsKnown cells.meta e
      → IsWithin (length (cells.meta).num_advice_queries) e
      → (r : GpuExpression F × GpuVirtualCells F) × (query_cells e cells ≡ some r)
        × Resolves cells e r
  query_cells_total e cells k w =
      let (r, h) = query_cells-Done e cells k w in (r, h, query_cells_lem e cells r k h)
