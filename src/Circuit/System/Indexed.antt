-- ===== src/Circuit/System/Indexed.antt =====
-- halo2_proofs/src/plonk/circuit.rs: what the indices of the queries in an expression refer to,
-- and that lists of queries which only grow keep them.
use halo2_gpu.Common.{
  ℕ, ◌≡◌, refl, sym, ap, ◌∙◌, subst, Bool, Option, none, some, List, [], ◌∷◌, ◌++◌, arith,
}
use mathlib.Core.List.{append-nil, append_assoc}
use halo2_gpu.Common.Count.{Eq, ◌≟◌, position, position_append}
use halo2_gpu.Circuit.{GpuFixedQuery, GpuAdviceQuery, GpuInstanceQuery}
use halo2_gpu.Circuit.Expression.{
  GpuExpression, constant, selector, fixed, advice, instance_query, challenge, negated, sum,
  product, scaled,
}
use halo2_gpu.Circuit.Column.{GpuAdvice, GpuFixed, the_fixed, GpuInstance, the_instance}
use halo2_gpu.Circuit.Column.Equal.{
  nat_eq, rotation_eq, pair_eq, advice_eq, fixed_eq, instance_eq, column_eq,
}
use halo2_gpu.Circuit.System.{Query, GpuConstraintSystem}
use halo2_gpu.Circuit.System.Queries.{
  position_by, is_fixed, is_advice, is_instance, assign_expr_query_indices,
}

abbrev pub fixed_cell : GpuFixedQuery → Query GpuFixed
fixed_cell q = (record { index = q.column_index; column_type = the_fixed }, q.rotation)

abbrev pub advice_cell : GpuAdviceQuery → Query GpuAdvice
advice_cell q =
    (record { index = q.column_index; column_type = record { phase = q.phase } }, q.rotation)

abbrev pub instance_cell : GpuInstanceQuery → Query GpuInstance
instance_cell q = (record { index = q.column_index; column_type = the_instance }, q.rotation)

abbrev pub Extends {ℓ} : {A : Type ℓ} → List A → List A → Type ℓ
Extends {A = A} qs rs = (ts : List A) × (rs ≡ qs ++ ts)

-- The index is that of the cell's query.
abbrev pub HasIndex {ℓ} : {C : Type ℓ} ⦃e : Eq C⦄ → List (Query C) → Query C → Option ℕ → Type 0
HasIndex qs cell index = (i : ℕ) × (index ≡ some i) × (position qs cell ≡ some i)

-- The same, if there is an index.
abbrev pub MayIndex {ℓ} : {C : Type ℓ} ⦃e : Eq C⦄ → List (Query C) → Query C → Option ℕ → Type 0
MayIndex qs cell index = (i : ℕ) → index ≡ some i → position qs cell ≡ some i

pub Extends-refl {ℓ} : {A : Type ℓ} (qs : List A) → Extends qs qs
Extends-refl qs = ([], sym (append-nil qs))

Extends-trans {ℓ} : {A : Type ℓ} (qs rs ss : List A) → Extends qs rs → Extends rs ss → Extends qs ss
Extends-trans qs rs ss (ts, p) (us, r) = (ts ++ us, r ∙ ap (λ z. z ++ us) p ∙ append_assoc qs ts us)

module _ {ℓ} {C : Type ℓ} ⦃e : Eq C⦄ where
  pub position-Extends :
      (qs rs : List (Query C)) (cell : Query C) (i : ℕ)
      → Extends qs rs
      → position qs cell ≡ some i
      → position rs cell ≡ some i
  position-Extends qs rs cell i (ts, p) h =
      subst (λ z. position z cell ≡ some i) (sym p) (position_append qs ts cell i h)

  HasIndex-Extends :
      (qs rs : List (Query C)) (cell : Query C) (index : Option ℕ)
      → Extends qs rs
      → HasIndex qs cell index
      → HasIndex rs cell index
  HasIndex-Extends qs rs cell index g (i, p, h) = (i, p, position-Extends qs rs cell i g h)

module _ {ℓ} {F : Type ℓ} where
  -- The lists of queries of the second system begin with those of the first.
  pub record Grows (s t : GpuConstraintSystem F) : Type 0 where
    pub fixed_grow : Extends s.fixed_queries t.fixed_queries
    pub advice_grow : Extends s.advice_queries t.advice_queries
    pub instance_grow : Extends s.instance_queries t.instance_queries

  pub Grows-refl : (s : GpuConstraintSystem F) → Grows s s
  Grows-refl s = record {
    fixed_grow = Extends-refl _;
    advice_grow = Extends-refl _;
    instance_grow = Extends-refl _;
  }

  -- Every query has the index of its cell.
  abbrev pub IsIndexed : GpuConstraintSystem F → GpuExpression F → Type 0
  IsIndexed s (fixed q) = HasIndex s.fixed_queries (fixed_cell q) q.index
  IsIndexed s (advice q) = HasIndex s.advice_queries (advice_cell q) q.index
  IsIndexed s (instance_query q) = HasIndex s.instance_queries (instance_cell q) q.index
  IsIndexed s (negated a) = IsIndexed s a
  IsIndexed s (sum a b) = IsIndexed s a × IsIndexed s b
  IsIndexed s (product a b) = IsIndexed s a × IsIndexed s b
  IsIndexed s (scaled a k) = IsIndexed s a
  IsIndexed s _ = Unit

  -- Every query has the index of its cell, or none.
  abbrev pub IsKnown : GpuConstraintSystem F → GpuExpression F → Type 0
  IsKnown s (fixed q) = MayIndex s.fixed_queries (fixed_cell q) q.index
  IsKnown s (advice q) = MayIndex s.advice_queries (advice_cell q) q.index
  IsKnown s (instance_query q) = MayIndex s.instance_queries (instance_cell q) q.index
  IsKnown s (negated a) = IsKnown s a
  IsKnown s (sum a b) = IsKnown s a × IsKnown s b
  IsKnown s (product a b) = IsKnown s a × IsKnown s b
  IsKnown s (scaled a k) = IsKnown s a
  IsKnown s _ = Unit

  -- The expression without its indices.
  abbrev pub erase : GpuExpression F → GpuExpression F
  erase (fixed q) = fixed (record q { index = none })
  erase (advice q) = advice (record q { index = none })
  erase (instance_query q) = instance_query (record q { index = none })
  erase (negated a) = negated (erase a)
  erase (sum a b) = sum (erase a) (erase b)
  erase (product a b) = product (erase a) (erase b)
  erase (scaled a k) = scaled (erase a) k
  erase e = e

  pub Grows-trans : (s t u : GpuConstraintSystem F) → Grows s t → Grows t u → Grows s u
  Grows-trans s t u g h = record {
    fixed_grow = Extends-trans _ _ _ g.fixed_grow h.fixed_grow;
    advice_grow = Extends-trans _ _ _ g.advice_grow h.advice_grow;
    instance_grow = Extends-trans _ _ _ g.instance_grow h.instance_grow;
  }

  pub IsIndexed-Grows :
      (s t : GpuConstraintSystem F) (e : GpuExpression F)
      → Grows s t
      → IsIndexed s e
      → IsIndexed t e
  IsIndexed-Grows s t (fixed q) g h = HasIndex-Extends _ _ (fixed_cell q) q.index g.fixed_grow h
  IsIndexed-Grows s t (advice q) g h = HasIndex-Extends _ _ (advice_cell q) q.index g.advice_grow h
  IsIndexed-Grows s t (instance_query q) g h =
      HasIndex-Extends _ _ (instance_cell q) q.index g.instance_grow h
  IsIndexed-Grows s t (negated a) g h = IsIndexed-Grows s t a g h
  IsIndexed-Grows s t (sum a b) g h = (IsIndexed-Grows s t a g h.0, IsIndexed-Grows s t b g h.1)
  IsIndexed-Grows s t (product a b) g h = (IsIndexed-Grows s t a g h.0, IsIndexed-Grows s t b g h.1)
  IsIndexed-Grows s t (scaled a k) g h = IsIndexed-Grows s t a g h
  IsIndexed-Grows s t (constant k) g h = tt
  IsIndexed-Grows s t (selector k) g h = tt
  IsIndexed-Grows s t (challenge k) g h = tt

  pub IsKnown-Grows :
      (s t : GpuConstraintSystem F) (e : GpuExpression F) → Grows s t → IsKnown s e → IsKnown t e
  IsKnown-Grows s t (fixed q) g h =
      λ i p. position-Extends _ _ (fixed_cell q) i g.fixed_grow (h i p)
  IsKnown-Grows s t (advice q) g h =
      λ i p. position-Extends _ _ (advice_cell q) i g.advice_grow (h i p)
  IsKnown-Grows s t (instance_query q) g h =
      λ i p. position-Extends _ _ (instance_cell q) i g.instance_grow (h i p)
  IsKnown-Grows s t (negated a) g h = IsKnown-Grows s t a g h
  IsKnown-Grows s t (sum a b) g h = (IsKnown-Grows s t a g h.0, IsKnown-Grows s t b g h.1)
  IsKnown-Grows s t (product a b) g h = (IsKnown-Grows s t a g h.0, IsKnown-Grows s t b g h.1)
  IsKnown-Grows s t (scaled a k) g h = IsKnown-Grows s t a g h
  IsKnown-Grows s t (constant k) g h = tt
  IsKnown-Grows s t (selector k) g h = tt
  IsKnown-Grows s t (challenge k) g h = tt

  pub IsIndexed-IsKnown :
      (s : GpuConstraintSystem F) (e : GpuExpression F) → IsIndexed s e → IsKnown s e
  IsIndexed-IsKnown s (fixed q) (j, p, h) = λ i r. h ∙ sym p ∙ r
  IsIndexed-IsKnown s (advice q) (j, p, h) = λ i r. h ∙ sym p ∙ r
  IsIndexed-IsKnown s (instance_query q) (j, p, h) = λ i r. h ∙ sym p ∙ r
  IsIndexed-IsKnown s (negated a) h = IsIndexed-IsKnown s a h
  IsIndexed-IsKnown s (sum a b) h = (IsIndexed-IsKnown s a h.0, IsIndexed-IsKnown s b h.1)
  IsIndexed-IsKnown s (product a b) h = (IsIndexed-IsKnown s a h.0, IsIndexed-IsKnown s b h.1)
  IsIndexed-IsKnown s (scaled a k) h = IsIndexed-IsKnown s a h
  IsIndexed-IsKnown s (constant k) h = tt
  IsIndexed-IsKnown s (selector k) h = tt
  IsIndexed-IsKnown s (challenge k) h = tt

-- The backfilling looks for the same entries as the registration.
position_by-position {ℓ} :
    {A : Type ℓ} ⦃e : Eq A⦄ (p : A → Bool) (xs : List A) (a : A)
    → ((x : A) → p x ≡ (x ≟ a))
    → position_by p xs ≡ position xs a
position_by-position p [] a h = refl
position_by-position p (x ∷ xs) a h = rw (h x, position_by-position p xs a h)

is_fixed_lem : (q : GpuFixedQuery) (r : Query GpuFixed) → is_fixed q r ≡ (r ≟ fixed_cell q)
is_fixed_lem q r = ground arith

is_advice_lem : (q : GpuAdviceQuery) (r : Query GpuAdvice) → is_advice q r ≡ (r ≟ advice_cell q)
is_advice_lem q r = ground arith

is_instance_lem :
    (q : GpuInstanceQuery) (r : Query GpuInstance) → is_instance q r ≡ (r ≟ instance_cell q)
is_instance_lem q r = ground arith

module _ {ℓ} {F : Type ℓ} (s : GpuConstraintSystem F) where
  -- Backfilling an indexed expression that lost its indices gives them back.
  pub assign_erased :
      (e : GpuExpression F)
      → IsIndexed s e
      → assign_expr_query_indices s.fixed_queries s.advice_queries s.instance_queries (erase e)
        ≡ some e
  unfolding assign_expr_query_indices
  assign_erased (fixed q) (i, p, h) =
      rw (position_by-position (is_fixed q) s.fixed_queries (fixed_cell q) (is_fixed_lem q), h)
        (ap (λ z. some (fixed (record q { index = z }))) (sym p))
  assign_erased (advice q) (i, p, h) =
      rw (position_by-position (is_advice q) s.advice_queries (advice_cell q) (is_advice_lem q), h)
        (ap (λ z. some (advice (record q { index = z }))) (sym p))
  assign_erased (instance_query q) (i, p, h) =
      rw
        (
          position_by-position (is_instance q) s.instance_queries (instance_cell q)
              (is_instance_lem q),
          h,
        )
        (ap (λ z. some (instance_query (record q { index = z }))) (sym p))
  assign_erased (negated a) h = rw (assign_erased a h)
  assign_erased (sum a b) h = rw (assign_erased a h.0, assign_erased b h.1)
  assign_erased (product a b) h = rw (assign_erased a h.0, assign_erased b h.1)
  assign_erased (scaled a k) h = rw (assign_erased a h)
  assign_erased (constant k) h = refl
  assign_erased (selector k) h = refl
  assign_erased (challenge k) h = refl
