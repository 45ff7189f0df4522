-- ===== src/Permutation/Copy/Connect.antt =====
-- halo2_proofs/src/plonk/permutation/keygen.rs: what `copy` returns, and what it connects.
use halo2_gpu.Common.{
  ℕ, ◌≤◌, ◌<◌, ◌≡◌, ◌≢◌, ◌↔◌, refl, sym, ap, ◌∙◌, true, false, Bool-cases, Option-cases, arith, inl,
  inr, ◌⊎◌, Option, some, none, if◌then◌else◌, ltb, leb,
}
use halo2_gpu.Common.Count.{Eq, ◌≟◌, ≟_sym, position, position_lt}
use halo2_gpu.Common.Grid.{Cell, cell_eq, is_inside, index-look, HasRows-get}
use halo2_gpu.Permutation.{
  Assembly, ok, err, stuck, bounds_failure, column_not_in_permutation, balance, connect, copy,
  is_beyond,
}
use halo2_gpu.Permutation.Copy.{IsAssembly, class_of, size_of}
use halo2_gpu.Permutation.Copy.Inside.{class_of_inside}
use halo2_gpu.Permutation.Copy.Join.{join_lem}

module _ {ℓ} {K : Type ℓ} ⦃e : Eq K⦄ (keep drop : K) where
  merged_to :
      (p q : K)
      → (if p ≟ drop then keep else p) ≡ (if q ≟ drop then keep else q)
      → (p ≡ q) ⊎ (((p ≡ keep) ⊎ (p ≡ drop)) × ((q ≡ keep) ⊎ (q ≡ drop)))
  merged_to p q h = elim (Bool-cases (p ≟ drop)) [
    | inl t ↦ elim (Bool-cases (q ≟ drop)) [
      | inl u ↦ inl ((e.beq_iff p drop).0 t ∙ sym ((e.beq_iff q drop).0 u))
      | inr u ↦ inr (inr ((e.beq_iff p drop).0 t), inl (ground (arith, h)))
    ]
    | inr t ↦ elim (Bool-cases (q ≟ drop)) [
      | inl u ↦ inr (inl (ground (arith, h)), inr ((e.beq_iff q drop).0 u))
      | inr u ↦ inl (ground (arith, h))
    ]
  ]

  merged_keep : (p : K) → (p ≡ keep) ⊎ (p ≡ drop) → (if p ≟ drop then keep else p) ≡ keep
  merged_keep p (inl h) = ground arith
  merged_keep p (inr h) = ground (arith, (e.beq_iff p drop).1 h)

turn {ℓ κ} : {A : Type ℓ} {B : Type κ} → A ⊎ B → B ⊎ A
turn (inl a) = inr a
turn (inr b) = inl b

module _ {ℓ} {C : Type ℓ} (m n : ℕ) (a : Assembly C) (v : IsAssembly m n a) where
  -- The cell is in the cycle of one of the two.
  abbrev pub Touches : Cell → Cell → Cell → Type 0
  Touches l r x = (class_of a x ≡ class_of a l) ⊎ (class_of a x ≡ class_of a r)

  -- The two cycles have become one, the others stay.
  abbrev pub Connects : Cell → Cell → Assembly C → Type 0
  Connects l r a' =
      (x y : Cell)
      → (class_of a' x ≡ class_of a' y)
        ↔ ((class_of a x ≡ class_of a y) ⊎ (Touches l r x × Touches l r y))

  abbrev pub Connected : Cell → Cell → Option (Assembly C) → Type ℓ
  Connected l r o =
      (a' : Assembly C) × (o ≡ some a')
      × IsAssembly m n a'
      × (a'.columns ≡ a.columns)
      × Connects l r a'

  same_class :
      (l r x y : Cell)
      → class_of a l ≡ class_of a r
      → (class_of a x ≡ class_of a y)
        ↔ ((class_of a x ≡ class_of a y) ⊎ (Touches l r x × Touches l r y))
  same_class l r x y h = ((λ p. inl p), from)
    where
      to_left : (z : Cell) → Touches l r z → class_of a z ≡ class_of a l
      to_left z (inl p) = p
      to_left z (inr p) = p ∙ sym h

      from :
          (class_of a x ≡ class_of a y) ⊎ (Touches l r x × Touches l r y)
          → class_of a x ≡ class_of a y
      from (inl p) = p
      from (inr (p, q)) = to_left x p ∙ sym (to_left y q)

  Connects-via :
      (l r keep drop : Cell) (a' : Assembly C)
      → ((y : Cell) → class_of a' y ≡ (if class_of a y ≟ drop then keep else class_of a y))
      → ((x : Cell) → Touches l r x ↔ ((class_of a x ≡ keep) ⊎ (class_of a x ≡ drop)))
      → Connects l r a'
  Connects-via l r keep drop a' k t x y = (to, from)
    where
      to :
          class_of a' x ≡ class_of a' y
          → (class_of a x ≡ class_of a y) ⊎ (Touches l r x × Touches l r y)
      to h = elim (merged_to keep drop (class_of a x) (class_of a y) (sym (k x) ∙ h ∙ k y)) [
        | inl p ↦ inl p
        | inr (p, q) ↦ inr ((t x).1 p, (t y).1 q)
      ]

      from :
          (class_of a x ≡ class_of a y) ⊎ (Touches l r x × Touches l r y)
          → class_of a' x ≡ class_of a' y
      from (inl p) = k x ∙ ap (λ z. if z ≟ drop then keep else z) p ∙ sym (k y)
      from (inr (p, q)) =
          k x
          ∙ merged_keep keep drop (class_of a x) ((t x).0 p)
          ∙ sym (merged_keep keep drop (class_of a y) ((t y).0 q))
          ∙ sym (k y)

  module _ (l r : Cell) (hl : is_inside m n l ≡ true) (hr : is_inside m n r ≡ true) where
    balance_lem :
        (class_of a l ≟ class_of a r) ≡ false
        → Connected l r (balance a l r (class_of a l) (class_of a r))
    unfolding balance
    balance_lem ne =
        let il =
          index-look m n 1 a.sizes (class_of a l) v.sizes_rect (class_of_inside m n a v l hl) in
        let ir =
          index-look m n 1 a.sizes (class_of a r) v.sizes_rect (class_of_inside m n a v r hr) in
        elim (Bool-cases (ltb (size_of a.sizes (class_of a l)) (size_of a.sizes (class_of a r)))) [
          | inl t ↦
              let (a', p, w, c, k) =
                join_lem m n a v l r (class_of a r) (class_of a l) hl hr
                  (≟_sym (class_of a r) (class_of a l) ∙ ne) (inr (refl, refl)) in
              rw (il, ir, t)
                (
                  a',
                  p,
                  w,
                  c,
                  Connects-via l r (class_of a r) (class_of a l) a' k (λ x. (turn, turn)),
                )
          | inr f ↦
              let (a', p, w, c, k) =
                join_lem m n a v l r (class_of a l) (class_of a r) hl hr ne (inl (refl, refl)) in
              rw (il, ir, f)
                (
                  a',
                  p,
                  w,
                  c,
                  Connects-via l r (class_of a l) (class_of a r) a' k (λ x. ((λ t. t), (λ t. t))),
                )
        ]

    pub connect_lem : Connected l r (connect a l r)
    unfolding connect
    connect_lem =
        let il = index-look m n l a.aux l v.aux_rect hl in
        let ir = index-look m n r a.aux r v.aux_rect hr in
        elim (Bool-cases (class_of a l ≟ class_of a r)) [
          | inl t ↦
              rw (il, ir, t)
                (a, refl, v, refl, λ x y. same_class l r x y ((cell_eq.beq_iff _ _).0 t))
          | inr f ↦ rw (il, ir, f) (balance_lem f)
        ]

-- `copy` checks the columns and the rows, in this order.
module _ {ℓ} {C : Type ℓ} ⦃e : Eq C⦄ where
  copy_left :
      (a : Assembly C) (left right : C) (lr rr : ℕ)
      → position a.columns left ≡ none
      → copy a left lr right rr ≡ err (column_not_in_permutation left)
  unfolding copy
  copy_left a left right lr rr p = rw (p)

  copy_right :
      (a : Assembly C) (left right : C) (lr rr i : ℕ)
      → position a.columns left ≡ some i
      → position a.columns right ≡ none
      → copy a left lr right rr ≡ err (column_not_in_permutation right)
  unfolding copy
  copy_right a left right lr rr i p q = rw (p, q)

  module _ (m n : ℕ) (a : Assembly C) (v : IsAssembly m n a) where
    is_beyond_lem : (i row : ℕ) → i < m → is_beyond a.mapping i row ≡ some (leb n row)
    is_beyond_lem i row h =
        let (c, p, l) =
          HasRows-get m n a.mapping i v.mapping_rect.1 (omega (arith, v.mapping_rect.0)) in
        rw (p, l)

    -- From a state with the invariant, where both columns are in the permutation and both rows in
    -- range, `copy` returns a state that keeps the invariant and the columns, in which two cells
    -- are in one cycle exactly if they were, or if each was in the cycle of one of the two cells.
    pub copy-Connects :
        (left right : C) (i j left_row right_row : ℕ)
        → position a.columns left ≡ some i
        → position a.columns right ≡ some j
        → left_row < n
        → right_row < n
        → (a' : Assembly C) × (copy a left left_row right right_row ≡ ok a')
          × IsAssembly m n a'
          × (a'.columns ≡ a.columns)
          × Connects m n a v (i, left_row) (j, right_row) a'
    unfolding copy
    copy-Connects left right i j lr rr p q hl hr =
        let bi : i < m = omega (arith, position_lt a.columns left i p, v.columns_length) in
        let bj : j < m = omega (arith, position_lt a.columns right j q, v.columns_length) in
        let (a', u, w, c, k) = connect_lem m n a v (i, lr) (j, rr) (ground arith) (ground arith) in
        let gl : leb n lr ≡ false = ground arith in
        let gr : leb n rr ≡ false = ground arith in
        (a', rw (p, q, is_beyond_lem i lr bi, is_beyond_lem j rr bj, gl, gr, u), w, c, k)

    copy_beyond :
        (left right : C) (i j lr rr : ℕ)
        → position a.columns left ≡ some i
        → position a.columns right ≡ some j
        → (n ≤ lr) ⊎ (n ≤ rr)
        → copy a left lr right rr ≡ err bounds_failure
    unfolding copy
    copy_beyond left right i j lr rr p q h =
        let bi =
          is_beyond_lem i lr (omega (arith, position_lt a.columns left i p, v.columns_length)) in
        let bj =
          is_beyond_lem j rr (omega (arith, position_lt a.columns right j q, v.columns_length)) in
        elim (Bool-cases (leb n lr)) [
          | inl t ↦ rw (p, q, bi, t)
          | inr f ↦ let g : leb n rr ≡ true = ground arith in rw (p, q, bi, bj, f, g)
        ]

    -- From a state with the invariant, where both columns are in the permutation, `copy` reports a
    -- bounds failure exactly if one of the rows is not in range.
    pub copy_bounds :
        (left right : C) (i j left_row right_row : ℕ)
        → position a.columns left ≡ some i
        → position a.columns right ≡ some j
        → (copy a left left_row right right_row ≡ err bounds_failure)
          ↔ ((n ≤ left_row) ⊎ (n ≤ right_row))
    copy_bounds left right i j lr rr p q = (to, from)
      where
        to : copy a left lr right rr ≡ err bounds_failure → (n ≤ lr) ⊎ (n ≤ rr)
        to h = elim (Bool-cases (leb n lr)) [
          | inl t ↦ inl (ground arith)
          | inr f ↦ elim (Bool-cases (leb n rr)) [
            | inl t ↦ inr (ground arith)
            | inr g ↦
                let (a', u, _, _, _) =
                  copy-Connects left right i j lr rr p q (ground arith) (ground arith) in
                cc (u, h)
          ]
        ]

        from : (n ≤ lr) ⊎ (n ≤ rr) → copy a left lr right rr ≡ err bounds_failure
        from h = copy_beyond left right i j lr rr p q h

    -- From a state with the invariant, `copy` never reads out of range, and its loop always ends.
    pub copy-ne-stuck :
        (left right : C) (left_row right_row : ℕ) → copy a left left_row right right_row ≢ stuck
    copy-ne-stuck left right lr rr h = elim (Option-cases (position a.columns left)) [
      | inl p ↦ cc (copy_left a left right lr rr p, h)
      | inr (i, p) ↦ elim (Option-cases (position a.columns right)) [
        | inl q ↦ cc (copy_right a left right lr rr i p q, h)
        | inr (j, q) ↦ elim (Bool-cases (leb n lr)) [
          | inl t ↦ cc (copy_beyond left right i j lr rr p q (inl (ground arith)), h)
          | inr f ↦ elim (Bool-cases (leb n rr)) [
            | inl t ↦ cc (copy_beyond left right i j lr rr p q (inr (ground arith)), h)
            | inr g ↦
                let (a', u, _, _, _) =
                  copy-Connects left right i j lr rr p q (ground arith) (ground arith) in
                cc (u, h)
          ]
        ]
      ]
    ]
