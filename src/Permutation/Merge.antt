-- ===== src/Permutation/Merge.antt =====
-- halo2_proofs/src/plonk/permutation/keygen.rs: the invariant of the copy constraints on functions
-- for the images, the distinguished cells and the sizes, and that merging two cycles keeps it.
use halo2_gpu.Common.{
  ℕ, suc, ◌+◌, ◌≡◌, sym, ap, ap₂, ◌∙◌, subst, false, List, ◌∷◌, ◌++◌, length, length-append,
  if◌then◌else◌, Bool-cases, arith, inl, inr, ◌⊎◌,
}
use halo2_gpu.Common.Count.{Eq, ◌≟◌, ≟_refl, ≟_sym, same, count, count-append, split}
use halo2_gpu.Permutation.Cycles.{
  Walk, Walk-append, Walk-split, Swaps, Swaps-sym, Walk-else, Walk-left,
}

-- The cycle of a cell: a walk from the cell back to it that passes once through every cell with
-- the same distinguished cell and through no other. The distinguished cell is one of them and has
-- their number as its size.
pub record Orbit {ℓ} {K : Type ℓ} ⦃e : Eq K⦄ (next aux : K → K) (size : K → ℕ) (x : K)
    : Type ℓ where
  pub rest : List K
  pub walk : Walk next x rest x
  pub tally : (y : K) → count y (x ∷ rest) ≡ same (aux y) (aux x)
  pub counted : size (aux x) ≡ suc (length rest)
  pub idem : aux (aux x) ≡ aux x

abbrev pub AreCycles {ℓ} : {K : Type ℓ} ⦃e : Eq K⦄ → (K → K) → (K → K) → (K → ℕ) → Type ℓ
AreCycles next aux size = (x : _) → Orbit next aux size x

module _ {ℓ} {K : Type ℓ} ⦃e : Eq K⦄ (next next' aux : K → K) (size : K → ℕ)
    (inv : AreCycles next aux size) where
  -- The cells of both cycles, from one of the left one.
  abbrev Joined : K → K → K → Type ℓ
  Joined l r x =
      (ys : List K) × Walk next' x ys x
      × ((y : K) → count y (x ∷ ys) ≡ same (aux y) (aux l) + same (aux y) (aux r))
      × (suc (length ys) ≡ size (aux l) + size (aux r))

  right-Walk :
      (l r : K) → Swaps next next' l r → (aux l ≟ aux r) ≡ false → Walk next' l (inv r).rest r
  right-Walk l r s ne =
      let o = inv r in
      Walk-left next next' l r o.rest r s (ground (arith, o.tally l))
        (ground (arith, o.tally r, ≟_refl r, ≟_refl (aux r))) o.walk

  Joined-self : (l r : K) → Swaps next next' l r → (aux l ≟ aux r) ≡ false → Joined l r l
  Joined-self l r s ne =
      let o = inv l in
      let o' = inv r in
      let back =
        Walk-left next next' r l o.rest l (Swaps-sym next next' l r s)
          (ground (arith, o.tally r, ≟_sym (aux l) (aux r)))
          (ground (arith, o.tally l, ≟_refl l, ≟_refl (aux l))) o.walk in
      (
        o'.rest ++ r ∷ o.rest,
        Walk-append next' l o'.rest r o.rest l (right-Walk l r s ne) back,
        (λ y. omega (arith, o.tally y, o'.tally y, count-append y o'.rest (r ∷ o.rest))),
        omega (arith, o.counted, o'.counted, length-append o'.rest (r ∷ o.rest)),
      )

  module _ (l r x : K) (s : Swaps next next' l r) (ne : (aux l ≟ aux r) ≡ false)
      (h : aux x ≡ aux l) where
    Joined-between : (us vs : List K) → (inv x).rest ≡ us ++ l ∷ vs → (l ≟ x) ≡ false → Joined l r x
    Joined-between us vs c d =
        let o = inv x in
        let o' = inv r in
        let p : same (aux l) (aux x) ≡ 1 = rw (h, ≟_refl (aux l)) in
        let q : same (aux r) (aux x) ≡ 0 = rw (h, ≟_sym (aux r) (aux l), ne) in
        let (to, back) = Walk-split next x us l vs x (subst (λ zs. Walk next x zs x) c o.walk) in
        let count_of : (y : K) → count y o.rest ≡ count y us + (same y l + count y vs) =
          λ y. ap (count y) c ∙ count-append y us (l ∷ vs) in
        let to' =
          Walk-else next next' l r x us l s (ground (arith, o.tally l, count_of l, ≟_refl l))
            (ground (arith, o.tally r, count_of r)) to in
        let back' =
          Walk-left next next' r l vs x (Swaps-sym next next' l r s)
            (ground (arith, o.tally r, count_of r))
            (ground (arith, o.tally l, count_of l, ≟_refl l)) back in
        (
          us ++ l ∷ (o'.rest ++ r ∷ vs),
          Walk-append next' x us l (o'.rest ++ r ∷ vs) x to'
              (Walk-append next' l o'.rest r vs x (right-Walk l r s ne) back'),
          (λ y. omega (
            arith,
            o.tally y,
            o'.tally y,
            count_of y,
            ap (same (aux y)) h,
            count-append y us (l ∷ (o'.rest ++ r ∷ vs)),
            count-append y o'.rest (r ∷ vs),
          )),
          omega (
            arith,
            o.counted,
            o'.counted,
            ap size h,
            ap length c,
            length-append us (l ∷ vs),
            length-append us (l ∷ (o'.rest ++ r ∷ vs)),
            length-append o'.rest (r ∷ vs),
          ),
        )

    joined : Joined l r x
    joined = elim (Bool-cases (l ≟ x)) [
      | inl t ↦ subst (Joined l r) ((e.beq_iff l x).0 t) (Joined-self l r s ne)
      | inr d ↦
          let p : same (aux l) (aux x) ≡ 1 = rw (h, ≟_refl (aux l)) in
          let (us, vs, c) = split l (inv x).rest (ground (arith, (inv x).tally l)) in
          Joined-between us vs c d
    ]

  -- The walk of a cell in neither cycle.
  apart :
      (l r x : K)
      → Swaps next next' l r
      → (aux l ≟ aux x) ≡ false
      → (aux r ≟ aux x) ≡ false
      → Walk next' x (inv x).rest x
  apart l r x s p q =
      let o = inv x in
      Walk-else next next' l r x o.rest x s (ground (arith, o.tally l)) (ground (arith, o.tally r))
        o.walk

  -- After the cycle with the distinguished cell `drop` has joined that of `keep`.
  module _ (l r keep drop : K) (aux' : K → K) (size' : K → ℕ) (s : Swaps next next' l r)
      (ne : (keep ≟ drop) ≡ false)
      (ends : ((aux l ≡ keep) × (aux r ≡ drop)) ⊎ ((aux l ≡ drop) × (aux r ≡ keep)))
      (relabelled : (y : K) → aux' y ≡ (if aux y ≟ drop then keep else aux y))
      (resized : (y : K) → size' y ≡ (if keep ≟ y then size keep + size drop else size y)) where
    -- The distinguished cells are their own.
    keep_idem : aux keep ≡ keep
    keep_idem = elim ends [
      | inl (p, q) ↦ rw (← p) (inv l).idem
      | inr (p, q) ↦ rw (← q) (inv r).idem
    ]

    apart_ends : (aux l ≟ aux r) ≡ false
    apart_ends = elim ends [
      | inl (p, q) ↦ rw (p, q) ne
      | inr (p, q) ↦ rw (p, q, ≟_sym drop keep) ne
    ]

    abbrev Shared : K → Type ℓ
    Shared x =
        (ys : List K) × Walk next' x ys x
        × ((y : K) → count y (x ∷ ys) ≡ same (aux y) keep + same (aux y) drop)
        × (suc (length ys) ≡ size keep + size drop)

    -- From either cell, for either name of the two cycles.
    Shared-from :
        (a b x : K)
        → ((a ≡ keep) × (b ≡ drop)) ⊎ ((a ≡ drop) × (b ≡ keep))
        → (ys : List K) × Walk next' x ys x
          × ((y : K) → count y (x ∷ ys) ≡ same (aux y) a + same (aux y) b)
          × (suc (length ys) ≡ size a + size b)
        → Shared x
    Shared-from a b x (inl (p, q)) (ys, w, t, n) = (
      ys,
      w,
      (λ y. t y ∙ ap₂ (λ u v. same (aux y) u + same (aux y) v) p q),
      n ∙ ap₂ (λ u v. size u + size v) p q,
    )
    Shared-from a b x (inr (p, q)) (ys, w, t, n) = (
      ys,
      w,
      (λ y. omega (arith, t y, ap (same (aux y)) p, ap (same (aux y)) q)),
      omega (arith, n, ap size p, ap size q),
    )

    Shared-left : (x : K) → aux x ≡ aux l → Shared x
    Shared-left x h = Shared-from (aux l) (aux r) x ends (joined l r x s apart_ends h)

    Shared-right : (x : K) → aux x ≡ aux r → Shared x
    Shared-right x h =
        Shared-from (aux r) (aux l) x (swapped ends)
          (joined r l x (Swaps-sym next next' l r s) (≟_sym (aux r) (aux l) ∙ apart_ends) h)
      where
        swapped :
            ((aux l ≡ keep) × (aux r ≡ drop)) ⊎ ((aux l ≡ drop) × (aux r ≡ keep))
            → ((aux r ≡ keep) × (aux l ≡ drop)) ⊎ ((aux r ≡ drop) × (aux l ≡ keep))
        swapped (inl (p, q)) = inr (q, p)
        swapped (inr (p, q)) = inl (q, p)

    shared : (x : K) → (aux x ≡ keep) ⊎ (aux x ≡ drop) → Shared x
    shared x (inl h) = elim ends [
      | inl (p, q) ↦ Shared-left x (h ∙ sym p)
      | inr (p, q) ↦ Shared-right x (h ∙ sym q)
    ]
    shared x (inr h) = elim ends [
      | inl (p, q) ↦ Shared-right x (h ∙ sym q)
      | inr (p, q) ↦ Shared-left x (h ∙ sym p)
    ]

    aux'_keep : (x : K) → (aux x ≡ keep) ⊎ (aux x ≡ drop) → aux' x ≡ keep
    aux'_keep x (inl h) = relabelled x ∙ rw (h, ne)
    aux'_keep x (inr h) = relabelled x ∙ rw (h, ≟_refl drop)

    same-keep : (y : K) → same (aux y) keep + same (aux y) drop ≡ same (aux' y) keep
    same-keep y =
        ground (arith, relabelled y, e.beq_iff (aux y) drop, ≟_refl keep, ≟_sym keep drop, ne)

    same_else :
        (x y : K)
        → (keep ≟ aux x) ≡ false
        → (drop ≟ aux x) ≡ false
        → same (aux y) (aux x) ≡ same (aux' y) (aux x)
    same_else x y p q = ground (arith, relabelled y, e.beq_iff (aux y) drop)

    in_either : (x : K) → (aux x ≡ keep) ⊎ (aux x ≡ drop) → Orbit next' aux' size' x
    in_either x h =
        let (ys, w, t, n) = shared x h in
        let a = aux'_keep x h in
        record {
          rest = ys;
          walk = w;
          tally = λ y. t y ∙ same-keep y ∙ ap (same (aux' y)) (sym a);
          counted = ap size' a ∙ resized keep ∙ (rw (≟_refl keep) (sym n));
          idem = ap aux' a ∙ aux'_keep keep (inl keep_idem) ∙ sym a;
        }

    in_neither :
        (x : K) → (keep ≟ aux x) ≡ false → (drop ≟ aux x) ≡ false → Orbit next' aux' size' x
    in_neither x p q =
        let o = inv x in
        let a : aux' x ≡ aux x = relabelled x ∙ rw (≟_sym (aux x) drop, q) in
        record {
          rest = o.rest;
          walk = elim ends [
            | inl (u, v) ↦ apart l r x s (rw u p) (rw v q)
            | inr (u, v) ↦ apart l r x s (rw u q) (rw v p)
          ];
          tally = λ y. o.tally y ∙ same_else x y p q ∙ ap (same (aux' y)) (sym a);
          counted = ap size' a ∙ resized (aux x) ∙ rw (p) o.counted;
          idem = ap aux' a ∙ relabelled (aux x) ∙ rw (o.idem, ≟_sym (aux x) drop, q) (sym a);
        }

    pub merged : AreCycles next' aux' size'
    merged x = elim (Bool-cases (keep ≟ aux x)) [
      | inl t ↦ in_either x (inl (sym ((e.beq_iff keep (aux x)).0 t)))
      | inr p ↦ elim (Bool-cases (drop ≟ aux x)) [
        | inl t ↦ in_either x (inr (sym ((e.beq_iff drop (aux x)).0 t)))
        | inr q ↦ in_neither x p q
      ]
    ]
