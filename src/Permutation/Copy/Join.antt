-- ===== src/Permutation/Copy/Join.antt =====
-- halo2_proofs/src/plonk/permutation/keygen.rs: merging one cycle into another succeeds and keeps
-- the invariant.
use halo2_gpu.Common.{
  ℕ, ◌+◌, ◌≡◌, refl, sym, ap, ◌∙◌, subst, true, false, Bool-cases, arith, inl, inr, ◌⊎◌, some,
  if◌then◌else◌,
}
use halo2_gpu.Common.Count.{◌≟◌, ≟_refl, ≟_sym, same, same_of_eq, ltb-same}
use halo2_gpu.Common.Grid.{Cell, cell_eq, Grid, store, IsRect, is_inside, index-look, store_lem}
use halo2_gpu.Permutation.{Assembly, cell_count, relabel, join}
use halo2_gpu.Permutation.Cycles.{Swaps}
use halo2_gpu.Permutation.Merge.{merged}
use halo2_gpu.Permutation.Relabel.{image, relabel_lem}
use halo2_gpu.Permutation.Copy.{IsAssembly, class_of, size_of}
use halo2_gpu.Permutation.Copy.Inside.{class_of_inside, Orbit-AllInside, Orbit_fuel}

module _ {ℓ} {C : Type ℓ} (m n : ℕ) (a : Assembly C) (v : IsAssembly m n a) where
  -- The loop relabels the cells of the dropped cycle.
  relabelled :
      (keep drop : Cell)
      → is_inside m n drop ≡ true
      → class_of a drop ≡ drop
      → (g : Grid Cell) × (relabel (cell_count a.mapping) a.mapping keep drop drop a.aux ≡ some g)
        × IsRect m n g
        × ((y : Cell) → image g y ≡ (if class_of a y ≟ drop then keep else class_of a y))
  relabelled keep drop b i =
      let o = v.cycles drop in
      let one = same_of_eq (class_of a drop) (class_of a drop) refl in
      let (g, p, r, k) =
        relabel_lem m n a.mapping keep drop v.mapping_rect (cell_count a.mapping) drop o.rest a.aux
          (Orbit_fuel m n a v drop b) o.walk (ground (arith, o.tally drop, one, ≟_refl drop))
          (Orbit-AllInside m n a v drop b) v.aux_rect in
      (
        g,
        p,
        r,
        λ y.
            k y y
            ∙ ap (λ t. if t then keep else class_of a y)
                (ltb-same (class_of a y) drop _ (o.tally y ∙ ap (same (class_of a y)) i)),
      )

  -- The two writes swap the images.
  swapped :
      (l r : Cell)
      → is_inside m n l ≡ true
      → is_inside m n r ≡ true
      → (l ≟ r) ≡ false
      → (once twice : Grid Cell) × (store a.mapping l (image a.mapping r) ≡ some once)
        × (store once r (image a.mapping l) ≡ some twice)
        × IsRect m n twice
        × Swaps (image a.mapping) (image twice) l r
  swapped l r hl hr ne =
      let (once, p, q, k) = store_lem m n a.mapping l (image a.mapping r) v.mapping_rect hl in
      let (twice, p', q', k') = store_lem m n once r (image a.mapping l) q hr in
      (
        once,
        twice,
        p,
        p',
        q',
        record {
          at_left = k' l l ∙ rw (≟_sym r l, ne) (k l l ∙ rw (≟_refl l));
          at_right = k' r r ∙ rw (≟_refl r);
          else_same = λ y d d'. k' y y ∙ rw (≟_sym r y, d') (k y y ∙ rw (≟_sym l y, d));
        },
      )

  module _ (l r keep drop : Cell) (hl : is_inside m n l ≡ true) (hr : is_inside m n r ≡ true)
      (ne : (keep ≟ drop) ≡ false)
      (ends : ((class_of a l ≡ keep) × (class_of a r ≡ drop))
        ⊎ ((class_of a l ≡ drop) × (class_of a r ≡ keep))) where
    distinct : (l ≟ r) ≡ false
    distinct = elim (Bool-cases (l ≟ r)) [
      | inl t ↦
          let e : keep ≡ drop = elim ends [
            | inl (p, q) ↦ sym p ∙ ap (class_of a) ((cell_eq.beq_iff l r).0 t) ∙ q
            | inr (p, q) ↦ sym q ∙ sym (ap (class_of a) ((cell_eq.beq_iff l r).0 t)) ∙ p
          ] in
          cc (ne, (cell_eq.beq_iff keep drop).1 e)
      | inr f ↦ f
    ]

    inside_ends : (is_inside m n keep ≡ true) × (is_inside m n drop ≡ true)
    inside_ends = elim ends [
      | inl (p, q) ↦ (
        subst (λ z. is_inside m n z ≡ true) p (class_of_inside m n a v l hl),
        subst (λ z. is_inside m n z ≡ true) q (class_of_inside m n a v r hr),
      )
      | inr (p, q) ↦ (
        subst (λ z. is_inside m n z ≡ true) q (class_of_inside m n a v r hr),
        subst (λ z. is_inside m n z ≡ true) p (class_of_inside m n a v l hl),
      )
    ]

    drop_idem : class_of a drop ≡ drop
    drop_idem = elim ends [
      | inl (p, q) ↦ ap (class_of a) (sym q) ∙ (v.cycles r).idem ∙ q
      | inr (p, q) ↦ ap (class_of a) (sym p) ∙ (v.cycles l).idem ∙ p
    ]

    pub join_lem :
        (a' : Assembly C) × (join a l r keep drop ≡ some a')
        × IsAssembly m n a'
        × (a'.columns ≡ a.columns)
        × ((y : Cell) → class_of a' y ≡ (if class_of a y ≟ drop then keep else class_of a y))
    unfolding join
    join_lem =
        let (hk, hd) = inside_ends in
        let (sizes, p, q, k) =
          store_lem m n a.sizes keep (size_of a.sizes keep + size_of a.sizes drop) v.sizes_rect
            hk in
        let (aux, p', q', k') = relabelled keep drop hd drop_idem in
        let (once, twice, u, u', w, s) = swapped l r hl hr distinct in
        let a' = record a { mapping = twice; aux = aux; sizes = sizes } in
        (
          a',
          rw (
            index-look m n 1 a.sizes keep v.sizes_rect hk,
            index-look m n 1 a.sizes drop v.sizes_rect hd,
            p,
            p',
            index-look m n l a.mapping l v.mapping_rect hl,
            index-look m n r a.mapping r v.mapping_rect hr,
            u,
            u',
          ),
          record {
            columns_length = v.columns_length;
            mapping_rect = w;
            aux_rect = q';
            sizes_rect = q;
            cycles =
                merged (image a.mapping) (image twice) (class_of a) (size_of a.sizes) v.cycles l r
                  keep drop (image aux) (size_of sizes) s ne ends k' (k 1);
          },
          refl,
          k',
        )
