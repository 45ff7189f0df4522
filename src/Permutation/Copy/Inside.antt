-- ===== src/Permutation/Copy/Inside.antt =====
-- halo2_proofs/src/plonk/permutation/keygen.rs: the cycle of a cell in range has only cells in
-- range, and a walk around it is shorter than the number of cells.
use halo2_gpu.Common.{
  ℕ, ◌≤◌, ◌<◌, ◌≡◌, refl, sym, ◌∙◌, subst, true, List, [], ◌∷◌, length, Bool-cases, arith, inl, inr,
}
use halo2_gpu.Common.Count.{≟_refl, same_of_eq, eq_of_same, same_le, count}
use halo2_gpu.Common.Grid.{Cell, cell_eq, is_inside, look_outside}
use halo2_gpu.Permutation.{Assembly, cell_count}
use halo2_gpu.Permutation.Cycles.{Walk}
use halo2_gpu.Permutation.Relabel.{image, AllInside, enough_fuel}
use halo2_gpu.Permutation.Copy.{IsAssembly, class_of}

AllInside-count :
    (m n : ℕ) (xs : List Cell)
    → ((y : Cell) → 1 ≤ count y xs → is_inside m n y ≡ true)
    → AllInside m n xs
AllInside-count m n [] h = tt
AllInside-count m n (x ∷ xs) h =
    (h x (ground (arith, ≟_refl x)), AllInside-count m n xs (λ y k. h y (omega (arith, k))))

-- A walk from a fixed cell that does not pass it again ends at once.
fixed-Walk :
    (next : Cell → Cell) (x : Cell) (ys : List Cell)
    → next x ≡ x
    → count x ys ≡ 0
    → Walk next x ys x
    → ys ≡ []
fixed-Walk next x [] p c w = refl
fixed-Walk next x (y ∷ ys) p c w =
    let e : x ≡ y = sym p ∙ w.0 in absurd (ground (arith, (cell_eq.beq_iff x y).1 e))

module _ {ℓ} {C : Type ℓ} (m n : ℕ) (a : Assembly C) (v : IsAssembly m n a) where
  pub class_inside :
      (x y : Cell) → is_inside m n x ≡ true → class_of a y ≡ class_of a x → is_inside m n y ≡ true
  class_inside x y h e = elim (Bool-cases (is_inside m n y)) [
    | inl t ↦ t
    | inr f ↦
        let o = v.cycles y in
        let p =
          fixed-Walk (image a.mapping) y o.rest (look_outside m n y a.mapping y v.mapping_rect f)
            (ground (arith, o.tally y, ≟_refl y, ≟_refl (class_of a y))) o.walk in
        let q : count x (y ∷ []) ≡ 1 =
          subst (λ zs. count x (y ∷ zs) ≡ 1) p
            (o.tally x ∙ same_of_eq (class_of a x) (class_of a y) (sym e)) in
        subst (λ z. is_inside m n z ≡ true) (eq_of_same x y (omega (arith, q))) h
  ]

  -- The distinguished cell is in range.
  pub class_of_inside : (x : Cell) → is_inside m n x ≡ true → is_inside m n (class_of a x) ≡ true
  class_of_inside x h = class_inside x (class_of a x) h (v.cycles x).idem

  pub Orbit-AllInside : (x : Cell) → is_inside m n x ≡ true → AllInside m n (x ∷ (v.cycles x).rest)
  Orbit-AllInside x h = AllInside-count m n (x ∷ (v.cycles x).rest) (λ y k.
      class_inside x y h
        (eq_of_same (class_of a y) (class_of a x) (omega (arith, k, (v.cycles x).tally y))))

  pub Orbit_fuel :
      (x : Cell) → is_inside m n x ≡ true → length (v.cycles x).rest < cell_count a.mapping
  Orbit_fuel x h = omega (
    arith,
    enough_fuel m n (x ∷ (v.cycles x).rest) a.mapping v.mapping_rect (Orbit-AllInside x h)
        (λ y. omega (arith, (v.cycles x).tally y, same_le (class_of a y) (class_of a x))),
  )
