-- ===== src/Permutation/Relabel.antt =====
-- halo2_proofs/src/plonk/permutation/keygen.rs: the loop of `copy` that relabels a cycle, and why
-- as many rounds as there are cells are enough for it.
use halo2_gpu.Common.{
  ℕ, zero, suc, ◌+◌, ◌*◌, ◌≤◌, ◌<◌, ◌≡◌, refl, ap, ◌∙◌, subst, true, false, List, [], ◌∷◌, ◌++◌,
  length, length-append, if◌then◌else◌, Bool-cases, arith, inl, inr, Option, some, ltb, ◌==◌,
}
use halo2_gpu.Common.Count.{◌≟◌, ≟_refl, ≟_sym, count, count-append, length_le}
use halo2_gpu.Common.Grid.{
  Cell, cell_eq, Grid, look, IsRect, HasRows, is_inside, index-look, store_lem,
}
use halo2_gpu.Permutation.{relabel, cell_count, cells_from, columns_from}
use halo2_gpu.Permutation.Cycles.{Walk}

-- The image of a cell; a cell out of range is its own.
abbrev pub image : Grid Cell → Cell → Cell
image g x = look x g x

abbrev pub AllInside : ℕ → ℕ → List Cell → Type 0
AllInside m n [] = Unit
AllInside m n (x ∷ xs) = (is_inside m n x ≡ true) × AllInside m n xs

module _ (m n : ℕ) (mapping : Grid Cell) (keep drop : Cell) (rect : IsRect m n mapping) where
  -- The cells of the walk are relabelled, the others stay.
  abbrev Relabelled : List Cell → Grid Cell → Option (Grid Cell) → Type 0
  Relabelled xs aux r =
      (g : Grid Cell) × (r ≡ some g)
      × IsRect m n g
      × ((d y : Cell) → look d g y ≡ (if ltb 0 (count y xs) then keep else look d aux y))

  pub relabel_lem :
      (fuel : ℕ) (i : Cell) (ys : List Cell) (aux : Grid Cell)
      → length ys < fuel
      → Walk (image mapping) i ys drop
      → count drop ys ≡ 0
      → AllInside m n (i ∷ ys)
      → IsRect m n aux
      → Relabelled (i ∷ ys) aux (relabel fuel mapping keep drop i aux)
  unfolding relabel
  relabel_lem zero i ys aux l w c b r = absurd (omega arith)
  relabel_lem (suc fuel) i [] aux l w c b r =
      let (g, p, q, k) = store_lem m n aux i keep r b.0 in
      rw (p, index-look m n i mapping i rect b.0, w, ≟_refl drop)
        (g, refl, q, λ d y. ground (arith, k d y, ≟_sym i y))
  relabel_lem (suc fuel) i (y ∷ ys) aux l w c b r =
      let (g, p, q, k) = store_lem m n aux i keep r b.0 in
      let e : (y ≟ drop) ≡ false = ground (arith, ≟_sym y drop) in
      let (g', p', q', k') = relabel_lem fuel y ys g (omega arith) w.1 (omega (arith, c)) b.1 q in
      rw (p, index-look m n i mapping i rect b.0, w.0, e, p')
        (g', refl, q', λ d z. ground (arith, k' d z, k d z, ≟_sym i z))

abbrev flatten : Grid Cell → List Cell
flatten [] = []
flatten (c ∷ cs) = c ++ flatten cs

length-flatten : (g : Grid Cell) → length (flatten g) ≡ cell_count g
length-flatten [] = refl
length-flatten (c ∷ cs) = omega (arith, length-append c (flatten cs), length-flatten cs)

cell_count-HasRows {ℓ} :
    {A : Type ℓ} (n : ℕ) (g : Grid A) → HasRows n g → cell_count g ≡ length g * n
cell_count-HasRows n [] h = omega arith
cell_count-HasRows n (c ∷ cs) h = grind (arith, cell_count-HasRows n cs h.1)

count-cells_from : (i j k n : ℕ) → j ≤ k → k < j + n → 1 ≤ count (i, k) (cells_from i j n)
count-cells_from i j k zero a b = absurd (omega arith)
count-cells_from i j k (suc n) a b = elim (Bool-cases (k == j)) [
  | inl t ↦ ground arith
  | inr f ↦ ground (arith, count-cells_from i (j + 1) k n (ground arith) (omega arith))
]

count-columns_from :
    (n i j k m : ℕ) → i ≤ j → j < i + m → k < n → 1 ≤ count (j, k) (flatten (columns_from n i m))
count-columns_from n i j k zero a b l = absurd (omega arith)
count-columns_from n i j k (suc m) a b l =
    let c = count-append (j, k) (cells_from i 0 n) (flatten (columns_from n (i + 1) m)) in
    elim (Bool-cases (j == i)) [
      | inl t ↦
          let e : i ≡ j = ground arith in
          let q =
            subst (λ z. 1 ≤ count (z, k) (cells_from i 0 n)) e
              (count-cells_from i 0 k n (omega arith) (omega arith)) in
          omega (arith, c, q)
      | inr f ↦ omega (arith, c, count-columns_from n (i + 1) j k m (ground arith) (omega arith) l)
    ]

length-cells_from : (i j n : ℕ) → length (cells_from i j n) ≡ n
length-cells_from i j zero = refl
length-cells_from i j (suc n) = ap suc (length-cells_from i (j + 1) n)

pub columns_from-IsRect : (n i m : ℕ) → IsRect m n (columns_from n i m)
columns_from-IsRect n i zero = (refl, tt)
columns_from-IsRect n i (suc m) =
    let (p, q) = columns_from-IsRect n (i + 1) m in (ap suc p, (length-cells_from i 0 n, q))

count-outside :
    (m n : ℕ) (y : Cell) (xs : List Cell)
    → is_inside m n y ≡ false
    → AllInside m n xs
    → count y xs ≡ 0
count-outside m n y [] h b = refl
count-outside m n y (x ∷ xs) h b = elim (Bool-cases (y ≟ x)) [
  | inl t ↦ cc (b.0, ap (is_inside m n) ((cell_eq.beq_iff y x).0 t))
  | inr f ↦ rw (f) (omega (arith, count-outside m n y xs h b.1))
]

-- A list of cells in range without duplicates is not longer than the number of cells.
pub enough_fuel :
    (m n : ℕ) (xs : List Cell) {A : Type 0} (g : Grid A)
    → IsRect m n g
    → AllInside m n xs
    → ((y : Cell) → count y xs ≤ 1)
    → length xs ≤ cell_count g
enough_fuel m n xs g r b d =
    let all = columns_from n 0 m in
    let (p, q) = columns_from-IsRect n 0 m in
    let k = length_le xs (flatten all) (λ y. elim (Bool-cases (is_inside m n y)) [
      | inl t ↦
          let c = count-columns_from n 0 y.0 y.1 m (omega arith) (ground arith) (ground arith) in
          omega (arith, d y, c)
      | inr f ↦ omega (arith, count-outside m n y xs f b)
    ]) in
    let u = cell_count-HasRows n g r.1 in
    let v = cell_count-HasRows n all q in
    omega (arith, k, length-flatten all, u ∙ ap (λ t. t * n) r.0, v ∙ ap (λ t. t * n) p)
