-- ===== src/Permutation/Cycles.antt =====
-- Walks along a function on cells, and what changing two of its images does to them.
use halo2_gpu.Common.{◌≡◌, ◌∙◌, false, List, [], ◌∷◌, ◌++◌, arith}
use halo2_gpu.Common.Count.{Eq, ◌≟◌, ≟_sym, count}

module _ {ℓ} {K : Type ℓ} where
  -- `next` leads from `x` through `ys` to `z`.
  abbrev pub Walk : (K → K) → K → List K → K → Type ℓ
  Walk next x [] z = next x ≡ z
  Walk next x (y ∷ ys) z = (next x ≡ y) × Walk next y ys z

  pub Walk-append :
      (next : K → K) (x : K) (ys : List K) (y : K) (zs : List K) (z : K)
      → Walk next x ys y
      → Walk next y zs z
      → Walk next x (ys ++ y ∷ zs) z
  Walk-append next x [] y zs z h k = (h, k)
  Walk-append next x (w ∷ ys) y zs z h k = (h.0, Walk-append next w ys y zs z h.1 k)

  pub Walk-split :
      (next : K → K) (x : K) (ys : List K) (y : K) (zs : List K) (z : K)
      → Walk next x (ys ++ y ∷ zs) z
      → Walk next x ys y × Walk next y zs z
  Walk-split next x [] y zs z h = (h.0, h.1)
  Walk-split next x (w ∷ ys) y zs z h =
      let (a, b) = Walk-split next w ys y zs z h.1 in ((h.0, a), b)

  -- A walk from another cell with the same image.
  pub Walk-start :
      (next : K → K) (x y : K) (zs : List K) (z : K)
      → next y ≡ next x
      → Walk next x zs z
      → Walk next y zs z
  Walk-start next x y [] z e h = e ∙ h
  Walk-start next x y (w ∷ zs) z e h = (e ∙ h.0, h.1)

module _ {ℓ} {K : Type ℓ} ⦃e : Eq K⦄ where
  -- `next'` has the images of `next` but at two cells, whose images it swaps.
  pub record Swaps (next next' : K → K) (l r : K) : Type ℓ where
    pub at_left : next' l ≡ next r
    pub at_right : next' r ≡ next l
    pub else_same : (y : K) → (y ≟ l) ≡ false → (y ≟ r) ≡ false → next' y ≡ next y

  pub Swaps-sym : (next next' : K → K) (l r : K) → Swaps next next' l r → Swaps next next' r l
  Swaps-sym next next' l r s = record {
    at_left = s.at_right;
    at_right = s.at_left;
    else_same = λ y p q. s.else_same y q p;
  }

  -- A walk that starts at neither cell and passes neither stays.
  pub Walk-else :
      (next next' : K → K) (l r x : K) (ys : List K) (z : K)
      → Swaps next next' l r
      → count l (x ∷ ys) ≡ 0
      → count r (x ∷ ys) ≡ 0
      → Walk next x ys z
      → Walk next' x ys z
  Walk-else next next' l r x [] z s p q h =
      s.else_same x (ground (arith, ≟_sym l x)) (ground (arith, ≟_sym r x)) ∙ h
  Walk-else next next' l r x (y ∷ ys) z s p q h = (
    s.else_same x (ground (arith, ≟_sym l x)) (ground (arith, ≟_sym r x)) ∙ h.0,
    Walk-else next next' l r y ys z s (omega (arith, p)) (omega (arith, q)) h.1,
  )

  -- A walk from one of the cells becomes a walk from the other.
  pub Walk-left :
      (next next' : K → K) (l r : K) (ys : List K) (z : K)
      → Swaps next next' l r
      → count l ys ≡ 0
      → count r ys ≡ 0
      → Walk next r ys z
      → Walk next' l ys z
  Walk-left next next' l r [] z s p q h = s.at_left ∙ h
  Walk-left next next' l r (y ∷ ys) z s p q h =
      (s.at_left ∙ h.0, Walk-else next next' l r y ys z s p q h.1)
