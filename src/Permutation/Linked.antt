-- ===== src/Permutation/Linked.antt =====
-- halo2_proofs/src/plonk/permutation/keygen.rs: what any sequence of calls of `copy` builds.
use halo2_gpu.Common.{
  ℕ, zero, suc, ◌≤◌, ◌<◌, ◌≡◌, ◌↔◌, refl, sym, ap, ◌∙◌, List, [], ◌∷◌, length, Bool-cases, arith,
  inl, inr, ◌⊎◌, some, subst,
}
use halo2_gpu.Common.Count.{position, Eq, ◌≟◌, same_of_eq, eq_of_same, count}
use halo2_gpu.Common.Grid.{Cell, cell_eq}
use halo2_gpu.Permutation.{Assembly, new, copy, ok}
use halo2_gpu.Permutation.Cycles.{Walk}
use halo2_gpu.Permutation.Relabel.{image}
use halo2_gpu.Permutation.Copy.{IsAssembly, class_of}
use halo2_gpu.Permutation.Copy.Connect.{copy-Connects, Touches, Connects}
use halo2_gpu.Permutation.Fresh.{new-IsAssembly, columns-new, class_of-new}

abbrev pub Link : Type 0
Link = Cell × Cell

abbrev pub Has : List Link → Cell → Cell → Type 0
Has [] x y = ⊥
Has (l ∷ ls) x y = ((l.0 ≡ x) × (l.1 ≡ y)) ⊎ Has ls x y

-- The equivalence that the copy constraints generate.
pub data Linked (ls : List Link) : Cell → Cell → Type 0 where
  link : {x y : Cell} → Has ls x y → Linked ls x y
  itself : {x : Cell} → Linked ls x x
  flip : {x y : Cell} → Linked ls x y → Linked ls y x
  chain : {x y z : Cell} → Linked ls x y → Linked ls y z → Linked ls x z

-- The states that calls of `copy` reach from `new`, with the constraints that were accepted, the
-- last first.
pub data Reached {ℓ} {C : Type ℓ} ⦃e : Eq C⦄ (n : ℕ) (columns : List C)
    : Assembly C → List Link → Type ℓ where
  start : Reached n columns (new n columns) []
  step :
      {a a' : Assembly C} {ls : List Link} (left right : C) (i j left_row right_row : ℕ)
      → Reached n columns a ls
      → position a.columns left ≡ some i
      → position a.columns right ≡ some j
      → left_row < n
      → right_row < n
      → copy a left left_row right right_row ≡ ok a'
      → Reached n columns a' (((i, left_row), (j, right_row)) ∷ ls)

abbrev pub iterate {ℓ} : {K : Type ℓ} → ℕ → (K → K) → K → K
iterate zero next x = x
iterate (suc k) next x = iterate k next (next x)

Walk-iterate {ℓ} :
    {K : Type ℓ} ⦃e : Eq K⦄ (next : K → K) (x y : K) (ys : List K) (z : K)
    → Walk next x ys z
    → 1 ≤ count y (x ∷ ys)
    → (k : ℕ) × (iterate k next x ≡ y)
Walk-iterate next x y [] z w c = (0, sym (eq_of_same y x (omega (arith, c))))
Walk-iterate next x y (x' ∷ ys) z w c = elim (Bool-cases (y ≟ x)) [
  | inl t ↦ (0, sym (eq_of_same y x (ground arith)))
  | inr f ↦
      let (k, p) = Walk-iterate next x' y ys z w.1 (ground arith) in
      (suc k, ap (iterate k next) w.0 ∙ p)
]

module _ {ℓ} {C : Type ℓ} (m n : ℕ) (a : Assembly C) (v : IsAssembly m n a) where
  class_of-image : (x : Cell) → class_of a (image a.mapping x) ≡ class_of a x
  class_of-image x =
      let o = v.cycles x in
      first o.rest o.walk (λ y c. eq_of_same _ _ (omega (arith, c, o.tally y)))
    where
      first :
          (ys : List Cell)
          → Walk (image a.mapping) x ys x
          → ((y : Cell) → 1 ≤ count y (x ∷ ys) → class_of a y ≡ class_of a x)
          → class_of a (image a.mapping x) ≡ class_of a x
      first [] w h = ap (class_of a) w
      first (y ∷ ys) w h = ap (class_of a) w.0 ∙ h y (omega (arith, same_of_eq y y refl))

  class_of-iterate : (k : ℕ) (x : Cell) → class_of a (iterate k (image a.mapping) x) ≡ class_of a x
  class_of-iterate zero x = refl
  class_of-iterate (suc k) x = class_of-iterate k (image a.mapping x) ∙ class_of-image x

  -- The cells that the mapping leads to are those with the same distinguished cell.
  cycle_iff :
      (x y : Cell) → ((k : ℕ) × (iterate k (image a.mapping) x ≡ y)) ↔ (class_of a x ≡ class_of a y)
  cycle_iff x y =
      let o = v.cycles x in
      (
        (λ h. sym (class_of-iterate h.0 x) ∙ ap (class_of a) h.1),
        λ h.
            Walk-iterate (image a.mapping) x y o.rest x o.walk
              (omega (arith, o.tally y, same_of_eq (class_of a y) (class_of a x) (sym h))),
      )

weaken : (l : Link) (ls : List Link) (x y : Cell) → Linked ls x y → Linked (l ∷ ls) x y
weaken l ls x y (link h) = link (inr h)
weaken l ls x y itself = itself
weaken l ls x y (flip h) = flip (weaken l ls _ _ h)
weaken l ls x y (chain h k) = chain (weaken l ls _ _ h) (weaken l ls _ _ k)

none-Linked : (x y : Cell) → Linked [] x y → x ≡ y
none-Linked x y (link h) = absurd h
none-Linked x y itself = refl
none-Linked x y (flip h) = sym (none-Linked _ _ h)
none-Linked x y (chain h k) = none-Linked _ _ h ∙ none-Linked _ _ k

ok_injective {ℓ} : {C : Type ℓ} (a b : Assembly C) → ok a ≡ ok b → a ≡ b
ok_injective a b h = cc

module _ {ℓ} {C : Type ℓ} where
  -- The distinguished cells are equal for exactly the cells that the constraints link.
  abbrev Reflects : Assembly C → List Link → Type 0
  Reflects a ls = (x y : Cell) → (class_of a x ≡ class_of a y) ↔ Linked ls x y

  module _ (m n : ℕ) (a a' : Assembly C) (v : IsAssembly m n a) (l r : Cell) (ls : List Link)
      (s : Reflects a ls) (c : Connects m n a v l r a') where
    Touches-link : (x : Cell) → Touches m n a v l r x → Linked ((l, r) ∷ ls) x l
    Touches-link x (inl p) = weaken (l, r) ls x l ((s x l).0 p)
    Touches-link x (inr p) =
        chain (weaken (l, r) ls x r ((s x r).0 p)) (flip (link (inl (refl, refl))))

    to_linked : (x y : Cell) → class_of a' x ≡ class_of a' y → Linked ((l, r) ∷ ls) x y
    to_linked x y h = elim ((c x y).0 h) [
      | inl p ↦ weaken (l, r) ls x y ((s x y).0 p)
      | inr (p, q) ↦ chain (Touches-link x p) (flip (Touches-link y q))
    ]

    from_Linked : (x y : Cell) → Linked ((l, r) ∷ ls) x y → class_of a' x ≡ class_of a' y
    from_Linked x y (link (inl (p, q))) =
        sym (ap (class_of a') p) ∙ (c l r).1 (inr (inl refl, inr refl)) ∙ ap (class_of a') q
    from_Linked x y (link (inr h)) = (c x y).1 (inl ((s x y).1 (link h)))
    from_Linked x y itself = refl
    from_Linked x y (flip h) = sym (from_Linked _ _ h)
    from_Linked x y (chain h k) = from_Linked _ _ h ∙ from_Linked _ _ k

    Reflects-step : Reflects a' ((l, r) ∷ ls)
    Reflects-step x y = (to_linked x y, from_Linked x y)

module _ {ℓ} {C : Type ℓ} ⦃e : Eq C⦄ (n : ℕ) (columns : List C) where
  abbrev Sound : Assembly C → List Link → Type ℓ
  Sound a ls = (a.columns ≡ columns) × IsAssembly (length columns) n a × Reflects a ls

  Sound-start : Sound (new n columns) []
  Sound-start = (
    columns-new n columns,
    new-IsAssembly n columns,
    λ x y. (
      (λ h.
          subst (Linked [] x) (sym (class_of-new n columns x) ∙ h ∙ class_of-new n columns y)
            itself),
      λ h. ap (class_of (new n columns)) (none-Linked x y h),
    ),
  )

  Reached-Sound : {a : Assembly C} {ls : List Link} → Reached n columns a ls → Sound a ls
  Reached-Sound start = Sound-start
  Reached-Sound (step {a = a} {a' = a'} {ls = ls} left right i j lr rr h p q bl br c) =
      let (k, v, s) = Reached-Sound h in
      let (a'', p', v', k', t) =
        copy-Connects (length columns) n a v left right i j lr rr p q bl br in
      let same_state : a'' ≡ a' = ok_injective a'' a' (sym p' ∙ c) in
      subst (λ z. Sound z (((i, lr), (j, rr)) ∷ ls)) same_state
        (k' ∙ k, v', Reflects-step (length columns) n a a'' v (i, lr) (j, rr) ls s t)

  -- In every state that `new` and calls of `copy` reach, following the mapping from a cell leads
  -- to exactly the cells that the accepted copy constraints link with it, directly or through
  -- others.
  pub mapping_iff :
      (a : Assembly C) (ls : List Link)
      → Reached n columns a ls
      → (x y : Cell) → ((k : ℕ) × (iterate k (image a.mapping) x ≡ y)) ↔ Linked ls x y
  mapping_iff a ls h x y =
      let (k, v, s) = Reached-Sound h in
      let c = cycle_iff (length columns) n a v x y in
      ((λ i. (s x y).0 (c.0 i)), (λ l. c.1 ((s x y).1 l)))

  -- Every state that `new` and calls of `copy` reach keeps the invariant: the mapping's cycles are
  -- the classes of the distinguished cells, and the size that is kept for a distinguished cell is
  -- that of its cycle.
  pub Reached-IsAssembly :
      (a : Assembly C) (ls : List Link) → Reached n columns a ls → IsAssembly (length columns) n a
  Reached-IsAssembly a ls h = (Reached-Sound h).1
