-- ===== src/Common/Grid.antt =====
-- Vectors of vectors, `Vec<Vec<T>>`, read and written at a pair of indices. None is an index out
-- of range, which panics. A value is also read with a default, so that proofs see a function.
use Prim.Native.Nat.{ℕ, zero, suc, ◌<◌, ◌≤◌}
use mathlib.Core.Path.{◌≡◌, refl, ap, ap₂, ◌∙◌}
use mathlib.Core.Logic.{◌↔◌, inl, inr}
use mathlib.Core.Bool.{Bool, true, false, ◌&&◌}
use mathlib.Core.Option.{Option, none, some}
use mathlib.Core.List.{List, [], ◌∷◌}
use native.Mathlib.Omega.{arith}
use halo2_gpu.Common.Tests.{if◌then◌else◌, Bool-cases, ltb, lt→ltb, ◌==◌, ◌>>=◌}
use halo2_gpu.Common.Lists.{length, get_elem?}
use halo2_gpu.Common.Count.{Eq, ◌≟◌}

abbrev pub Cell : Type 0
Cell = ℕ × ℕ

abbrev pub cell_beq : Cell → Cell → Bool
cell_beq x y = x.0 == y.0 && x.1 == y.1

pub cell_beq_iff : (x y : Cell) → (cell_beq x y ≡ true) ↔ (x ≡ y)
cell_beq_iff (a, b) (c, d) = (
  (λ h. ap₂ (λ i j. (i, j)) (ground arith) (ground arith)),
  (λ h. ground (arith, ap (λ (z : Cell). z.0) h, ap (λ (z : Cell). z.1) h)),
)

instance abbrev pub cell_eq : Eq Cell
cell_eq = record { beq = cell_beq; beq_iff = cell_beq_iff }

==-suc : (i j : ℕ) → (i == j) ≡ (suc i == suc j)
==-suc i j = ground arith

module _ {ℓ} {A : Type ℓ} where
  -- A write out of bounds changes nothing.
  abbrev pub set : List A → ℕ → A → List A
  set [] i v = []
  set (x ∷ xs) zero v = v ∷ xs
  set (x ∷ xs) (suc i) v = x ∷ set xs i v

  pub length-set : (xs : List A) (i : ℕ) (v : A) → length (set xs i v) ≡ length xs
  length-set [] i v = refl
  length-set (x ∷ xs) zero v = refl
  length-set (x ∷ xs) (suc i) v = ap suc (length-set xs i v)

  pub get_elem?-set :
      (xs : List A) (i : ℕ) (v : A) (j : ℕ)
      → i < length xs
      → get_elem? (set xs i v) j ≡ (if i == j then some v else get_elem? xs j)
  get_elem?-set [] i v j h = absurd (omega arith)
  get_elem?-set (x ∷ xs) zero v zero h = refl
  get_elem?-set (x ∷ xs) zero v (suc j) h = ground arith
  get_elem?-set (x ∷ xs) (suc i) v zero h = ground arith
  get_elem?-set (x ∷ xs) (suc i) v (suc j) h =
      get_elem?-set xs i v j (omega arith)
      ∙ ap (λ b. if b then some v else get_elem? xs j) (==-suc i j)

  get_elem?-none : (xs : List A) (i : ℕ) → length xs ≤ i → get_elem? xs i ≡ none
  get_elem?-none [] i h = refl
  get_elem?-none (x ∷ xs) zero h = absurd (omega arith)
  get_elem?-none (x ∷ xs) (suc i) h = get_elem?-none xs i (omega arith)

  pub get_elem?-some : (xs : List A) (i : ℕ) → i < length xs → (x : A) × (get_elem? xs i ≡ some x)
  get_elem?-some [] i h = absurd (omega arith)
  get_elem?-some (x ∷ xs) zero h = (x, refl)
  get_elem?-some (x ∷ xs) (suc i) h = get_elem?-some xs i (omega arith)

  pub get_elem?_lt : (xs : List A) (i : ℕ) (x : A) → get_elem? xs i ≡ some x → i < length xs
  get_elem?_lt [] i x h = cc
  get_elem?_lt (y ∷ ys) zero x h = omega arith
  get_elem?_lt (y ∷ ys) (suc i) x h = omega (arith, get_elem?_lt ys i x h)

abbrev pub Grid {ℓ} : Type ℓ → Type ℓ
Grid A = List (List A)

module _ {ℓ} {A : Type ℓ} where
  unfoldable pub index : Grid A → Cell → Option A
  index g x = do column ← get_elem? g x.0; get_elem? column x.1

  unfoldable pub store : Grid A → Cell → A → Option (Grid A)
  store g x v = do
    column ← get_elem? g x.0
    if ltb x.1 (length column) then some (set g x.0 (set column x.1 v)) else none

  -- All columns have `n` rows.
  abbrev pub HasRows : ℕ → Grid A → Type 0
  HasRows n [] = Unit
  HasRows n (c ∷ cs) = (length c ≡ n) × HasRows n cs

  abbrev pub IsRect : ℕ → ℕ → Grid A → Type 0
  IsRect m n g = (length g ≡ m) × HasRows n g

  abbrev pub or_else : Option A → A → A
  or_else none d = d
  or_else (some a) d = a

  unfoldable pub look : A → Grid A → Cell → A
  look d g x = or_else (index g x) d

abbrev pub is_inside : ℕ → ℕ → Cell → Bool
is_inside m n x = ltb x.0 m && ltb x.1 n

module _ {ℓ} {A : Type ℓ} (m n : ℕ) where
  pub HasRows-get :
      (g : Grid A) (i : ℕ)
      → HasRows n g
      → i < length g
      → (c : List A) × (get_elem? g i ≡ some c) × (length c ≡ n)
  HasRows-get [] i h l = absurd (omega arith)
  HasRows-get (c ∷ cs) zero h l = (c, refl, h.0)
  HasRows-get (c ∷ cs) (suc i) h l = HasRows-get cs i h.1 (omega arith)

  HasRows-set :
      (g : Grid A) (i : ℕ) (c : List A) → HasRows n g → length c ≡ n → HasRows n (set g i c)
  HasRows-set [] i c h l = tt
  HasRows-set (x ∷ g) zero c h l = (l, h.1)
  HasRows-set (x ∷ g) (suc i) c h l = (h.0, HasRows-set g i c h.1 l)

  pub index-look :
      (d : A) (g : Grid A) (x : Cell)
      → IsRect m n g
      → is_inside m n x ≡ true
      → index g x ≡ some (look d g x)
  unfolding look index
  index-look d g x r h =
      let (c, p, l) = HasRows-get g x.0 r.1 (ground (arith, r.0)) in
      let (a, q) = get_elem?-some c x.1 (ground (arith, l)) in rw (p, q)

  pub look_outside :
      (d : A) (g : Grid A) (x : Cell) → IsRect m n g → is_inside m n x ≡ false → look d g x ≡ d
  unfolding look index
  look_outside d g x r h = elim (Bool-cases (ltb x.0 m)) [
    | inl t ↦
        let (c, p, l) = HasRows-get g x.0 r.1 (ground (arith, r.0)) in
        rw (p, get_elem?-none c x.1 (ground (arith, l)))
    | inr f ↦ rw (get_elem?-none g x.0 (ground (arith, r.0)))
  ]

  pub store_lem :
      (g : Grid A) (x : Cell) (v : A)
      → IsRect m n g
      → is_inside m n x ≡ true
      → (g' : Grid A) × (store g x v ≡ some g')
        × IsRect m n g'
        × ((d : A) (y : Cell) → look d g' y ≡ (if x ≟ y then v else look d g y))
  unfolding store look index
  store_lem g x v r h =
      let b : x.0 < length g = ground (arith, r.0) in
      let (c, p, l) = HasRows-get g x.0 r.1 b in
      let k : x.1 < length c = ground (arith, l) in
      (
        set g x.0 (set c x.1 v),
        rw (p, lt→ltb x.1 (length c) k),
        (length-set g x.0 _ ∙ r.0, HasRows-set g x.0 _ r.1 (length-set c x.1 v ∙ l)),
        λ d y.
            ground (arith, get_elem?-set g x.0 (set c x.1 v) y.0 b, get_elem?-set c x.1 v y.1 k, p),
      )
