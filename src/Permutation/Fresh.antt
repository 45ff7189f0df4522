-- ===== src/Permutation/Fresh.antt =====
-- halo2_proofs/src/plonk/permutation/keygen.rs: `Assembly::new`, in which every cell is a cycle of
-- its own.
use halo2_gpu.Common.{
  ℕ, zero, suc, ◌+◌, ◌<◌, ◌≡◌, refl, sym, ap, ap₂, ◌∙◌, List, [], length, Bool-cases, arith, inl,
  inr, some, get_elem?,
}
use halo2_gpu.Common.Count.{same}
use halo2_gpu.Common.Grid.{
  Cell, cell_eq, Grid, look, index, HasRows, IsRect, is_inside, look_outside,
}
use halo2_gpu.Permutation.{new, cells_from, columns_from, replicate}
use halo2_gpu.Permutation.Relabel.{image, columns_from-IsRect}
use halo2_gpu.Permutation.Copy.{IsAssembly, class_of, size_of}

get_elem?-cells_from : (i j n k : ℕ) → k < n → get_elem? (cells_from i j n) k ≡ some (i, j + k)
get_elem?-cells_from i j zero k h = absurd (omega arith)
get_elem?-cells_from i j (suc n) zero h = ap (λ t. some (i, t)) (omega arith)
get_elem?-cells_from i j (suc n) (suc k) h =
    get_elem?-cells_from i (j + 1) n k (omega arith) ∙ ap (λ t. some (i, t)) (omega arith)

get_elem?-columns_from :
    (n i m k : ℕ) → k < m → get_elem? (columns_from n i m) k ≡ some (cells_from (i + k) 0 n)
get_elem?-columns_from n i zero k h = absurd (omega arith)
get_elem?-columns_from n i (suc m) zero h = ap (λ t. some (cells_from t 0 n)) (omega arith)
get_elem?-columns_from n i (suc m) (suc k) h =
    get_elem?-columns_from n (i + 1) m k (omega arith)
    ∙ ap (λ t. some (cells_from t 0 n)) (omega arith)

image-columns_from : (m n : ℕ) (x : Cell) → image (columns_from n 0 m) x ≡ x
unfolding look index
image-columns_from m n x = elim (Bool-cases (is_inside m n x)) [
  | inl t ↦
      rw
        (
          get_elem?-columns_from n 0 m x.0 (ground arith),
          get_elem?-cells_from (0 + x.0) 0 n x.1 (ground arith),
        )
        (ap₂ (λ s t. (s, t)) (omega arith) (omega arith))
  | inr f ↦ look_outside m n x (columns_from n 0 m) x (columns_from-IsRect n 0 m) f
]

module _ {ℓ} {A : Type ℓ} (a : A) where
  length-replicate : (n : ℕ) → length (replicate n a) ≡ n
  length-replicate zero = refl
  length-replicate (suc n) = ap suc (length-replicate n)

  get_elem?-replicate : (n k : ℕ) → k < n → get_elem? (replicate n a) k ≡ some a
  get_elem?-replicate zero k h = absurd (omega arith)
  get_elem?-replicate (suc n) zero h = refl
  get_elem?-replicate (suc n) (suc k) h = get_elem?-replicate n k (omega arith)

HasRows-replicate : (n : ℕ) (c : List ℕ) (m : ℕ) → length c ≡ n → HasRows n (replicate m c)
HasRows-replicate n c zero h = tt
HasRows-replicate n c (suc m) h = (h, HasRows-replicate n c m h)

ones : ℕ → ℕ → Grid ℕ
ones m n = replicate m (replicate n 1)

ones-IsRect : (m n : ℕ) → IsRect m n (ones m n)
unfolding ones
ones-IsRect m n = (
  length-replicate (replicate n 1) m,
  HasRows-replicate n (replicate n 1) m (length-replicate 1 n),
)

size_of-ones : (m n : ℕ) (x : Cell) → size_of (ones m n) x ≡ 1
unfolding look index ones
size_of-ones m n x = elim (Bool-cases (is_inside m n x)) [
  | inl t ↦
      let row : List ℕ = replicate n 1 in
      rw (
        get_elem?-replicate row m x.0 (ground arith),
        get_elem?-replicate {A = ℕ} 1 n x.1 (ground arith),
      )
  | inr f ↦ look_outside m n 1 (ones m n) x (ones-IsRect m n) f
]

pub new-IsAssembly {ℓ} :
    {C : Type ℓ} (n : ℕ) (columns : List C) → IsAssembly (length columns) n (new n columns)
unfolding new ones
new-IsAssembly n columns =
    let m = length columns in
    let id = image-columns_from m n in
    record {
      columns_length = refl;
      mapping_rect = columns_from-IsRect n 0 m;
      aux_rect = columns_from-IsRect n 0 m;
      sizes_rect = ones-IsRect m n;
      cycles = λ x. record {
        rest = [];
        walk = id x;
        tally = λ y.
            let e : same y x + 0 ≡ same y x = omega arith in e ∙ ap₂ same (sym (id y)) (sym (id x));
        counted = size_of-ones m n (image (columns_from n 0 m) x);
        idem = ap (image (columns_from n 0 m)) (id x);
      };
    }

pub class_of-new {ℓ} :
    {C : Type ℓ} (n : ℕ) (columns : List C) (x : Cell) → class_of (new n columns) x ≡ x
unfolding new
class_of-new n columns x = image-columns_from (length columns) n x

pub columns-new {ℓ} : {C : Type ℓ} (n : ℕ) (columns : List C) → (new n columns).columns ≡ columns
unfolding new
columns-new n columns = refl
