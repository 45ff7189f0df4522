-- ===== src/Circuit/CompressSelectors/Columns.antt =====
-- halo2_proofs/src/plonk/circuit/compress_selectors.rs: the columns that `process` emits, read at
-- a row, and the assignments of several combinations.
use halo2_gpu.Common.{
  ℕ, zero, suc, ◌+◌, ◌≡◌, ◌≢◌, refl, ap, ◌∙◌, Bool, true, false, some, List, [], ◌∷◌, ◌++◌, ◌≤◌,
  ◌<◌, arith, length, subst,
}
use cubical.Cubical.Data.Empty.Base.{⊥*}
use halo2_gpu.Field.{Field, ◌⊕◌}
use halo2_gpu.Circuit.Expression.{GpuExpression, contains_simple_selector}
use halo2_gpu.Circuit.Expression.Value.{Row, value}
use halo2_gpu.Circuit.CompressSelectors.{SelectorDescription, SelectorAssignment, emit_combinations}
use halo2_gpu.Circuit.CompressSelectors.Group.{AllCombinations, count, count_all}
use halo2_gpu.Circuit.CompressSelectors.Root.{roots, IsFresh}
use halo2_gpu.Circuit.CompressSelectors.Rows.{is_active, read, AllDistinct}
use halo2_gpu.Circuit.CompressSelectors.Reads.{AllRead, emit_selectors-Gives}

abbrev pub concat : List (List SelectorDescription) → List SelectorDescription
concat [] = []
concat (c ∷ cs) = c ++ concat cs

pub count-append :
    (p : SelectorDescription → Bool) (xs ys : List SelectorDescription)
    → count p (xs ++ ys) ≡ count p xs + count p ys
count-append p [] ys = omega arith
count-append p (x ∷ xs) ys = omega (arith, count-append p xs ys)

pub count-concat :
    (p : SelectorDescription → Bool) (cs : List (List SelectorDescription))
    → count p (concat cs) ≡ count_all p cs
count-concat p [] = refl
count-concat p (c ∷ cs) = count-append p c (concat cs) ∙ ap (λ n. count p c + n) (count-concat p cs)

-- The degree of every selector is allowed.
abbrev pub AllAtMost : ℕ → List SelectorDescription → Type 0
AllAtMost max_degree [] = Unit
AllAtMost max_degree (s ∷ ss) = (s.max_degree ≤ max_degree) × AllAtMost max_degree ss

module _ {ℓ} {F : Type ℓ} ⦃f : Field F⦄ where
  -- The allocated columns, from `index` on, read the cells of the emitted ones.
  abbrev pub ColumnsRead : (ℕ → GpuExpression F) → Row F → ℕ → ℕ → List (List F) → Type ℓ
  ColumnsRead column r i index [] = Unit
  ColumnsRead column r i index (c ∷ cs) =
      (value r (column index) ≡ read c i) × ColumnsRead column r i (index + 1) cs

  -- Each expression is zero where its selector is not active, and only there.
  abbrev pub AllReplace :
      Row F → ℕ → List SelectorDescription → List (SelectorAssignment F) → Type ℓ
  AllReplace r i [] [] = Unit
  AllReplace r i (s ∷ ss) (x ∷ xs) =
      (x.selector ≡ s.selector)
      × (is_active s.activations i ≡ false → value r x.expression ≡ f.zero)
      × (is_active s.activations i ≡ true → value r x.expression ≢ f.zero)
      × AllReplace r i ss xs
  AllReplace r i _ _ = ⊥*

  AllRead-AllReplace :
      (index : ℕ) (r : Row F) (i : ℕ) (ss : List SelectorDescription)
      (xs : List (SelectorAssignment F))
      → AllRead index r i ss xs
      → AllReplace r i ss xs
  AllRead-AllReplace index r i [] [] h = tt
  AllRead-AllReplace index r i [] (x ∷ xs) h = h
  AllRead-AllReplace index r i (s ∷ ss) [] h = h
  AllRead-AllReplace index r i (s ∷ ss) (x ∷ xs) h =
      (h.0, h.2, h.3, AllRead-AllReplace index r i ss xs h.4)

  pub AllReplace-append :
      (r : Row F) (i : ℕ) (ss ts : List SelectorDescription) (xs ys : List (SelectorAssignment F))
      → AllReplace r i ss xs
      → AllReplace r i ts ys
      → AllReplace r i (ss ++ ts) (xs ++ ys)
  AllReplace-append r i [] ts [] ys h k = k
  AllReplace-append r i [] ts (x ∷ xs) ys h k = elim h.lower [ ]
  AllReplace-append r i (s ∷ ss) ts [] ys h k = elim h.lower [ ]
  AllReplace-append r i (s ∷ ss) ts (x ∷ xs) ys h k =
      (h.0, h.1, h.2, AllReplace-append r i ss ts xs ys h.3 k)

  pub ColumnsRead-append :
      (column : ℕ → GpuExpression F) (r : Row F) (i index : ℕ) (xs ys : List (List F))
      → ColumnsRead column r i index (xs ++ ys)
      → ColumnsRead column r i index xs × ColumnsRead column r i (index + length xs) ys
  ColumnsRead-append column r i index [] ys h =
      (tt, subst (λ k. ColumnsRead column r i k ys) (omega arith) h)
  ColumnsRead-append column r i index (x ∷ xs) ys h =
      let (a, b) = ColumnsRead-append column r i (index + 1) xs ys h.1 in
      ((h.0, a), subst (λ k. ColumnsRead column r i k ys) (omega arith) b)

  IsFresh-fewer : (v a : F) (m n : ℕ) → m ≤ n → IsFresh v (roots a n) → IsFresh v (roots a m)
  IsFresh-fewer v a zero n h k = tt
  IsFresh-fewer v a (suc m) zero h k = absurd (omega arith)
  IsFresh-fewer v a (suc m) (suc n) h k = (k.0, IsFresh-fewer v (a ⊕ f.one) m n (omega arith) k.1)

  AllDistinct-fewer : (a : F) (m n : ℕ) → m ≤ n → AllDistinct (roots a n) → AllDistinct (roots a m)
  AllDistinct-fewer a zero n h k = tt
  AllDistinct-fewer a (suc m) zero h k = absurd (omega arith)
  AllDistinct-fewer a (suc m) (suc n) h k = (
    IsFresh-fewer a (a ⊕ f.one) m n (omega arith) k.0,
    AllDistinct-fewer (a ⊕ f.one) m n (omega arith) k.1,
  )

  module _ (column : ℕ → GpuExpression F)
      (simple : (k : ℕ) → contains_simple_selector (column k) ≡ false) (r : Row F)
      (i n max_degree : ℕ) (b : i < n) (u : AllDistinct (f.zero ∷ roots f.one max_degree)) where
    pub emit_combinations_lem :
        (index : ℕ) (cs : List (List SelectorDescription))
        → AllCombinations max_degree cs
        → (e : List (List F) × List (SelectorAssignment F)) × (emit_combinations n column index cs
            ≡ some e)
          × (ColumnsRead column r i index e.0 → AllReplace r i (concat cs) e.1)
    unfolding emit_combinations
    emit_combinations_lem index [] h = (([], []), refl, λ _. tt)
    emit_combinations_lem index (c ∷ cs) h =
        let (d, rest) = h.0 in
        let (dm, bs, le) = rest in
        let m : length c ≤ max_degree = omega (arith, le) in
        let (e, p, l, g) =
          emit_selectors-Gives index n (column index) c r i (simple index) d
            (
              IsFresh-fewer f.zero f.one (length c) max_degree m u.0,
              AllDistinct-fewer f.one (length c) max_degree m u.1,
            )
            b in
        let (e', p', g') = emit_combinations_lem (index + 1) cs h.1 in
        rw (p, p')
          (
            _,
            refl,
            λ k.
                AllReplace-append r i c (concat cs) e.1 e'.1
                  (AllRead-AllReplace index r i c e.1 (g k.0)) (g' k.1),
          )
