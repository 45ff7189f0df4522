-- ===== src/Circuit/Column/Order.antt =====
-- halo2_proofs/src/plonk/circuit.rs: the order of columns, and their conversions.
use Prim.Native.Nat.{compare, Ordering}
use halo2_gpu.Common.{ℕ, ◌≡◌, refl, sym, ap, ap₂, ◌∙◌, arith, ◌<◌}
use halo2_gpu.Circuit.Column.{
  GpuAny, any_advice, any_fixed, any_instance, GpuColumn, then_cmp, cmp_any, cmp, from_column,
}

compare_lt : (a b : ℕ) → compare a b ≡ Ordering.lt → a < b
compare_lt a b h = ground arith

lt_compare : (a b : ℕ) → a < b → compare a b ≡ Ordering.lt
lt_compare a b h = ground arith

compare-eq : (a b : ℕ) → compare a b ≡ Ordering.eq → a ≡ b
compare-eq a b h = ground arith

compare_refl : (a : ℕ) → compare a a ≡ Ordering.eq
compare_refl a = ground arith

-- `Ordering::reverse`
abbrev pub reverse : Ordering → Ordering
reverse Ordering.lt = Ordering.gt
reverse Ordering.eq = Ordering.eq
reverse Ordering.gt = Ordering.lt

compare-reverse : (a b : ℕ) → compare b a ≡ reverse (compare a b)
compare-reverse a b = ground arith

compare_trans :
    (a b c : ℕ) → compare a b ≡ Ordering.lt → compare b c ≡ Ordering.lt → compare a c ≡ Ordering.lt
compare_trans a b c h k = ground arith

any_reverse : (a b : GpuAny) → cmp_any b a ≡ reverse (cmp_any a b)
unfolding cmp_any
any_reverse any_instance any_instance = refl
any_reverse any_instance (any_advice r) = refl
any_reverse any_instance any_fixed = refl
any_reverse (any_advice l) any_instance = refl
any_reverse (any_advice l) (any_advice r) = compare-reverse l.phase r.phase
any_reverse (any_advice l) any_fixed = refl
any_reverse any_fixed any_instance = refl
any_reverse any_fixed (any_advice r) = refl
any_reverse any_fixed any_fixed = refl

any_eq : (a b : GpuAny) → cmp_any a b ≡ Ordering.eq → a ≡ b
unfolding cmp_any
any_eq any_instance any_instance h = refl
any_eq any_instance (any_advice r) h = cc
any_eq any_instance any_fixed h = cc
any_eq (any_advice l) any_instance h = cc
any_eq (any_advice l) (any_advice r) h =
    ap (λ p. any_advice (record { phase = p })) (compare-eq l.phase r.phase h)
any_eq (any_advice l) any_fixed h = cc
any_eq any_fixed any_instance h = cc
any_eq any_fixed (any_advice r) h = cc
any_eq any_fixed any_fixed h = refl

any_trans :
    (a b c : GpuAny)
    → cmp_any a b ≡ Ordering.lt
    → cmp_any b c ≡ Ordering.lt
    → cmp_any a c ≡ Ordering.lt
unfolding cmp_any
any_trans any_instance any_instance c h k = cc
any_trans any_instance (any_advice b) any_instance h k = cc
any_trans any_instance (any_advice b) (any_advice c) h k = refl
any_trans any_instance (any_advice b) any_fixed h k = refl
any_trans any_instance any_fixed any_instance h k = cc
any_trans any_instance any_fixed (any_advice c) h k = cc
any_trans any_instance any_fixed any_fixed h k = cc
any_trans (any_advice a) any_instance c h k = cc
any_trans (any_advice a) (any_advice b) any_instance h k = cc
any_trans (any_advice a) (any_advice b) (any_advice c) h k =
    compare_trans a.phase b.phase c.phase h k
any_trans (any_advice a) (any_advice b) any_fixed h k = refl
any_trans (any_advice a) any_fixed any_instance h k = cc
any_trans (any_advice a) any_fixed (any_advice c) h k = cc
any_trans (any_advice a) any_fixed any_fixed h k = cc
any_trans any_fixed any_instance c h k = cc
any_trans any_fixed (any_advice b) c h k = cc
any_trans any_fixed any_fixed c h k = cc

then_trans :
    (x y z : Ordering) (i j k : ℕ)
    → (x ≡ Ordering.lt → y ≡ Ordering.lt → z ≡ Ordering.lt)
    → (x ≡ Ordering.eq → z ≡ y)
    → (y ≡ Ordering.eq → z ≡ x)
    → then_cmp x (compare i j) ≡ Ordering.lt
    → then_cmp y (compare j k) ≡ Ordering.lt
    → then_cmp z (compare i k) ≡ Ordering.lt
then_trans Ordering.lt Ordering.lt z i j k t e o h l = rw (t refl refl)
then_trans Ordering.lt Ordering.eq z i j k t e o h l = rw (o refl)
then_trans Ordering.eq Ordering.lt z i j k t e o h l = rw (e refl)
then_trans Ordering.eq Ordering.eq z i j k t e o h l = rw (e refl) (compare_trans i j k h l)
then_trans Ordering.lt Ordering.gt z i j k t e o h l = cc
then_trans Ordering.eq Ordering.gt z i j k t e o h l = cc
then_trans Ordering.gt y z i j k t e o h l = cc

then_reverse :
    (x : Ordering) (i j : ℕ)
    → then_cmp (reverse x) (compare j i) ≡ reverse (then_cmp x (compare i j))
then_reverse Ordering.lt i j = refl
then_reverse Ordering.eq i j = compare-reverse i j
then_reverse Ordering.gt i j = refl

then_eq :
    (x : Ordering) (i j : ℕ) → then_cmp x (compare i j) ≡ Ordering.eq → (x ≡ Ordering.eq) × (i ≡ j)
then_eq Ordering.lt i j h = cc
then_eq Ordering.eq i j h = (refl, compare-eq i j h)
then_eq Ordering.gt i j h = cc

-- The order of columns of one type is transitive.
pub cmp_trans {ℓ} :
    {C : Type ℓ} (into : C → GpuAny) (a b c : GpuColumn C)
    → cmp into a b ≡ Ordering.lt
    → cmp into b c ≡ Ordering.lt
    → cmp into a c ≡ Ordering.lt
unfolding cmp
cmp_trans into a b c h k =
    let x = into a.column_type in
    let y = into b.column_type in
    let z = into c.column_type in
    then_trans (cmp_any x y) (cmp_any y z) (cmp_any x z) a.index b.index c.index (any_trans x y z)
      (λ e. ap (λ t. cmp_any t z) (any_eq x y e)) (λ e. ap (λ t. cmp_any x t) (sym (any_eq y z e)))
      h k

-- The order of columns reverses when its arguments are swapped, and it calls only those columns
-- equal that have the same index and the same type, read as any type.
pub cmp_antisym {ℓ} :
    {C : Type ℓ} (into : C → GpuAny) (a b : GpuColumn C)
    → (cmp into b a ≡ reverse (cmp into a b))
      × (cmp into a b ≡ Ordering.eq → from_column into a ≡ from_column into b)
unfolding cmp
cmp_antisym into a b =
    let x = into a.column_type in
    let y = into b.column_type in
    (
      ap (λ o. then_cmp o (compare b.index a.index)) (any_reverse x y)
          ∙ then_reverse (cmp_any x y) a.index b.index,
      λ h.
          (let (p, q) = then_eq (cmp_any x y) a.index b.index h in
            ap₂ (λ i t. record { index = i; column_type = t }) q (any_eq x y p)),
    )
