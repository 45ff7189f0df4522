-- ===== src/Field/Five.antt =====
-- The field with five elements, the concrete instance at which the theorems are applied. Its
-- laws are checked on all elements by evaluation.
use halo2_gpu.Common.{ℕ, ◌==◌, ◌≡◌, refl, ◌≢◌, ◌↔◌, Bool, true, ◌&&◌, Option, none, some, arith}
use halo2_gpu.Field.{Field}

pub data F5 : Type 0 where
  zero5 one5 two5 three5 four5 : F5

abbrev pub to_nat : F5 → ℕ
to_nat zero5 = 0
to_nat one5 = 1
to_nat two5 = 2
to_nat three5 = 3
to_nat four5 = 4

abbrev pub add5 : F5 → F5 → F5
add5 zero5 b = b
add5 one5 b = elim b [ zero5 ↦ one5 | one5 ↦ two5 | two5 ↦ three5 | three5 ↦ four5 | four5 ↦ zero5 ]
add5 two5 b = elim b [ zero5 ↦ two5 | one5 ↦ three5 | two5 ↦ four5 | three5 ↦ zero5 | four5 ↦ one5 ]
add5 three5 b = elim b [
  | zero5 ↦ three5
  | one5 ↦ four5
  | two5 ↦ zero5
  | three5 ↦ one5
  | four5 ↦ two5
]
add5 four5 b = elim b [
  | zero5 ↦ four5
  | one5 ↦ zero5
  | two5 ↦ one5
  | three5 ↦ two5
  | four5 ↦ three5
]

abbrev pub neg5 : F5 → F5
neg5 = elim [ zero5 ↦ zero5 | one5 ↦ four5 | two5 ↦ three5 | three5 ↦ two5 | four5 ↦ one5 ]

abbrev pub mul5 : F5 → F5 → F5
mul5 zero5 b = zero5
mul5 one5 b = b
mul5 two5 b = add5 b b
mul5 three5 b = add5 b (add5 b b)
mul5 four5 b = neg5 b

abbrev pub invert5 : F5 → Option F5
invert5 = elim [
  | zero5 ↦ none
  | one5 ↦ some one5
  | two5 ↦ some three5
  | three5 ↦ some two5
  | four5 ↦ some four5
]

abbrev pub beq5 : F5 → F5 → Bool
beq5 a b = to_nat a == to_nat b

all5 : (F5 → Bool) → Bool
all5 p = p zero5 && p one5 && p two5 && p three5 && p four5

all5_sound : (p : F5 → Bool) (a : F5) → all5 p ≡ true → p a ≡ true
unfolding all5
all5_sound p zero5 h = ground arith
all5_sound p a h = ground arith

pub beq5_iff : (a b : F5) → (beq5 a b ≡ true) ↔ (a ≡ b)
beq5_iff a b = ground arith

-- An equation in one, two or three elements holds if it holds in the table.
law3 :
    (f g : F5 → F5 → F5 → F5)
    → all5 (λ a. all5 (λ b. all5 (λ c. beq5 (f a b c) (g a b c)))) ≡ true
    → (a b c : F5) → f a b c ≡ g a b c
law3 f g h a b c = (beq5_iff (f a b c) (g a b c)).0 (
    all5_sound (λ c. beq5 (f a b c) (g a b c)) c
      (all5_sound (λ b. all5 (λ c. beq5 (f a b c) (g a b c))) b (all5_sound _ a h)))

pub add5_assoc : (a b c : F5) → add5 (add5 a b) c ≡ add5 a (add5 b c)
unfolding all5
add5_assoc = law3 (λ a b c. add5 (add5 a b) c) (λ a b c. add5 a (add5 b c)) refl

pub mul5_assoc : (a b c : F5) → mul5 (mul5 a b) c ≡ mul5 a (mul5 b c)
unfolding all5
mul5_assoc = law3 (λ a b c. mul5 (mul5 a b) c) (λ a b c. mul5 a (mul5 b c)) refl

pub mul5-add5 : (a b c : F5) → mul5 a (add5 b c) ≡ add5 (mul5 a b) (mul5 a c)
unfolding all5
mul5-add5 = law3 (λ a b c. mul5 a (add5 b c)) (λ a b c. add5 (mul5 a b) (mul5 a c)) refl

pub add5_comm : (a b : F5) → add5 a b ≡ add5 b a
add5_comm a b = ground arith

pub mul5_comm : (a b : F5) → mul5 a b ≡ mul5 b a
mul5_comm a b = ground arith

pub add5-zero : (a : F5) → add5 a zero5 ≡ a
add5-zero a = ground arith

pub add5-neg5 : (a : F5) → add5 a (neg5 a) ≡ zero5
add5-neg5 a = ground arith

pub mul5-one : (a : F5) → mul5 a one5 ≡ a
mul5-one a = ground arith

pub one5≢zero5 : one5 ≢ zero5
one5≢zero5 h = cc

pub invert5-some : (a b : F5) → invert5 a ≡ some b → mul5 a b ≡ one5
invert5-some a b h = ground arith

pub invert5-none : (a : F5) → invert5 a ≡ none → a ≡ zero5
invert5-none a h = ground arith

instance abbrev pub f5_field : Field F5
f5_field = record {
  zero = zero5;
  one = one5;
  add = add5;
  sub = λ a b. add5 a (neg5 b);
  mul = mul5;
  neg = neg5;
  double = λ a. add5 a a;
  square = λ a. mul5 a a;
  invert = invert5;
  beq = beq5;
  beq_iff = beq5_iff;
  one≢zero = one5≢zero5;
  add_assoc = add5_assoc;
  add_comm = add5_comm;
  add-zero = add5-zero;
  add-neg = add5-neg5;
  sub-eq = λ a b. refl;
  mul_assoc = mul5_assoc;
  mul_comm = mul5_comm;
  mul-one = mul5-one;
  mul-add = mul5-add5;
  double-eq = λ a. refl;
  square-eq = λ a. refl;
  invert_some = invert5-some;
  invert_none = invert5-none;
}
