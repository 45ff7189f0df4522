-- ===== src/Field/Laws.antt =====
-- What follows from the laws of a field: the equations that the other proofs use.
use halo2_gpu.Common.{
  ◌≡◌, refl, sym, ap, ◌∙◌, ◌≡⟨◌⟩◌, ◌∎, ◌≢◌, ◌⊎◌, inl, inr, true, false, Option, none, some,
  Bool-cases, Option-cases,
}
use halo2_gpu.Field.{Field, ◌⊕◌, ◌⊖◌, ◌⊗◌, ◌=?◌}

-- `unwrap_or`
abbrev pub unwrap_or {ℓ} : {A : Type ℓ} → Option A → A → A
unwrap_or none d = d
unwrap_or (some a) d = a

module _ {ℓ} {F : Type ℓ} ⦃f : Field F⦄ where
  pub zero-add : (a : F) → f.zero ⊕ a ≡ a
  zero-add a = f.add_comm f.zero a ∙ f.add-zero a

  pub one-mul : (a : F) → f.one ⊗ a ≡ a
  one-mul a = f.mul_comm f.one a ∙ f.mul-one a

  pub add_left_comm : (a b c : F) → a ⊕ (b ⊕ c) ≡ b ⊕ (a ⊕ c)
  add_left_comm a b c =
      sym (f.add_assoc a b c) ∙ ap (λ t. t ⊕ c) (f.add_comm a b) ∙ f.add_assoc b a c

  pub mul_left_comm : (a b c : F) → a ⊗ (b ⊗ c) ≡ b ⊗ (a ⊗ c)
  mul_left_comm a b c =
      sym (f.mul_assoc a b c) ∙ ap (λ t. t ⊗ c) (f.mul_comm a b) ∙ f.mul_assoc b a c

  pub add-mul : (a b c : F) → (a ⊕ b) ⊗ c ≡ a ⊗ c ⊕ b ⊗ c
  add-mul a b c = rw (f.mul_comm (a ⊕ b) c, f.mul-add c a b, f.mul_comm c a, f.mul_comm c b)

  pub mul_interchange : (a b c d : F) → (a ⊗ b) ⊗ (c ⊗ d) ≡ (a ⊗ c) ⊗ (b ⊗ d)
  mul_interchange a b c d =
      f.mul_assoc a b (c ⊗ d)
      ∙ ap (λ t. a ⊗ t) (mul_left_comm b c d)
      ∙ sym (f.mul_assoc a c (b ⊗ d))

  -- Sums cancel.
  pub add_cancel : (a b c : F) → a ⊕ c ≡ b ⊕ c → a ≡ b
  add_cancel a b c h =
      a
      ≡⟨ sym (f.add-zero a) ⟩ a ⊕ f.zero
      ≡⟨ ap (λ t. a ⊕ t) (sym (f.add-neg c)) ⟩ a ⊕ (c ⊕ f.neg c)
      ≡⟨ sym (f.add_assoc a c (f.neg c)) ⟩ (a ⊕ c) ⊕ f.neg c
      ≡⟨ ap (λ t. t ⊕ f.neg c) h ⟩ (b ⊕ c) ⊕ f.neg c
      ≡⟨ f.add_assoc b c (f.neg c) ⟩ b ⊕ (c ⊕ f.neg c)
      ≡⟨ ap (λ t. b ⊕ t) (f.add-neg c) ⟩ b ⊕ f.zero
      ≡⟨ f.add-zero b ⟩ b ∎

  pub mul-zero : (a : F) → a ⊗ f.zero ≡ f.zero
  mul-zero a = add_cancel (a ⊗ f.zero) f.zero (a ⊗ f.zero) (
      sym (f.mul-add a f.zero f.zero)
      ∙ ap (λ t. a ⊗ t) (f.add-zero f.zero)
      ∙ sym (zero-add (a ⊗ f.zero)))

  pub zero-mul : (a : F) → f.zero ⊗ a ≡ f.zero
  zero-mul a = f.mul_comm f.zero a ∙ mul-zero a

  -- An opposite is unique.
  pub neg_unique : (a b : F) → a ⊕ b ≡ f.zero → b ≡ f.neg a
  neg_unique a b h =
      add_cancel b (f.neg a) a (f.add_comm b a ∙ h ∙ sym (f.add-neg a) ∙ f.add_comm a (f.neg a))

  pub neg-zero : f.neg f.zero ≡ f.zero
  neg-zero = sym (neg_unique f.zero f.zero (f.add-zero f.zero))

  pub neg-mul : (a b : F) → f.neg a ⊗ b ≡ f.neg (a ⊗ b)
  neg-mul a b =
      neg_unique (a ⊗ b) (f.neg a ⊗ b)
        (sym (add-mul a (f.neg a) b) ∙ ap (λ t. t ⊗ b) (f.add-neg a) ∙ zero-mul b)

  pub sub-zero : (a : F) → a ⊖ f.zero ≡ a
  sub-zero a = f.sub-eq a f.zero ∙ ap (λ t. a ⊕ t) neg-zero ∙ f.add-zero a

  pub zero-sub : (a : F) → f.zero ⊖ a ≡ f.neg a
  zero-sub a = f.sub-eq f.zero a ∙ zero-add (f.neg a)

  -- The inverse with `unwrap_or(F::ZERO)`.
  abbrev pub inv_or_zero : F → F
  inv_or_zero a = unwrap_or (f.invert a) f.zero

  pub =?_refl : (a : F) → (a =? a) ≡ true
  =?_refl a = (f.beq_iff a a).1 refl

  pub =?_false : (a b : F) → a ≢ b → (a =? b) ≡ false
  =?_false a b ne = elim (Bool-cases (a =? b)) [
    | inl t ↦ absurd (ne ((f.beq_iff a b).0 t))
    | inr e ↦ e
  ]

  pub =?_ne : (a b : F) → (a =? b) ≡ false → a ≢ b
  =?_ne a b h e = cc ((f.beq_iff a b).1 e)

  pub mul-inv : (a : F) → a ≢ f.zero → a ⊗ inv_or_zero a ≡ f.one
  mul-inv a ne = elim (Option-cases (f.invert a)) [
    | inl e ↦ absurd (ne (f.invert_none a e))
    | inr (b, e) ↦ rw e (f.invert_some a b e)
  ]

  pub inv-zero : inv_or_zero f.zero ≡ f.zero
  inv-zero = elim (Option-cases (f.invert f.zero)) [
    | inl e ↦ rw e
    | inr (b, e) ↦ absurd (f.one≢zero (sym (f.invert_some f.zero b e) ∙ zero-mul b))
  ]

  -- A product with a non-zero factor cancels.
  pub mul_cancel : (a b c : F) → c ≢ f.zero → a ⊗ c ≡ b ⊗ c → a ≡ b
  mul_cancel a b c ne h =
      a
      ≡⟨ sym (f.mul-one a) ⟩ a ⊗ f.one
      ≡⟨ ap (λ t. a ⊗ t) (sym (mul-inv c ne)) ⟩ a ⊗ (c ⊗ inv_or_zero c)
      ≡⟨ sym (f.mul_assoc a c (inv_or_zero c)) ⟩ (a ⊗ c) ⊗ inv_or_zero c
      ≡⟨ ap (λ t. t ⊗ inv_or_zero c) h ⟩ (b ⊗ c) ⊗ inv_or_zero c
      ≡⟨ f.mul_assoc b c (inv_or_zero c) ⟩ b ⊗ (c ⊗ inv_or_zero c)
      ≡⟨ ap (λ t. b ⊗ t) (mul-inv c ne) ⟩ b ⊗ f.one
      ≡⟨ f.mul-one b ⟩ b ∎

  -- There are no zero divisors.
  pub mul_nonzero : (a b : F) → a ≢ f.zero → b ≢ f.zero → a ⊗ b ≢ f.zero
  mul_nonzero a b na nb h = na (mul_cancel a f.zero b nb (h ∙ sym (zero-mul b)))

  -- An inverse is unique.
  pub inv_unique : (a b : F) → a ⊗ b ≡ f.one → b ≡ inv_or_zero a
  inv_unique a b h =
      mul_cancel b (inv_or_zero a) a ne
        (f.mul_comm b a ∙ h ∙ sym (mul-inv a ne) ∙ f.mul_comm a (inv_or_zero a))
    where
      ne : a ≢ f.zero
      ne e = f.one≢zero (sym h ∙ ap (λ t. t ⊗ b) e ∙ zero-mul b)

  pub inv-one : inv_or_zero f.one ≡ f.one
  inv-one = sym (inv_unique f.one f.one (f.mul-one f.one))

  pub zero-cases : (a : F) → (a ≡ f.zero) ⊎ (a ≢ f.zero)
  zero-cases a = elim (Bool-cases (a =? f.zero)) [
    | inl t ↦ inl ((f.beq_iff a f.zero).0 t)
    | inr e ↦ inr (=?_ne a f.zero e)
  ]

  pub inv-mul : (a b : F) → inv_or_zero (a ⊗ b) ≡ inv_or_zero a ⊗ inv_or_zero b
  inv-mul a b = elim (zero-cases a) [
    | inl az ↦ rw (az, zero-mul b, inv-zero, zero-mul)
    | inr an ↦ elim (zero-cases b) [
      | inl bz ↦ rw (bz, mul-zero a, inv-zero, mul-zero)
      | inr bn ↦ sym (
          inv_unique (a ⊗ b) (inv_or_zero a ⊗ inv_or_zero b) (
            mul_interchange a b (inv_or_zero a) (inv_or_zero b)
            ∙ ap (λ t. t ⊗ (b ⊗ inv_or_zero b)) (mul-inv a an)
            ∙ one-mul _
            ∙ mul-inv b bn))
    ]
  ]
