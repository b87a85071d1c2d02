-- ===== src/Middleware/Csrf/Compare.antt =====
-- The comparison of bytes is equality.
use Prim.Native.Nat.{bit_or, bit_xor, bit_or-bitwise, bit_xor-bitwise, digits, differ, max}
use goauth_server.Prelude.{ℕ, zero, suc, ◌/◌, ◌%◌, ◌≤◌, ◌≡◌, ◌↔◌, refl, true, List, [], ◌∷◌, arith}
use goauth_server.Middleware.Csrf.{byte_length, differences, secure_compare}

abbrev xor_digits : ℕ → ℕ → ℕ → ℕ
xor_digits n a b = digits (λ y. y) differ n a b

abbrev or_digits : ℕ → ℕ → ℕ → ℕ
or_digits n a b = digits (λ y. y) max n a b

differ-zero : (x y : ℕ) → x ≤ 1 → y ≤ 1 → differ x y ≡ 0 → x ≡ y
differ-zero zero y hx hy h = omega (arith, h)
differ-zero (suc x) zero hx hy h = omega (arith, h)
differ-zero (suc x) (suc y) hx hy h = omega arith

differ-same : (x : ℕ) → differ x x ≡ 0
differ-same zero = refl
differ-same (suc x) = differ-same x

xor_digits-zero : (n a b : ℕ) → a ≤ n → xor_digits n a b ≡ 0 → a ≡ b
xor_digits-zero zero zero b p h = omega (arith, h)
xor_digits-zero zero (suc a) b p h = absurd (omega arith)
xor_digits-zero (suc n) zero b p h = omega (arith, h)
xor_digits-zero (suc n) (suc a) b p h = omega (
  arith,
  xor_digits-zero n (suc a / 2) (b / 2) (omega arith) (omega (arith, h)),
  differ-zero (suc a % 2) (b % 2) (omega arith) (omega arith) (omega (arith, h)),
)

xor_digits-same : (n a : ℕ) → a ≤ n → xor_digits n a a ≡ 0
xor_digits-same zero zero p = refl
xor_digits-same zero (suc a) p = absurd (omega arith)
xor_digits-same (suc n) zero p = refl
xor_digits-same (suc n) (suc a) p =
    omega (arith, xor_digits-same n (suc a / 2) (omega arith), differ-same (suc a % 2))

or_digits-zero : (n a b : ℕ) → a ≤ n → or_digits n a b ≡ 0 → (a ≡ 0) × (b ≡ 0)
or_digits-zero zero zero b p h = (refl, omega (arith, h))
or_digits-zero zero (suc a) b p h = absurd (omega arith)
or_digits-zero (suc n) zero b p h = (refl, omega (arith, h))
or_digits-zero (suc n) (suc a) b p h =
    let ih = or_digits-zero n (suc a / 2) (b / 2) (omega arith) (omega (arith, h)) in
    absurd (omega (arith, ih.0, ih.1, h))

bit_xor-zero_iff : (a b : ℕ) → (bit_xor a b ≡ 0) ↔ (a ≡ b)
bit_xor-zero_iff a b = (
  λ h. xor_digits-zero a a b (omega arith) (rw⁻¹ (bit_xor-bitwise a b) h),
  λ same. rw same (rw (bit_xor-bitwise b b) (xor_digits-same b b (omega arith))),
)

bit_or-zero_iff : (a b : ℕ) → (bit_or a b ≡ 0) ↔ ((a ≡ 0) × (b ≡ 0))
bit_or-zero_iff a b =
    (λ h. or_digits-zero a a b (omega arith) (rw⁻¹ (bit_or-bitwise a b) h), λ z. rw (z.0, z.1) refl)

differences-zero :
    (a b : List ℕ) (diff : ℕ)
    → byte_length a ≡ byte_length b
    → differences a b diff ≡ 0
    → (diff ≡ 0) × (a ≡ b)
unfolding differences byte_length
differences-zero [] [] diff l h = (h, refl)
differences-zero [] (y ∷ b) diff l h = absurd (omega (arith, l))
differences-zero (x ∷ a) [] diff l h = absurd (omega (arith, l))
differences-zero (x ∷ a) (y ∷ b) diff l h =
    let (d, same) = differences-zero a b (bit_or diff (bit_xor x y)) (omega (arith, l)) h in
    let (zero_diff, equal) = (bit_or-zero_iff diff (bit_xor x y)).0 d in
    (zero_diff, cc ((bit_xor-zero_iff x y).0 equal, same))

differences-same : (a : List ℕ) → differences a a 0 ≡ 0
unfolding differences
differences-same [] = refl
differences-same (x ∷ a) = rw ((bit_xor-zero_iff x x).1 refl) (differences-same a)

-- The comparison in constant time of two arrays of bytes answers whether they are equal.
pub secure_compare_iff : (a b : List ℕ) → (secure_compare a b ≡ true) ↔ (a ≡ b)
unfolding secure_compare
secure_compare_iff a b = (
  λ h. (differences-zero a b 0 (ground (arith, h)) (ground (arith, h))).1,
  λ same. rw same (ground (arith, differences-same b)),
)
