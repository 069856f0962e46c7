-- ===== src/ClientAuth/Comparison.antt =====
-- The comparison of bytes (src/client_auth.rs, `constant_time_eq`).
use sirius_api_proxy.Base.{
  ℕ, ◌≡◌, ◌↔◌, refl, true, List, [], ◌∷◌, length, arith, bit_or, bit_xor, bit_or-eq-zero_iff,
  bit_xor-eq-zero_iff,
}
use sirius_api_proxy.ClientAuth.Tokens.{differences, constant_time_eq}

differences-zero :
    (acc : ℕ) (xs ys : List ℕ)
    → length xs ≡ length ys
    → differences acc xs ys ≡ 0
    → (acc ≡ 0) × (xs ≡ ys)
unfolding differences
differences-zero acc [] [] l z = (z, refl)
differences-zero acc [] (y ∷ ys) l z = absurd (omega (arith, l))
differences-zero acc (x ∷ xs) [] l z = absurd (omega (arith, l))
differences-zero acc (x ∷ xs) (y ∷ ys) l z =
    let (o, e) = differences-zero (bit_or acc (bit_xor x y)) xs ys (omega (arith, l)) z in
    let (a, d) = (bit_or-eq-zero_iff acc (bit_xor x y)).0 o in
    (a, rw ((bit_xor-eq-zero_iff x y).0 d, e) refl)

zero-differences : (xs : List ℕ) → differences 0 xs xs ≡ 0
unfolding differences
zero-differences [] = refl
zero-differences (x ∷ xs) =
    rw ((bit_xor-eq-zero_iff x x).1 refl)
      (rw ((bit_or-eq-zero_iff 0 0).1 (refl, refl)) (zero-differences xs))

-- The comparison that folds the differences of all bytes, without an early end, tells equality.
pub constant_time_eq_iff : (a b : List ℕ) → (constant_time_eq a b ≡ true) ↔ (a ≡ b)
unfolding constant_time_eq
constant_time_eq_iff a b = (
  (λ h. (differences-zero 0 a b (ground (arith, h)) (ground (arith, h))).1),
  λ e. rw (e, zero-differences b) (ground arith),
)
