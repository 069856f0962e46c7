-- ===== src/Base/Bits.antt =====
-- The operations on binary digits: when exclusive or and or are zero.
use Prim.Native.Nat.{
  ℕ, zero, suc, ◌/◌, ◌%◌, ◌≤◌, max, digits, differ, bit_or, bit_or-bitwise, bit_xor,
  bit_xor-bitwise,
}
use mathlib.Core.Path.{◌≡◌, refl, sym, ap}
use mathlib.Core.Logic.{◌↔◌}
use native.Mathlib.Omega.{arith}

differ-zero : (x y : ℕ) → (differ x y ≡ 0) ↔ (x ≡ y)
differ-zero zero y = (sym, sym)
differ-zero (suc x) zero = ((λ e. e), λ e. e)
differ-zero (suc x) (suc y) =
    ((λ e. ap suc ((differ-zero x y).0 e)), λ e. (differ-zero x y).1 (omega (arith, e)))

digits-differ-zero : (n a b : ℕ) → a ≤ n → (digits (λ b. b) differ n a b ≡ 0) ↔ (a ≡ b)
digits-differ-zero zero a b l = ((λ e. omega (arith, l, e)), λ e. omega (arith, l, e))
digits-differ-zero (suc n) zero b l = (sym, sym)
digits-differ-zero (suc n) (suc a) b l =
    let (i, j) = digits-differ-zero n (suc a / 2) (b / 2) (omega (arith, l)) in
    let (p, q) = differ-zero (suc a % 2) (b % 2) in
    (
      (λ e. omega (arith, i (omega (arith, e)), p (omega (arith, e)))),
      λ e. omega (arith, j (omega (arith, e)), q (omega (arith, e))),
    )

digits-max-zero : (n a b : ℕ) → a ≤ n → (digits (λ b. b) max n a b ≡ 0) ↔ ((a ≡ 0) × (b ≡ 0))
digits-max-zero zero a b l = ((λ e. (omega (arith, l), e)), λ (e, h). h)
digits-max-zero (suc n) zero b l = ((λ e. (refl, e)), λ (e, h). h)
digits-max-zero (suc n) (suc a) b l =
    let (i, j) = digits-max-zero n (suc a / 2) (b / 2) (omega (arith, l)) in
    (
      (λ e. let (x, y) = i (omega (arith, e)) in (omega (arith, x, e), omega (arith, y, e))),
      λ (e, h). absurd (omega (arith, e)),
    )

pub bit_xor-eq-zero_iff : (a b : ℕ) → (bit_xor a b ≡ 0) ↔ (a ≡ b)
bit_xor-eq-zero_iff a b = rw (bit_xor-bitwise a b) (digits-differ-zero a a b (omega arith))

pub bit_or-eq-zero_iff : (a b : ℕ) → (bit_or a b ≡ 0) ↔ ((a ≡ 0) × (b ≡ 0))
bit_or-eq-zero_iff a b = rw (bit_or-bitwise a b) (digits-max-zero a a b (omega arith))
