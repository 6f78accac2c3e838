-- ===== src/Base/Decimal.antt =====
-- Decimal numerals as bytes: what `%d` prints and reads.
use Prim.Native.Nat.{ℕ, zero, suc, ◌+◌, ◌-◌, ◌*◌, ◌/◌, ◌%◌, ◌≤◌, ◌<◌}
use mathlib.Core.Path.{◌≡◌, refl, ap}
use mathlib.Core.Logic.{◌≢◌, inl, inr}
use mathlib.Core.List.{[], ◌∷◌}
use native.Mathlib.Omega.{arith}
use libm2handler.Base.Tests.{ltb, if◌then◌else◌, Bool-cases, ltb→lt, ltb→le}
use libm2handler.Base.Int.{ℤ, pos, negsuc}
use libm2handler.Base.Memory.{Bytes, All}

-- The digits of `n` in front of `acc`.
pub decimal_onto : ℕ → ℕ → Bytes → Bytes
decimal_onto zero n acc = acc
decimal_onto (suc fuel) n acc =
    let rest = decimal_onto fuel (n / 10) ((b'0' + n % 10) ∷ acc) in
    if ltb n 10 then (b'0' + n) ∷ acc else rest

unfoldable pub decimal : ℕ → Bytes
unfolding decimal_onto
decimal n = decimal_onto (suc n) n []

unfoldable pub decimal_ℤ : ℤ → Bytes
unfolding decimal
decimal_ℤ (pos n) = decimal n
decimal_ℤ (negsuc n) = b'-' ∷ decimal (suc n)

abbrev pub IsDigit : ℕ → Type 0
IsDigit c = (b'0' ≤ c) × (c ≤ b'9')

abbrev pub value_from : ℕ → Bytes → ℕ
value_from acc [] = acc
value_from acc (c ∷ cs) = value_from (acc * 10 + (c - b'0')) cs

-- The number that a row of digits stands for, leading zeros allowed.
abbrev pub decimal_value : Bytes → ℕ
decimal_value = value_from 0

value_from_eq : (a b : ℕ) (cs : Bytes) → a ≡ b → value_from a cs ≡ value_from b cs
value_from_eq a b cs h = ap (λ t. value_from t cs) h

value_from-decimal_onto :
    (fuel n : ℕ) (acc : Bytes)
    → n < fuel
    → value_from 0 (decimal_onto fuel n acc) ≡ value_from n acc
unfolding decimal_onto
value_from-decimal_onto zero n acc h = absurd (omega arith)
value_from-decimal_onto (suc fuel) n acc h = elim (Bool-cases (ltb n 10)) [
  | inl one ↦ rw one (value_from_eq _ _ acc (omega arith))
  | inr more ↦
      let big : 10 ≤ n = ltb→le n 10 more in
      let smaller : n / 10 < fuel = omega arith in
      rw (more, value_from-decimal_onto fuel (n / 10) ((b'0' + n % 10) ∷ acc) smaller)
        (value_from_eq _ _ acc (omega arith))
]

decimal_onto-IsDigit :
    (fuel n : ℕ) (acc : Bytes) → All IsDigit acc → All IsDigit (decimal_onto fuel n acc)
unfolding decimal_onto
decimal_onto-IsDigit zero n acc h = h
decimal_onto-IsDigit (suc fuel) n acc h = elim (Bool-cases (ltb n 10)) [
  | inl one ↦ let small = ltb→lt n 10 one in rw one ((omega arith, omega arith), h)
  | inr more ↦
      rw more
        (decimal_onto-IsDigit fuel (n / 10) ((b'0' + n % 10) ∷ acc) ((omega arith, omega arith), h))
]

decimal_onto-ne-nil : (fuel n : ℕ) (c : ℕ) (acc : Bytes) → decimal_onto fuel n (c ∷ acc) ≢ []
unfolding decimal_onto
decimal_onto-ne-nil zero n c acc h = cc
decimal_onto-ne-nil (suc fuel) n c acc h =
    ground (arith, decimal_onto-ne-nil fuel (n / 10) (b'0' + n % 10) (c ∷ acc))

pub decimal_value-decimal : (n : ℕ) → decimal_value (decimal n) ≡ n
unfolding decimal
decimal_value-decimal n = value_from-decimal_onto (suc n) n [] (omega arith)

pub decimal-IsDigit : (n : ℕ) → All IsDigit (decimal n)
unfolding decimal
decimal-IsDigit n = decimal_onto-IsDigit (suc n) n [] tt

pub decimal-ne-nil : (n : ℕ) → decimal n ≢ []
unfolding decimal
decimal-ne-nil n h = ground (arith, decimal_onto-ne-nil n (n / 10) (b'0' + n % 10) [])

pub decimal_ℤ-pos : (n : ℕ) → decimal_ℤ (pos n) ≡ decimal n
unfolding decimal_ℤ
decimal_ℤ-pos n = refl
