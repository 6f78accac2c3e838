-- ===== src/Base/Bits.antt =====
-- The bit operations of the framing code as arithmetic, checked over all bytes by evaluation.
use Prim.Native.Nat.{ℕ, zero, suc, ◌+◌, ◌*◌, ◌/◌, ◌%◌, ◌<◌, ◌^◌, bit_and, bit_or, bit_xor}
use Prim.Native.Nat.{bit_or-bitwise}
use mathlib.Core.Path.{◌≡◌, refl}
use mathlib.Core.Bool.{Bool, true, ◌&&◌}
use native.Mathlib.Omega.{arith}
use libm2handler.Base.Tests.{ltb, ltb→lt, ◌==◌, ==_iff}

every : ℕ → (ℕ → Bool) → Bool
every zero p = true
every (suc n) p = p n && every n p

every_sound : (n : ℕ) (p : ℕ → Bool) (x : ℕ) → every n p ≡ true → x < n → p x ≡ true
unfolding every
every_sound zero p x h lt = absurd (omega arith)
every_sound (suc n) p x h lt = ground (arith, every_sound n p x)

pub zero-bit_or : (x : ℕ) → bit_or 0 x ≡ x
zero-bit_or x = bit_or-bitwise 0 x

-- An equation between functions of a byte, from its table.
byte_eq : (f g : ℕ → ℕ) (x : ℕ) → every 256 (λ b. f b == g b) ≡ true → x < 256 → f x ≡ g x
byte_eq f g x table h = (==_iff (f x) (g x)).0 (every_sound 256 (λ b. f b == g b) x table h)

module _ (x : ℕ) (h : x < 256) where
  pub bit_and-0x0f : bit_and x 0x0f ≡ x % 16
  unfolding every
  bit_and-0x0f = byte_eq (λ b. bit_and b 0x0f) (λ b. b % 16) x refl h

  pub low_four-bit_and : bit_and 0x0F x ≡ x % 16
  unfolding every
  low_four-bit_and = byte_eq (λ b. bit_and 0x0F b) (λ b. b % 16) x refl h

  pub bit_and-0x10 : bit_and x 0x10 / 2 ^ 4 ≡ x / 16 % 2
  unfolding every
  bit_and-0x10 = byte_eq (λ b. bit_and b 0x10 / 2 ^ 4) (λ b. b / 16 % 2) x refl h

  pub bit_and-0x20 : bit_and x 0x20 / 2 ^ 5 ≡ x / 32 % 2
  unfolding every
  bit_and-0x20 = byte_eq (λ b. bit_and b 0x20 / 2 ^ 5) (λ b. b / 32 % 2) x refl h

  pub bit_and-0x40 : bit_and x 0x40 / 2 ^ 6 ≡ x / 64 % 2
  unfolding every
  bit_and-0x40 = byte_eq (λ b. bit_and b 0x40 / 2 ^ 6) (λ b. b / 64 % 2) x refl h

  pub bit_and-0x80 : bit_and x 0x80 / 2 ^ 7 ≡ x / 128
  unfolding every
  bit_and-0x80 = byte_eq (λ b. bit_and b 0x80 / 2 ^ 7) (λ b. b / 128) x refl h

  pub bit_and-0x7f : bit_and x 0x7f ≡ x % 128
  unfolding every
  bit_and-0x7f = byte_eq (λ b. bit_and b 0x7f) (λ b. b % 128) x refl h

  pub bit_or-0x80 : bit_or x 0x80 ≡ x % 128 + 128
  unfolding every
  bit_or-0x80 = byte_eq (λ b. bit_or b 0x80) (λ b. b % 128 + 128) x refl h

xor_table :
    every 256 (λ x. every 256 (λ y. bit_xor (bit_xor x y) y == x && ltb (bit_xor x y) 256)) ≡ true
unfolding every
xor_table = refl

xor_row :
    (x y : ℕ) → x < 256 → y < 256 → (bit_xor (bit_xor x y) y == x && ltb (bit_xor x y) 256) ≡ true
xor_row x y hx hy =
    every_sound 256 (λ v. bit_xor (bit_xor x v) v == x && ltb (bit_xor x v) 256) y
      (every_sound 256 (λ u. every 256 (λ v. bit_xor (bit_xor u v) v == u && ltb (bit_xor u v) 256))
        x xor_table hx)
      hy

pub bit_xor_twice : (x y : ℕ) → x < 256 → y < 256 → bit_xor (bit_xor x y) y ≡ x
bit_xor_twice x y hx hy = ground (arith, xor_row x y hx hy)

pub bit_xor-lt : (x y : ℕ) → x < 256 → y < 256 → bit_xor x y < 256
bit_xor-lt x y hx hy = ground (arith, xor_row x y hx hy)

or_bytes : every 256 (λ x. every 256 (λ y. ltb (bit_or x y) 256)) ≡ true
unfolding every
or_bytes = refl

pub bit_or-lt : (x y : ℕ) → x < 256 → y < 256 → bit_or x y < 256
bit_or-lt x y hx hy = ltb→lt (bit_or x y) 256 (
    every_sound 256 (λ v. ltb (bit_or x v) 256) y
      (every_sound 256 (λ u. every 256 (λ v. ltb (bit_or u v) 256)) x or_bytes hx) hy)

or_table :
    every 256 (λ x.
      every 16 (λ y. bit_or x y == x / 16 * 16 + bit_or (x % 16) y && ltb (bit_or (x % 16) y) 16))
    ≡ true
unfolding every
or_table = refl

or_row :
    (x y : ℕ)
    → x < 256
    → y < 16
    → (bit_or x y == x / 16 * 16 + bit_or (x % 16) y && ltb (bit_or (x % 16) y) 16) ≡ true
or_row x y hx hy =
    every_sound 16
      (λ v. bit_or x v == x / 16 * 16 + bit_or (x % 16) v && ltb (bit_or (x % 16) v) 16) y
      (every_sound 256
        (λ u.
          every 16
            (λ v. bit_or u v == u / 16 * 16 + bit_or (u % 16) v && ltb (bit_or (u % 16) v) 16))
        x or_table hx)
      hy

-- Setting the low four bits leaves the high four alone.
pub bit_or_low :
    (x y : ℕ)
    → x < 256
    → y < 16
    → (bit_or x y ≡ x / 16 * 16 + bit_or (x % 16) y) × (bit_or (x % 16) y < 16)
bit_or_low x y hx hy = ground (arith, or_row x y hx hy)
