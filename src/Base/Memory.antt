-- ===== src/Base/Memory.antt =====
-- A block of memory as the list of its bytes. An access outside of it is a fault.
use Prim.Native.Nat.{ℕ, zero, suc, ◌+◌, ◌*◌, ◌/◌, ◌%◌, ◌^◌, ◌<◌}
use mathlib.Core.Path.{◌≡◌, refl, ap, ◌∙◌}
use mathlib.Core.List.{List, [], ◌∷◌, ◌++◌, reverse, append_assoc, reverse-append, reverse-reverse}
use native.Mathlib.Omega.{arith}
use native.Mathlib.Nat.{pow-suc}
use libm2handler.Base.Tests.{leb, if◌then◌else◌, le→leb}
use libm2handler.Base.Lists.{
  length, take, drop, length-append, take-length-append, drop-length-append,
}
use libm2handler.Base.Run.{Outcome, ret, faults, ◌>>=◌}

abbrev pub Bytes : Type 0
Bytes = List ℕ

abbrev pub All {ℓ κ} : {A : Type ℓ} → (A → Type κ) → List A → Type κ
All P [] = Unit
All P (x ∷ xs) = P x × All P xs

abbrev pub IsByte : ℕ → Type 0
IsByte x = x < 256

abbrev pub IsBytes : Bytes → Type 0
IsBytes = All IsByte

abbrev pub read : Bytes → ℕ → Outcome ℕ
read [] i = faults
read (x ∷ xs) zero = ret x
read (x ∷ xs) (suc i) = read xs i

abbrev pub write : Bytes → ℕ → ℕ → Outcome Bytes
write [] i v = faults
write (x ∷ xs) zero v = ret (v ∷ xs)
write (x ∷ xs) (suc i) v = write xs i v >>= λ ys. ret (x ∷ ys)

-- `memcpy(&(block[k]), bs, length bs)`
unfoldable pub store : Bytes → ℕ → Bytes → Outcome Bytes
store block k bs =
    if leb (k + length bs) (length block)
    then ret (take k block ++ (bs ++ drop (k + length bs) block))
    else faults

-- `memcpy(.., &(block[k]), n)`
unfoldable pub load : Bytes → ℕ → ℕ → Outcome Bytes
load block k n = if leb (k + n) (length block) then ret (take n (drop k block)) else faults

pub read-append : (xs : Bytes) (y : ℕ) (ys : Bytes) → read (xs ++ y ∷ ys) (length xs) ≡ ret y
read-append [] y ys = refl
read-append (x ∷ xs) y ys = read-append xs y ys

pub write-append :
    (xs : Bytes) (y : ℕ) (ys : Bytes) (v : ℕ)
    → write (xs ++ y ∷ ys) (length xs) v ≡ ret (xs ++ v ∷ ys)
write-append [] y ys v = refl
write-append (x ∷ xs) y ys v = rw (write-append xs y ys v)

module _ (pre mid post : Bytes) (k : ℕ) (at : k ≡ length pre) where
  drop-append : drop k (pre ++ (mid ++ post)) ≡ mid ++ post
  drop-append = rw at (drop-length-append pre (mid ++ post))

  drop_both : (n : ℕ) → n ≡ length (pre ++ mid) → drop n (pre ++ (mid ++ post)) ≡ post
  drop_both n e = rw (← append_assoc pre mid post, e) (drop-length-append (pre ++ mid) post)

  -- Reading back a part of a block.
  pub load-append : (n : ℕ) → n ≡ length mid → load (pre ++ (mid ++ post)) k n ≡ ret mid
  unfolding load
  load-append n e = rw (
    drop-append,
    le→leb (k + n) (length (pre ++ (mid ++ post)))
        (omega (arith, length-append pre (mid ++ post), length-append mid post)),
    e,
    take-length-append mid post,
  )

  -- Overwriting a part of a block by one of the same length.
  pub store-append :
      (new : Bytes)
      → length new ≡ length mid
      → store (pre ++ (mid ++ post)) k new ≡ ret (pre ++ (new ++ post))
  unfolding store
  store-append new e = rw (
    le→leb (k + length new) (length (pre ++ (mid ++ post)))
        (omega (arith, length-append pre (mid ++ post), length-append mid post)),
    drop_both (k + length new) (omega (arith, length-append pre mid)),
    at,
    take-length-append pre (mid ++ post),
  )

-- An unsigned integer of `w` bytes, the least significant byte first, and back.
unfoldable pub le_bytes : ℕ → ℕ → Bytes
le_bytes zero x = []
le_bytes (suc w) x = x % 256 ∷ le_bytes w (x / 256)

unfoldable pub le_value : Bytes → ℕ
le_value [] = 0
le_value (b ∷ bs) = b + 256 * le_value bs

pub length-le_bytes : (w x : ℕ) → length (le_bytes w x) ≡ w
unfolding le_bytes
length-le_bytes zero x = refl
length-le_bytes (suc w) x = ap suc (length-le_bytes w (x / 256))

pub le_bytes-IsBytes : (w x : ℕ) → IsBytes (le_bytes w x)
unfolding le_bytes
le_bytes-IsBytes zero x = tt
le_bytes-IsBytes (suc w) x = (omega arith, le_bytes-IsBytes w (x / 256))

pub le_value-le_bytes : (w x : ℕ) → x < 256 ^ w → le_value (le_bytes w x) ≡ x
unfolding le_bytes le_value
le_value-le_bytes zero x h = omega arith
le_value-le_bytes (suc w) x h =
    omega (arith, pow-suc 256 w, le_value-le_bytes w (x / 256) (omega (arith, pow-suc 256 w)))

pub append-IsBytes : (xs ys : Bytes) → IsBytes xs → IsBytes ys → IsBytes (xs ++ ys)
append-IsBytes [] ys p q = q
append-IsBytes (x ∷ xs) ys p q = (p.0, append-IsBytes xs ys p.1 q)

pub reverse-IsBytes : (xs : Bytes) → IsBytes xs → IsBytes (reverse xs)
reverse-IsBytes [] p = tt
reverse-IsBytes (x ∷ xs) p =
    rw (reverse-append (x ∷ []) xs)
      (append-IsBytes (reverse xs) (x ∷ []) (reverse-IsBytes xs p.1) (p.0, tt))

pub length-reverse : (xs : Bytes) → length (reverse xs) ≡ length xs
length-reverse [] = refl
length-reverse (x ∷ xs) =
    rw (reverse-append (x ∷ []) xs)
      (omega (arith, length-append (reverse xs) (x ∷ []), length-reverse xs))

-- The byte order of the machine, and of the network.
pub data Endian : Type 0 where
  little big : Endian

-- The bytes of an unsigned integer object of `w` bytes, and the integer that they stand for.
unfoldable pub host_bytes : Endian → ℕ → ℕ → Bytes
host_bytes little w x = le_bytes w x
host_bytes big w x = reverse (le_bytes w x)

unfoldable pub host_value : Endian → Bytes → ℕ
host_value little bs = le_value bs
host_value big bs = le_value (reverse bs)

pub host_value-host_bytes :
    (e : Endian) (w x : ℕ) → x < 256 ^ w → host_value e (host_bytes e w x) ≡ x
unfolding host_value host_bytes
host_value-host_bytes little w x h = le_value-le_bytes w x h
host_value-host_bytes big w x h = rw (reverse-reverse (le_bytes w x)) (le_value-le_bytes w x h)

pub length-host_bytes : (e : Endian) (w x : ℕ) → length (host_bytes e w x) ≡ w
unfolding host_bytes
length-host_bytes little w x = length-le_bytes w x
length-host_bytes big w x = length-reverse (le_bytes w x) ∙ length-le_bytes w x

pub host_bytes-IsBytes : (e : Endian) (w x : ℕ) → IsBytes (host_bytes e w x)
unfolding host_bytes
host_bytes-IsBytes little w x = le_bytes-IsBytes w x
host_bytes-IsBytes big w x = reverse-IsBytes (le_bytes w x) (le_bytes-IsBytes w x)
