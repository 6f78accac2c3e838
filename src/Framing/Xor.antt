-- ===== src/Framing/Xor.antt =====
-- The masking loop against its specification on lists.
use libm2handler.Base.{
  lt→ltb, ◌<◌, ◌^◌, ℕ, zero, suc, ◌+◌, ◌%◌, ◌<◌, ◌≡◌, refl, ap, [], ◌∷◌, ◌++◌, append_assoc,
  append-nil, arith, bit_xor, length, length-append, Bytes, IsByte, IsBytes, read, read-append,
  write-append, ret, pos, Endian, host_bytes, length-host_bytes,
}
use libm2handler.Base.Bits.{bit_xor_twice, bit_xor-lt}
use libm2handler.Framing.Mask.{xor_loop, unmask}

abbrev pub key_byte : Bytes → ℕ → ℕ
key_byte [] i = 0
key_byte (k ∷ ks) zero = k
key_byte (k ∷ ks) (suc i) = key_byte ks i

-- RFC 6455, section 5.3: octet i of the payload, combined with octet i mod 4 of the key.
unfoldable pub mask_with : Bytes → ℕ → Bytes → Bytes
mask_with key i [] = []
mask_with key i (x ∷ xs) = bit_xor x (key_byte key (i % 4)) ∷ mask_with key (i + 1) xs

read-key_byte : (key : Bytes) (i : ℕ) → i < length key → read key i ≡ ret (key_byte key i)
read-key_byte [] i h = absurd (omega arith)
read-key_byte (k ∷ ks) zero h = refl
read-key_byte (k ∷ ks) (suc i) h = read-key_byte ks i (omega arith)

key_byte-IsByte : (key : Bytes) (i : ℕ) → IsBytes key → IsByte (key_byte key i)
key_byte-IsByte [] i h = omega arith
key_byte-IsByte (k ∷ ks) zero h = h.0
key_byte-IsByte (k ∷ ks) (suc i) h = key_byte-IsByte ks i h.1

pub length-mask_with : (key : Bytes) (i : ℕ) (xs : Bytes) → length (mask_with key i xs) ≡ length xs
unfolding mask_with
length-mask_with key i [] = refl
length-mask_with key i (x ∷ xs) = ap suc (length-mask_with key (i + 1) xs)

pub mask_with-IsBytes :
    (key : Bytes) (i : ℕ) (xs : Bytes) → IsBytes key → IsBytes xs → IsBytes (mask_with key i xs)
unfolding mask_with
mask_with-IsBytes key i [] k h = tt
mask_with-IsBytes key i (x ∷ xs) k h =
    (bit_xor-lt x _ h.0 (key_byte-IsByte key (i % 4) k), mask_with-IsBytes key (i + 1) xs k h.1)

-- Masking twice with one key gives the bytes back.
pub mask_with_twice :
    (key : Bytes) (i : ℕ) (xs : Bytes)
    → IsBytes key
    → IsBytes xs
    → mask_with key i (mask_with key i xs) ≡ xs
unfolding mask_with
mask_with_twice key i [] k h = refl
mask_with_twice key i (x ∷ xs) k h = rw (
  bit_xor_twice x (key_byte key (i % 4)) h.0 (key_byte-IsByte key (i % 4) k),
  mask_with_twice key (i + 1) xs k h.1,
)

module _ (key : Bytes) (four : length key ≡ 4) (start : ℕ) (post : Bytes) where
  -- The loop masks the bytes of its range and leaves what stands before and behind them.
  pub xor_loop_lem :
      (i : ℕ) (pre todo : Bytes)
      → length pre ≡ start + i
      → xor_loop (length todo) i start key (pre ++ (todo ++ post))
        ≡ ret (pre ++ (mask_with key i todo ++ post))
  unfolding xor_loop mask_with
  xor_loop_lem i pre [] h = refl
  xor_loop_lem i pre (x ∷ todo) h =
      let y : ℕ = bit_xor x (key_byte key (i % 4)) in
      rw
        (
          ← h,
          read-append pre x (todo ++ post),
          read-key_byte key (i % 4) (omega arith),
          write-append pre x (todo ++ post) (bit_xor x (key_byte key (i % 4))),
        )
        (rw
          (
            append_assoc pre (y ∷ []) (todo ++ post),
            append_assoc pre (y ∷ []) (mask_with key (i + 1) todo ++ post),
          )
          at
          (xor_loop_lem (i + 1) (pre ++ (y ∷ [])) todo (omega (arith, length-append pre (y ∷ [])))))

-- `unmask` over a whole buffer combines octet i with octet i mod 4 of the key as it lies in
-- memory, which is the masking of RFC 6455, and returns 0.
pub unmask_lem :
    (e : Endian) (mask : ℕ) (xs : Bytes)
    → length xs < 2 ^ 31
    → unmask e mask (length xs) xs ≡ ret (pos 0, mask_with (host_bytes e 4 mask) 0 xs)
unfolding unmask
unmask_lem e mask xs h = rw (lt→ltb (length xs) (2 ^ 31) h, whole)
  where
    key : Bytes
    key = host_bytes e 4 mask

    whole : xor_loop (length xs) 0 0 key xs ≡ ret (mask_with key 0 xs)
    whole =
        rw (append-nil xs, append-nil (mask_with key 0 xs)) at
          (xor_loop_lem key (length-host_bytes e 4 mask) 0 [] 0 [] xs (omega arith))
