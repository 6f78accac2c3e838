-- ===== src/Framing/Network.antt =====
-- The length that `get_payload_size` reads from a frame as RFC 6455, section 5.2, has it, with the
-- length in network order: src/websocket_framing.c, lines 97 to 119.
use libm2handler.Base.{
  ℕ, ◌+◌, ◌^◌, ◌≤◌, ◌<◌, ◌≡◌, ◌⊎◌, inl, inr, refl, sym, ap, [], ◌∷◌, ◌++◌, arith, Bool, leb, le→leb,
  lt→leb, if◌then◌else◌, length, Bytes, IsByte, load-append, load, ret, Endian, little, big,
  host_bytes, length-host_bytes, host_value, host_value-host_bytes, le_bytes, le_value,
}
use mathlib.Core.List.{reverse}
use libm2handler.Base.Bits.{bit_and-0x7f}
use libm2handler.Framing.Length.{
  small, medium, large, get_payload_type, get_payload_size, net16_bytes, get_payload_type_lem,
}
use libm2handler.Framing.Layout.{mask_bit}

abbrev rfc_code : ℕ → ℕ
rfc_code n = if leb n 125 then n else if leb n 65535 then 126 else 127

abbrev pub net_bytes : ℕ → Bytes
net_bytes n = host_bytes big 8 n

unfoldable rfc_ext : ℕ → Bytes
rfc_ext n = if leb n 125 then [] else if leb n 65535 then net16_bytes n else net_bytes n

-- First byte `b₀`, payload length `n`, and what follows the length.
unfoldable pub rfc_frame : ℕ → Bool → ℕ → Bytes → Bytes
unfolding rfc_ext
rfc_frame b₀ masked n rest = b₀ ∷ (rfc_code n + mask_bit masked) ∷ (rfc_ext n ++ rest)

-- The number whose eight bytes are those of `n` in the other order.
unfoldable pub swapped : ℕ → ℕ
swapped n = le_value (reverse (le_bytes 8 n))

abbrev pub read_as : Endian → ℕ → ℕ
read_as little n = if leb n 65535 then n else swapped n
read_as big n = n

read_as-short : (e : Endian) (n : ℕ) → n ≤ 65535 → read_as e n ≡ n
read_as-short little n s = rw (le→leb n 65535 s) refl
read_as-short big n s = refl

host_value-net_bytes :
    (e : Endian) (n : ℕ) → 65536 ≤ n → n < 2 ^ 64 → host_value e (net_bytes n) ≡ read_as e n
unfolding host_value host_bytes swapped
host_value-net_bytes little n lo hi = rw (lt→leb n 65535 lo) refl
host_value-net_bytes big n lo hi = host_value-host_bytes big 8 n hi

module _ (e : Endian) (len b₀ n : ℕ) (masked : Bool) (rest : Bytes) (room : 1 < len) where
  abbrev second : ℕ
  second = rfc_code n + mask_bit masked

  second-IsByte : IsByte second
  second-IsByte = ground arith

  type_is :
      get_payload_type len (rfc_frame b₀ masked n rest)
      ≡ ret (if leb n 125 then small else if leb n 65535 then medium else large)
  unfolding rfc_frame
  type_is =
      rw (get_payload_type_lem len b₀ second (rfc_ext n ++ rest) room second-IsByte) (ground arith)

  load-rfc_ext :
      (k : ℕ) → k ≡ length (rfc_ext n) → load (rfc_frame b₀ masked n rest) 2 k ≡ ret (rfc_ext n)
  unfolding rfc_frame
  load-rfc_ext k h = load-append (b₀ ∷ second ∷ []) (rfc_ext n) rest 2 refl k h

  Length-cases : (n : ℕ) → (n ≤ 125) ⊎ ((126 ≤ n) × (n ≤ 65535) ⊎ (65536 ≤ n))
  Length-cases n = ground arith

  -- On a frame whose length is laid out as RFC 6455 says, in network order, `get_payload_size`
  -- returns the length on a machine of network byte order. On a little-endian machine it returns
  -- a length of at most 65535, and in place of a larger one the number whose eight bytes are
  -- those of the length in the other order. The told size is above 1 and the length is below
  -- 2^64; with and without a mask.
  pub get_payload_size-rfc_frame :
      n < 2 ^ 64 → get_payload_size e len (rfc_frame b₀ masked n rest) ≡ ret (read_as e n)
  unfolding get_payload_size rfc_frame rfc_ext net16_bytes
  get_payload_size-rfc_frame h = elim (Length-cases n) [
    | inl s ↦
        rw (type_is, le→leb n 125 s)
          (rw (bit_and-0x7f second second-IsByte, read_as-short e n (omega arith))
            (ap ret (ground arith)))
    | inr (inl m) ↦
        rw (type_is, lt→leb n 125 m.0, le→leb n 65535 m.1)
          (rw
            (
              load-rfc_ext 2 (rw (lt→leb n 125 m.0, le→leb n 65535 m.1) refl),
              lt→leb n 125 m.0,
              le→leb n 65535 m.1,
              read_as-short e n m.1,
            )
            (ground arith))
    | inr (inr l) ↦
        rw (type_is, lt→leb n 125 (omega arith), lt→leb n 65535 l)
          (rw
            (
              load-rfc_ext 8 (
                  rw (lt→leb n 125 (omega arith), lt→leb n 65535 l)
                    (sym (length-host_bytes big 8 n))),
              lt→leb n 125 (omega arith),
              lt→leb n 65535 l,
              host_value-net_bytes e n l h,
            )
            refl)
  ]
