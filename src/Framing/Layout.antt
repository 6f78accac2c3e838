-- ===== src/Framing/Layout.antt =====
-- The shape of a frame that `create` lays out, and what the getters read from it.
use libm2handler.Base.{
  ℕ, ◌+◌, ◌%◌, ◌^◌, ◌≤◌, ◌<◌, ◌≡◌, ◌⊎◌, inl, inr, refl, sym, ◌∙◌, ap, [], ◌∷◌, ◌++◌, arith, Bool,
  leb, le→leb, lt→leb, ltb, assert_in, ◌==◌, if◌then◌else◌, pos, length, length-append, replicate,
  Bytes, IsByte, store-append, load, load-append, ret, Endian, host_bytes, length-host_bytes,
  host_value-host_bytes,
}
use libm2handler.Base.Bits.{zero-bit_or, bit_and-0x7f}
use libm2handler.Framing.Flags.{get_mask_present}
use libm2handler.Framing.Length.{
  small, medium, large, get_payload_type, get_payload_size, set_payload_size_in, net16_bytes,
  class_of, get_payload_type_lem,
}
use libm2handler.Framing.Payload.{get_payload_start, get_payload_start_lem, get_mask_present_lem}

abbrev pub length_code : ℕ → ℕ
length_code n = if leb n 125 then n else if leb n 65536 then 126 else 127

abbrev pub ext_len : ℕ → ℕ
ext_len n = if leb n 125 then 0 else if leb n 65536 then 2 else 8

abbrev pub mask_bit : Bool → ℕ
mask_bit masked = if masked then 128 else 0

abbrev pub key_len : Bool → ℕ
key_len masked = if masked then 4 else 0

unfoldable pub length_ext : Endian → ℕ → Bytes
length_ext e n =
    if leb n 125 then [] else if leb n 65536 then net16_bytes (n % 2 ^ 16) else host_bytes e 8 n

-- First byte `b₀`, announced length `n`, masking key and payload.
unfoldable pub layout : Endian → ℕ → Bool → ℕ → Bytes → Bytes → Bytes
layout e b₀ masked n key payload =
    b₀ ∷ (length_code n + mask_bit masked) ∷ (length_ext e n ++ (key ++ payload))

pub Size-cases : (n : ℕ) → (n ≤ 125) ⊎ ((126 ≤ n) × (n ≤ 65536) ⊎ (65537 ≤ n))
Size-cases n = ground arith

pub length-length_ext : (e : Endian) (n : ℕ) → length (length_ext e n) ≡ ext_len n
unfolding length_ext net16_bytes
length-length_ext e n = ground (arith, length-host_bytes e 8 n)

pub length-layout :
    (e : Endian) (b₀ n : ℕ) (masked : Bool) (key payload : Bytes)
    → length (layout e b₀ masked n key payload) ≡ 2 + ext_len n + (length key + length payload)
unfolding layout
length-layout e b₀ n masked key payload = omega (
  arith,
  length-append (length_ext e n) (key ++ payload),
  length-append key payload,
  length-length_ext e n,
)

-- The length field of a frame whose second byte and extension are still zero.
pub set_payload_size_in_lem :
    (debug : Bool) (e : Endian) (len b₀ n : ℕ) (rest : Bytes)
    → assert_in debug (ltb 2 len) ≡ ret tt
    → set_payload_size_in debug e len (b₀ ∷ 0 ∷ (replicate (ext_len n) 0 ++ rest)) n
      ≡ ret (pos 0, b₀ ∷ length_code n ∷ (length_ext e n ++ rest))
unfolding set_payload_size_in length_ext
set_payload_size_in_lem debug e len b₀ n rest h = elim (Size-cases n) [
  | inl s ↦
      rw (h, le→leb n 125 s, bit_and-0x7f n (omega arith), zero-bit_or (n % 128)) (ground arith)
  | inr (inl m) ↦
      rw (h, lt→leb n 125 m.0, le→leb 126 n m.0, le→leb n 65536 m.1)
        (rw (store-append (b₀ ∷ 126 ∷ []) (0 ∷ 0 ∷ []) rest 2 refl (net16_bytes (n % 2 ^ 16)) refl))
  | inr (inr l) ↦
      rw
        (
          h,
          lt→leb n 125 (omega arith),
          lt→leb n 65536 l,
          le→leb 126 n (omega arith),
          le→leb 65537 n l,
        )
        (rw (
          store-append (b₀ ∷ 127 ∷ []) (replicate 8 0) rest 2 refl (host_bytes e 8 n)
            (length-host_bytes e 8 n)))
]

length_code-lt : (n : ℕ) → length_code n < 128
length_code-lt n = ground arith

second-IsByte : (n : ℕ) (masked : Bool) → IsByte (length_code n + mask_bit masked)
second-IsByte n masked = ground (arith, length_code-lt n)

pub class_of-second :
    (n : ℕ) (masked : Bool)
    → class_of (length_code n + mask_bit masked)
      ≡ (if leb n 125 then small else if leb n 65536 then medium else large)
class_of-second n masked = ground arith

module _ (e : Endian) (len b₀ n : ℕ) (masked : Bool) (key payload : Bytes) (room : 1 < len) where
  abbrev second : ℕ
  second = length_code n + mask_bit masked

  abbrev rest : Bytes
  rest = length_ext e n ++ (key ++ payload)

  pub get_mask_present-layout :
      get_mask_present len (layout e b₀ masked n key payload) ≡ ret (if masked then 1 else 0)
  unfolding layout
  get_mask_present-layout =
      rw (get_mask_present_lem len b₀ second rest room (second-IsByte n masked))
        (ground (arith, length_code-lt n))

  pub get_payload_type-layout :
      get_payload_type len (layout e b₀ masked n key payload)
      ≡ ret (if leb n 125 then small else if leb n 65536 then medium else large)
  unfolding layout
  get_payload_type-layout =
      rw (get_payload_type_lem len b₀ second rest room (second-IsByte n masked))
        (ap ret (class_of-second n masked))

  load-length_ext :
      (k : ℕ) → k ≡ ext_len n → load (layout e b₀ masked n key payload) 2 k ≡ ret (length_ext e n)
  unfolding layout
  load-length_ext k h =
      load-append (b₀ ∷ second ∷ []) (length_ext e n) (key ++ payload) 2 refl k
        (h ∙ sym (length-length_ext e n))

  pub get_payload_start-layout :
      get_payload_start len (layout e b₀ masked n key payload)
      ≡ ret (pos (2 + key_len masked + ext_len n))
  unfolding layout
  get_payload_start-layout =
      rw (get_payload_start_lem len b₀ second rest room (second-IsByte n masked))
        (ground (arith, class_of-second n masked, length_code-lt n))

  -- `get_payload_size` reads the announced length, below 2^64, back from a frame of more than one
  -- byte, but for the length 65536, which it reads as 0. It holds for both byte orders, with and
  -- without a mask.
  pub get_payload_size-layout :
      n < 2 ^ 64
      → get_payload_size e len (layout e b₀ masked n key payload)
        ≡ ret (if n == 65536 then 0 else n)
  unfolding layout get_payload_size length_ext net16_bytes
  get_payload_size-layout h = elim (Size-cases n) [
    | inl s ↦
        rw (type_is, le→leb n 125 s)
          (rw (bit_and-0x7f second (second-IsByte n masked)) (ground arith))
    | inr (inl m) ↦
        rw (type_is, lt→leb n 125 m.0, le→leb n 65536 m.1)
          (rw (load-length_ext 2 (ground arith), lt→leb n 125 m.0, le→leb n 65536 m.1)
            (ground arith))
    | inr (inr l) ↦
        rw (type_is, lt→leb n 125 (omega arith), lt→leb n 65536 l)
          (rw
            (
              load-length_ext 8 (ground arith),
              lt→leb n 125 (omega arith),
              lt→leb n 65536 l,
              host_value-host_bytes e 8 n h,
            )
            (ground arith))
  ]
    where
      type_is :
          get_payload_type len (b₀ ∷ second ∷ rest)
          ≡ ret (if leb n 125 then small else if leb n 65536 then medium else large)
      type_is = get_payload_type-layout
