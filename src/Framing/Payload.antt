-- ===== src/Framing/Payload.antt =====
-- Where the payload starts, and copying it in and out: src/websocket_framing.c, lines 121 to 164.
use libm2handler.Base.{
  ℕ, ◌+◌, ◌/◌, ◌<◌, ◌≡◌, ◌∷◌, arith, ◌==◌, if◌then◌else◌, ℤ, pos, negsuc, ◌+ℤ◌, Bytes, IsByte, load,
  store, Outcome, ret, faults, ◌>>=◌, Endian,
}
use libm2handler.Base.Bits.{bit_and-0x80}
use libm2handler.Framing.Flags.{get_mask_present}
use libm2handler.Framing.Length.{
  small, medium, large, invalid, get_payload_type, get_payload_size, class_of, get_payload_type_lem,
}

unfoldable pub get_payload_start : ℕ → Bytes → Outcome ℤ
unfolding ◌+ℤ◌
get_payload_start size frame = do
  type ← get_payload_type size frame
  mask_present ← get_mask_present size frame
  let retval = pos 0 +ℤ pos 2
  let retval' = if mask_present == 1 then retval +ℤ pos 4 else retval
  ret (elim type [
    | small ↦ retval'
    | medium ↦ retval' +ℤ pos 2
    | large ↦ retval' +ℤ pos 8
    | invalid ↦ negsuc 0
  ])

-- An index into a block; before its start there is nothing to access.
abbrev pub index : ℤ → Outcome ℕ
index (pos n) = ret n
index (negsuc n) = faults

-- `i_size` is the number of bytes of `incoming`.
unfoldable pub set_payload : ℕ → Bytes → ℕ → Bytes → Outcome (ℤ × Bytes)
set_payload size frame i_size incoming = do
  payload_start ← get_payload_start size frame
  k ← index payload_start
  bs ← load incoming 0 i_size
  frame' ← store frame k bs
  ret (pos 0, frame')

-- The `*osize` and the offset of `*opayload` from `frame`.
pub record Slice : Type 0 where
  pub status : ℤ
  pub osize : ℕ
  pub start : ℤ

unfoldable pub get_payload : Endian → ℕ → Bytes → Outcome Slice
get_payload e size frame = do
  payload_start ← get_payload_start size frame
  payload_size ← get_payload_size e size frame
  ret (record { status = pos 0; osize = payload_size; start = payload_start })

-- The size of the length field's extension, and of the masking key.
abbrev pub ext_size : ℕ → ℕ
ext_size b = elim (class_of b) [ small ↦ 0 | medium ↦ 2 | large ↦ 8 | invalid ↦ 0 ]

abbrev pub key_size : ℕ → ℕ
key_size b = if b / 128 == 1 then 4 else 0

module _ (len b₀ b₁ : ℕ) (rest : Bytes) (room : 1 < len) (byte : IsByte b₁) where
  pub get_mask_present_lem : get_mask_present len (b₀ ∷ b₁ ∷ rest) ≡ ret (b₁ / 128)
  unfolding get_mask_present
  get_mask_present_lem = ground (arith, bit_and-0x80 b₁ byte)

  pub get_payload_start_lem :
      get_payload_start len (b₀ ∷ b₁ ∷ rest) ≡ ret (pos (2 + key_size b₁ + ext_size b₁))
  unfolding get_payload_start
  get_payload_start_lem =
      rw (get_payload_type_lem len b₀ b₁ rest room byte, get_mask_present_lem) (ground arith)
