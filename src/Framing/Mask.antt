-- ===== src/Framing/Mask.antt =====
-- Masking: src/websocket_framing.c, lines 175 to 248. The printing to `stdout` is left out.
use libm2handler.Base.{
  ℕ, zero, suc, ◌+◌, ◌%◌, ltb, ◌==◌, not, if◌then◌else◌, bit_xor, ℤ, pos, negsuc, ◌+ℤ◌, ltb_ℤ,
  int_of_u64, pos_part, Bytes, read, write, load, store, Outcome, ret, faults, ◌^◌, ◌>>=◌, ◌>>◌,
  check, Endian, host_bytes, host_value,
}
use libm2handler.Framing.Flags.{get_mask_present}
use libm2handler.Framing.Length.{
  Ftype, small, medium, large, invalid, get_payload_type, get_payload_size,
}
use libm2handler.Framing.Payload.{get_payload_start, index}

-- The tests after the guards.
unfoldable pub mask_offset : Ftype → ℤ
unfolding ◌+ℤ◌
mask_offset small = pos 2
mask_offset medium = pos 2 +ℤ pos 2
mask_offset large = pos 2 +ℤ pos 8
mask_offset invalid = negsuc 0

unfoldable pub get_mask_start : ℕ → Bytes → Outcome ℤ
unfolding mask_offset
get_mask_start size frame = if ltb size 5 then ret (negsuc 1) else (do
  present ← get_mask_present size frame
  if not (present == 1)
      then ret (negsuc 2)
      else (do size_class ← get_payload_type size frame; ret (mask_offset size_class)))

-- `for(i; left rounds; i++) block[start+i] = block[start+i] ^ mask_i[i%4];`
unfoldable pub xor_loop : ℕ → ℕ → ℕ → Bytes → Bytes → Outcome Bytes
xor_loop zero i start mask_i block = ret block
xor_loop (suc left) i start mask_i block = do
  x ← read block (start + i)
  m ← read mask_i (i % 4)
  block' ← write block (start + i) (bit_xor x m)
  xor_loop left (i + 1) start mask_i block'

unfoldable pub set_mask : Endian → ℕ → Bytes → ℕ → Outcome (ℤ × Bytes)
set_mask e size frame mask = do
  check (ltb 5 size)
  mask_start ← get_mask_start size frame
  if ltb_ℤ mask_start (pos 0) then ret (negsuc 0, frame) else (do
    k ← index mask_start
    frame' ← store frame k (host_bytes e 4 mask)
    payload_start ← get_payload_start size frame'
    payload_size ← get_payload_size e size frame'
    p ← index payload_start
    frame'' ← xor_loop (pos_part (int_of_u64 payload_size)) 0 p (host_bytes e 4 mask) frame'
    ret (pos 0, frame''))

unfoldable pub get_mask : Endian → ℕ → Bytes → Outcome ℕ
get_mask e size frame = do
  check (ltb 5 size)
  mask_start ← get_mask_start size frame
  k ← index mask_start
  bs ← load frame k 4
  ret (host_value e bs)

-- The counter is an `int`, whose last increment overflows for a size of 2^31 or more.
unfoldable pub unmask : Endian → ℕ → ℕ → Bytes → Outcome (ℤ × Bytes)
unfolding xor_loop
unmask e mask size frame =
    if not (ltb size (2 ^ 31))
    then faults
    else (do frame' ← xor_loop size 0 0 (host_bytes e 4 mask) frame; ret (pos 0, frame'))
