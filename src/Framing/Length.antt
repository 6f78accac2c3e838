-- ===== src/Framing/Length.antt =====
-- The payload length of a frame: src/websocket_framing.c, lines 62 to 117. `htons` with a store or a
-- load of a `uint16_t` is network order on every machine; the eight bytes of a LARGE length are
-- copied in the order of the machine, `e`.
use libm2handler.Base.{
  ℕ, ◌+◌, ◌*◌, ◌/◌, ◌%◌, ◌^◌, ◌<◌, ◌≡◌, [], ◌∷◌, ◌&&◌, arith, ltb, leb, ◌==◌, if◌then◌else◌,
  bit_and, bit_or, ℤ, pos, negsuc, Bytes, IsByte, read, write, load, store, Outcome, Bool, true,
  ret, faults, ◌>>=◌, ◌>>◌, check, assert_in, Endian, host_bytes, host_value,
}
use libm2handler.Base.Bits.{bit_and-0x7f}

-- `enum ftype_t`; `invalid` is the -1 of `get_payload_type`.
pub data Ftype : Type 0 where
  small medium large invalid : Ftype

unfoldable pub get_payload_type : ℕ → Bytes → Outcome Ftype
get_payload_type len frame = do
  check (ltb 1 len)
  b ← read frame 1
  let type = bit_and b 0x7F
  ret (
      if leb type 125
      then small
      else if type == 126
      then medium
      else if type == 127
      then large
      else invalid)

-- The bytes of a `uint16_t` in network order, and back.
unfoldable pub net16_bytes : ℕ → Bytes
net16_bytes x = x / 256 % 256 ∷ x % 256 ∷ []

unfoldable pub net16_value : Bytes → Outcome ℕ
net16_value (hi ∷ lo ∷ []) = ret (hi * 256 + lo)
net16_value _ = faults

-- `debug` is whether the build has its assertions.
unfoldable pub set_payload_size_in : Bool → Endian → ℕ → Bytes → ℕ → Outcome (ℤ × Bytes)
unfolding net16_bytes
set_payload_size_in debug e len frame size = do
  assert_in debug (ltb 2 len)
  if leb size 125
      then (do
        b ← read frame 1
        frame' ← write frame 1 (bit_or b (bit_and size 0x7F))
        ret (pos 0, frame'))
      else if leb 126 size && leb size 65536
      then (do
        b ← read frame 1
        frame' ← write frame 1 (bit_or b (bit_and 126 0x7F))
        frame'' ← store frame' 2 (net16_bytes (size % 2 ^ 16))
        ret (pos 0, frame''))
      else if leb 65537 size
      then (do
        b ← read frame 1
        frame' ← write frame 1 (bit_or b (bit_and 127 0x7F))
        frame'' ← store frame' 2 (host_bytes e 8 size)
        ret (pos 0, frame''))
      else ret (negsuc 0, frame)

abbrev pub set_payload_size : Endian → ℕ → Bytes → ℕ → Outcome (ℤ × Bytes)
set_payload_size = set_payload_size_in true

unfoldable pub get_payload_size : Endian → ℕ → Bytes → Outcome ℕ
unfolding get_payload_type net16_value
get_payload_size e len frame = do
  type ← get_payload_type len frame
  elim type [
    | small ↦ (do b ← read frame 1; ret (bit_and b 0x7F))
    | medium ↦ (do bs ← load frame 2 2; net16_value bs)
    | large ↦ (do bs ← load frame 2 8; ret (host_value e bs))
    | invalid ↦ ret 0
  ]

-- The class of a second byte, by its low seven bits.
abbrev pub class_of : ℕ → Ftype
class_of b = if leb (b % 128) 125 then small else if b % 128 == 126 then medium else large

-- The last branch of `get_payload_type`, which complains and returns -1, is never taken.
pub get_payload_type_lem :
    (len b₀ b₁ : ℕ) (rest : Bytes)
    → 1 < len
    → IsByte b₁
    → get_payload_type len (b₀ ∷ b₁ ∷ rest) ≡ ret (class_of b₁)
unfolding get_payload_type
get_payload_type_lem len b₀ b₁ rest h byte = rw (bit_and-0x7f b₁ byte) (ground arith)
