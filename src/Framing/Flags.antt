-- ===== src/Framing/Flags.antt =====
-- The control flags in the first two bytes of a frame: src/websocket_framing.c, lines 16 to 56 and
-- 170 to 173. `len` is the size that the caller passes beside the pointer.
use libm2handler.Base.{
  ℕ, ◌+◌, ◌*◌, ◌/◌, ◌%◌, ◌^◌, ◌<◌, ◌≡◌, ◌∷◌, arith, ltb, lt→ltb, ◌==◌, bit_and, bit_or, ℤ, pos,
  Bytes, IsByte, read, write, Outcome, ret, ◌>>=◌, ◌>>◌, check,
}
use libm2handler.Base.Bits.{
  bit_and-0x0f, bit_and-0x10, bit_and-0x20, bit_and-0x40, bit_and-0x80, bit_or-0x80, bit_or_low,
  low_four-bit_and,
}

-- `enum fflag_t`
abbrev pub fin : ℕ
fin = 1

abbrev pub op_cont : ℕ
op_cont = 0

abbrev pub op_text : ℕ
op_text = 1

abbrev pub op_bin : ℕ
op_bin = 2

abbrev pub op_close : ℕ
op_close = 8

abbrev pub op_ping : ℕ
op_ping = 9

abbrev pub op_pong : ℕ
op_pong = 10

abbrev pub mask_flag : ℕ
mask_flag = 0x80

unfoldable pub set_fin : ℕ → Bytes → Outcome (ℤ × Bytes)
set_fin len frame = do
  check (ltb 0 len)
  check (fin == 0x01)
  b ← read frame 0
  frame' ← write frame 0 (bit_or b (0x01 * 2 ^ 7))
  ret (pos 0, frame')

unfoldable pub get_fin : ℕ → Bytes → Outcome ℕ
get_fin len frame = do check (ltb 0 len); b ← read frame 0; ret (bit_and b 0x80 / 2 ^ 7)

unfoldable pub get_rsrvd1 : ℕ → Bytes → Outcome ℕ
get_rsrvd1 len frame = do check (ltb 0 len); b ← read frame 0; ret (bit_and b 0x40 / 2 ^ 6)

unfoldable pub get_rsrvd2 : ℕ → Bytes → Outcome ℕ
get_rsrvd2 len frame = do check (ltb 0 len); b ← read frame 0; ret (bit_and b 0x20 / 2 ^ 5)

unfoldable pub get_rsrvd3 : ℕ → Bytes → Outcome ℕ
get_rsrvd3 len frame = do check (ltb 0 len); b ← read frame 0; ret (bit_and b 0x10 / 2 ^ 4)

unfoldable pub get_opcode : ℕ → Bytes → Outcome ℕ
get_opcode len frame = do check (ltb 0 len); b ← read frame 0; ret (bit_and b 0x0F)

unfoldable pub set_opcode : ℕ → Bytes → ℕ → Outcome (ℤ × Bytes)
set_opcode len frame opcode = do
  check (ltb 0 len)
  b ← read frame 0
  frame' ← write frame 0 (bit_or b (bit_and 0x0F opcode))
  ret (pos 0, frame')

unfoldable pub get_mask_present : ℕ → Bytes → Outcome ℕ
get_mask_present len frame = do
  check (ltb 1 len)
  b ← read frame 1
  ret (bit_and b mask_flag / 2 ^ 7)

-- What the five getters of the first byte answer together.
pub record Flags : Type 0 where
  pub fin_bit : ℕ
  pub rsrvd1 : ℕ
  pub rsrvd2 : ℕ
  pub rsrvd3 : ℕ
  pub opcode : ℕ

unfoldable pub read_flags : ℕ → Bytes → Outcome Flags
unfolding get_fin get_rsrvd1 get_rsrvd2 get_rsrvd3 get_opcode
read_flags len frame = do
  f ← get_fin len frame
  r1 ← get_rsrvd1 len frame
  r2 ← get_rsrvd2 len frame
  r3 ← get_rsrvd3 len frame
  o ← get_opcode len frame
  ret (record { fin_bit = f; rsrvd1 = r1; rsrvd2 = r2; rsrvd3 = r3; opcode = o })

-- The fields of the first byte as RFC 6455 draws them, the highest bit first.
abbrev pub flags_of : ℕ → Flags
flags_of b = record {
  fin_bit = b / 128;
  rsrvd1 = b / 64 % 2;
  rsrvd2 = b / 32 % 2;
  rsrvd3 = b / 16 % 2;
  opcode = b % 16;
}

module _ (len b : ℕ) (rest : Bytes) (some_room : 0 < len) (byte : IsByte b) where
  pub read_flags_lem : read_flags len (b ∷ rest) ≡ ret (flags_of b)
  unfolding read_flags
  read_flags_lem = ground (
    arith,
    bit_and-0x80 b byte,
    bit_and-0x40 b byte,
    bit_and-0x20 b byte,
    bit_and-0x10 b byte,
    bit_and-0x0f b byte,
  )

  pub set_fin_lem : set_fin len (b ∷ rest) ≡ ret (pos 0, (b % 128 + 128) ∷ rest)
  unfolding set_fin
  set_fin_lem = ground (arith, bit_or-0x80 b byte)

  pub set_opcode_lem :
      (op : ℕ)
      → op < 256
      → set_opcode len (b ∷ rest) op ≡ ret (pos 0, (b / 16 * 16 + bit_or (b % 16) (op % 16)) ∷ rest)
  unfolding set_opcode
  set_opcode_lem op h =
      rw (
        low_four-bit_and op h,
        (bit_or_low b (op % 16) byte (omega arith)).0,
        lt→ltb 0 len some_room,
      )

-- What `set_fin` and `set_opcode` do to the flags.
module _ (len b : ℕ) (rest : Bytes) (some_room : 0 < len) (byte : IsByte b) where
  -- In a frame that is not empty, whose first entry is a byte, `set_fin` sets the FIN bit and
  -- changes no other flag that the getters read.
  pub read_flags-set_fin :
      (set_fin len (b ∷ rest) >>= λ r. read_flags len r.1)
      ≡ ret (record (flags_of b) { fin_bit = 1 })
  read_flags-set_fin =
      rw
        (
          set_fin_lem len b rest some_room byte,
          read_flags_lem len (b % 128 + 128) rest some_room (omega arith),
        )
        (ground arith)

  -- In a frame that is not empty, whose first entry is a byte, `set_opcode` with an opcode below
  -- 256 leaves the other flags that the getters read, and merges the low four bits of the opcode
  -- into the old opcode by "or".
  pub read_flags-set_opcode :
      (op : ℕ)
      → op < 256
      → (set_opcode len (b ∷ rest) op >>= λ r. read_flags len r.1)
        ≡ ret (record (flags_of b) { opcode = bit_or (b % 16) (op % 16) })
  read_flags-set_opcode op h =
      let low = (bit_or_low b (op % 16) byte (omega arith)).1 in
      rw
        (
          set_opcode_lem len b rest some_room byte op h,
          read_flags_lem len (b / 16 * 16 + bit_or (b % 16) (op % 16)) rest some_room (omega arith),
        )
        (ground arith)
