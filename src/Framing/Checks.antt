-- ===== src/Framing/Checks.antt =====
-- test/framing.c: five frames, and what is asserted of each. The memory is not freed.
mod Pass
use libm2handler.Base.{
  ℕ, ◌+◌, ◌^◌, ◌<◌, ◌≡◌, ◌≢◌, refl, ap, leb, lt→ltb, eq→==, ne→==, [], ◌∷◌, arith, Bool, true,
  false, Option, none, some, ◌==◌, eqb_ℤ, pos, ℤ, length, replicate, length-replicate, Bytes,
  Outcome, ret, ◌>>=◌, ◌>>◌, check, Endian, host_bytes, if◌then◌else◌, length-host_bytes,
  host_value-host_bytes,
}
use libm2handler.Base.Bits.{bit_and-0x80, bit_and-0x40, bit_and-0x0f}
use libm2handler.Framing.Flags.{
  op_text, op_bin, get_fin, get_rsrvd1, get_opcode, set_fin, set_opcode, get_mask_present,
}
use libm2handler.Framing.Length.{Ftype, small, medium, large, get_payload_type, get_payload_size}
use libm2handler.Framing.Mask.{set_mask, get_mask}
use libm2handler.Framing.Layout.{
  layout, get_mask_present-layout, get_payload_type-layout, get_payload_size-layout,
}
use libm2handler.Framing.Fields.{set_fin-layout, set_opcode-layout, set_mask_lem, get_mask_lem}
use libm2handler.Framing.Create.{create, block}
use libm2handler.Framing.Fresh.{frame_size, create_lem}
use libm2handler.Framing.RoundTrip.{build_masked, build_masked_lem}
use libm2handler.Framing.Xor.{mask_with}

unfoldable pub same_type : Ftype → Ftype → Bool
same_type small small = true
same_type medium medium = true
same_type large large = true
same_type _ _ = false

-- The class of a payload of `n` bytes.
abbrev pub class_for : ℕ → Ftype
class_for n = if leb n 125 then small else if leb n 65536 then medium else large

abbrev pub has_key : Option ℕ → Bool
has_key none = false
has_key (some mask) = true

abbrev pub key_bit : Option ℕ → ℕ
key_bit mask = if has_key mask then 1 else 0

module _ (e : Endian) where
  -- The assertion on the key, where there is one.
  unfoldable pub check_mask : Option ℕ → ℕ → Bytes → Outcome (Unit {0})
  check_mask none size frame = ret tt
  check_mask (some mask) size frame = do k ← get_mask e size frame; check (k == mask)

  -- The assertions on one frame. The first reserved bit is asserted three times.
  unfoldable pub check_frame : ℕ → Option ℕ → Ftype → ℕ → ℕ × Bytes → Outcome (Unit {0})
  unfolding check_mask same_type
  check_frame opcode mask type n (size, frame) = do
    f ← get_fin size frame
    check (f == 1)
    r₁ ← get_rsrvd1 size frame
    check (r₁ == 0)
    r₂ ← get_rsrvd1 size frame
    check (r₂ == 0)
    r₃ ← get_rsrvd1 size frame
    check (r₃ == 0)
    m ← get_mask_present size frame
    check (m == key_bit mask)
    o ← get_opcode size frame
    check (o == opcode)
    check_mask mask size frame
    t ← get_payload_type size frame
    check (same_type t type)
    s ← get_payload_size e size frame
    check (s == n)

module _ (e : Endian) (can_alloc : ℕ → Bool) where
  -- `test_frame_small_no_mask`, `test_frame_medium_no_mask` and `test_frame_large_no_mask`, for
  -- any opcode and payload size.
  unfoldable pub build_plain : ℕ → ℕ → Outcome (ℕ × Bytes)
  build_plain opcode n = do
    made ← create e can_alloc false n
    check (eqb_ℤ made.status (pos 0))
    frame ← block made.buf
    (r₁, frame₁) ← set_fin made.size frame
    (r₂, frame₂) ← set_opcode made.size frame₁ opcode
    ret (made.size, frame₂)

  -- `test_frame_medium_with_mask`, for any opcode, payload size and key.
  unfoldable pub build_blank : ℕ → ℕ → ℕ → Outcome (ℕ × Bytes)
  build_blank opcode n mask = do
    made ← create e can_alloc true n
    check (eqb_ℤ made.status (pos 0))
    frame ← block made.buf
    (r₁, frame₁) ← set_fin made.size frame
    (r₂, frame₂) ← set_opcode made.size frame₁ opcode
    (r₃, frame₃) ← set_mask e made.size frame₂ mask
    ret (made.size, frame₃)

  abbrev test_frame_small_no_mask : Outcome (ℕ × Bytes)
  test_frame_small_no_mask = build_plain op_text 111

  abbrev test_frame_small_with_mask : Outcome (ℕ × Bytes)
  test_frame_small_with_mask =
      build_masked e can_alloc op_text (0xFF ∷ 0xEE ∷ 0xAA ∷ 0xDD ∷ []) 0xFFEEAADD

  abbrev test_frame_medium_no_mask : Outcome (ℕ × Bytes)
  test_frame_medium_no_mask = build_plain op_bin 2000

  abbrev test_frame_medium_with_mask : Outcome (ℕ × Bytes)
  test_frame_medium_with_mask = build_blank op_bin 2244 0xFFFFFFFF

  abbrev test_frame_large_no_mask : Outcome (ℕ × Bytes)
  test_frame_large_no_mask = build_plain op_text 66000

  -- `main`
  unfoldable pub framing_main : Outcome ℤ
  framing_main = do
    test_frame_small_no_mask >>= check_frame e op_text none small 111
    test_frame_medium_no_mask >>= check_frame e op_bin none medium 2000
    test_frame_large_no_mask >>= check_frame e op_text none large 66000
    test_frame_small_with_mask >>= check_frame e op_text (some 0xFFEEAADD) small 4
    test_frame_medium_with_mask >>= check_frame e op_bin (some 0xFFFFFFFF) medium 2244
    ret (pos 0)
