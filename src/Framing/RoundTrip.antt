-- ===== src/Framing/RoundTrip.antt =====
-- A masked frame is built as test/framing.c builds one, and opened by the getters.
use libm2handler.Base.{
  ℕ, ◌+◌, ◌^◌, ◌<◌, ◌≡◌, ◌≢◌, refl, sym, arith, Bool, true, ne→==, ◌==◌, if◌then◌else◌, length,
  replicate, length-replicate, Bytes, IsBytes, load, Outcome, ret, ◌>>=◌, ◌>>◌, check, eqb_ℤ, pos,
  Endian, host_bytes, length-host_bytes, host_value-host_bytes, host_bytes-IsBytes,
}
use libm2handler.Framing.Flags.{Flags, flags_of, read_flags, set_fin, set_opcode, get_mask_present}
use libm2handler.Framing.Payload.{set_payload, get_payload, index}
use libm2handler.Framing.Mask.{set_mask, get_mask, unmask}
use libm2handler.Framing.Create.{create, block}
use libm2handler.Framing.Fresh.{frame_size, create_lem}
use libm2handler.Framing.Layout.{
  layout, get_mask_present-layout, get_payload_start-layout, get_payload_size-layout,
}
use libm2handler.Framing.Fields.{
  load-payload, set_payload_lem, read_flags-layout, set_fin-layout, set_opcode-layout, set_mask_lem,
  get_mask_lem,
}
use libm2handler.Framing.Xor.{mask_with, unmask_lem, mask_with_twice, length-mask_with}

-- `test_frame_small_with_mask` for any opcode, payload and key. The size and the frame.
unfoldable pub build_masked : Endian → (ℕ → Bool) → ℕ → Bytes → ℕ → Outcome (ℕ × Bytes)
build_masked e can_alloc opcode payload mask = do
  made ← create e can_alloc true (length payload)
  check (eqb_ℤ made.status (pos 0))
  frame ← block made.buf
  (r₁, frame₁) ← set_fin made.size frame
  (r₂, frame₂) ← set_opcode made.size frame₁ opcode
  (r₃, frame₃) ← set_payload made.size frame₂ (length payload) payload
  (r₄, frame₄) ← set_mask e made.size frame₃ mask
  ret (made.size, frame₄)

-- The flags and the payload, unmasked by the frame's own key if it has one.
unfoldable pub open_frame : Endian → ℕ → Bytes → Outcome (Flags × Bytes)
open_frame e size frame = do
  flags ← read_flags size frame
  slice ← get_payload e size frame
  start ← index slice.start
  payload ← load frame start slice.osize
  present ← get_mask_present size frame
  if present == 1
      then (do
        mask ← get_mask e size frame
        (r, clear) ← unmask e mask slice.osize payload
        ret (flags, clear))
      else ret (flags, payload)

module _ (e : Endian) (can_alloc : ℕ → Bool) (op mask : ℕ) (payload : Bytes)
    (memory : can_alloc (frame_size true (length payload)) ≡ true) (op_fits : op < 16)
    (mask_fits : mask < 2 ^ 32) (small_enough : length payload < 2 ^ 31) where
  abbrev n : ℕ
  n = length payload

  abbrev len : ℕ
  len = frame_size true n

  abbrev key : Bytes
  key = host_bytes e 4 mask

  pub build_masked_lem :
      build_masked e can_alloc op payload mask
      ≡ ret (
        frame_size true n,
        layout e (128 + op) true n key (if n == 65536 then payload else mask_with key 0 payload),
      )
  unfolding build_masked
  build_masked_lem =
      rw (create_lem e can_alloc true n (omega arith), memory)
        (rw (
          set_fin-layout e len 0 n true (replicate 4 0) (replicate n 0) (omega arith) (omega arith),
          set_opcode-layout e len 128 n true (replicate 4 0) (replicate n 0) (omega arith) op
              op_fits (omega arith) (omega arith),
          set_payload_lem e (128 + op) n true (replicate 4 0) refl (replicate n 0) len payload
              (omega arith) (sym (length-replicate n 0)),
          set_mask_lem e len (128 + op) n (replicate 4 0) refl payload (omega arith) mask
              small_enough refl,
        ))

  open_frame-layout :
      (b₀ : ℕ) (hidden : Bytes)
      → b₀ < 256
      → length hidden ≡ n
      → n ≢ 65536
      → open_frame e len (layout e b₀ true n key hidden) ≡ ret (flags_of b₀, mask_with key 0 hidden)
  unfolding open_frame get_payload
  open_frame-layout b₀ hidden byte same exact =
      let small : n < 2 ^ 64 = omega arith in
      rw (
        read_flags-layout e len b₀ n true key hidden (omega arith) byte,
        get_payload_start-layout e len b₀ n true key hidden (omega arith),
        get_payload_size-layout e len b₀ n true key hidden (omega arith) (omega arith),
        ne→== n 65536 exact,
        load-payload e b₀ n true key (length-host_bytes e 4 mask) hidden n (sym same),
        get_mask_present-layout e len b₀ n true key hidden (omega arith),
        get_mask_lem e len b₀ n key (length-host_bytes e 4 mask) hidden (omega arith),
        host_value-host_bytes e 4 mask mask_fits,
        ← same,
        unmask_lem e mask hidden (omega arith),
      )

  -- A masked frame that is built by `create`, `set_fin`, `set_opcode`, `set_payload` and
  -- `set_mask` is opened by the getters and `unmask` to its flags, FIN set, and its payload. The
  -- opcode is below 16, the key below 2^32, the payload is made of bytes, is shorter than 2^31
  -- and is not 65536 bytes long, and the allocation succeeds. It holds for both byte orders.
  pub open_frame-build_masked :
      IsBytes payload
      → n ≢ 65536
      → (build_masked e can_alloc op payload mask >>= λ r. open_frame e r.0 r.1)
        ≡ ret (flags_of (128 + op), payload)
  open_frame-build_masked bytes exact = rw (
    build_masked_lem,
    ne→== n 65536 exact,
    open_frame-layout (128 + op) (mask_with key 0 payload) (omega arith)
        (length-mask_with key 0 payload) exact,
    mask_with_twice key 0 payload (host_bytes-IsBytes e 4 mask) bytes,
  )
