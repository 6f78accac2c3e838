-- ===== src/Framing/Checks/Pass.antt =====
-- test/framing.c: that its assertions hold.
use libm2handler.Base.{
  ℕ, ◌+◌, ◌^◌, ◌<◌, ◌≡◌, ◌≢◌, refl, ap, lt→ltb, eq→==, ne→==, [], ◌∷◌, arith, Bool, true, false,
  Option, none, some, pos, length, replicate, length-replicate, Bytes, ret, ◌>>=◌, Endian,
  host_bytes, length-host_bytes, host_value-host_bytes,
}
use libm2handler.Base.Bits.{bit_and-0x80, bit_and-0x40, bit_and-0x0f}
use libm2handler.Framing.Flags.{get_fin, get_rsrvd1, get_opcode}
use libm2handler.Framing.Layout.{
  layout, get_mask_present-layout, get_payload_type-layout, get_payload_size-layout,
}
use libm2handler.Framing.Fields.{set_fin-layout, set_opcode-layout, set_mask_lem, get_mask_lem}
use libm2handler.Framing.Fresh.{frame_size, create_lem}
use libm2handler.Framing.RoundTrip.{build_masked, build_masked_lem}
use libm2handler.Framing.Xor.{mask_with}
use libm2handler.Framing.Checks.{
  same_type, class_for, has_key, key_bit, check_mask, check_frame, build_plain, build_blank,
  framing_main,
}

same_class : (n : ℕ) → same_type (class_for n) (class_for n) ≡ true
unfolding same_type
same_class n = ground arith

module _ (e : Endian) where
  first_getters :
      (op len : ℕ) (rest : Bytes)
      → 0 < len
      → op < 16
      → (get_fin len ((128 + op) ∷ rest) ≡ ret 1)
        × (get_rsrvd1 len ((128 + op) ∷ rest) ≡ ret 0)
        × (get_opcode len ((128 + op) ∷ rest) ≡ ret op)
  unfolding get_fin get_rsrvd1 get_opcode
  first_getters op len rest room small_op =
      let byte : 128 + op < 256 = omega arith in
      (
        rw (lt→ltb 0 len room, bit_and-0x80 (128 + op) byte) (ap ret (omega arith)),
        rw (lt→ltb 0 len room, bit_and-0x40 (128 + op) byte) (ap ret (omega arith)),
        rw (lt→ltb 0 len room, bit_and-0x0f (128 + op) byte) (ap ret (omega arith)),
      )

  -- The assertions hold of every final frame with an opcode of four bits and a size that is
  -- announced as it is, once the one on the key does.
  check_frame-layout :
      (op n len : ℕ) (mask : Option ℕ) (key payload : Bytes)
      → 1 < len
      → op < 16
      → n < 2 ^ 64
      → n ≢ 65536
      → check_mask e mask len (layout e (128 + op) (has_key mask) n key payload) ≡ ret tt
      → check_frame e op mask
          (class_for n)
          n
          (len, layout e (128 + op) (has_key mask) n key payload)
        ≡ ret tt
  unfolding check_frame
  check_frame-layout op n len mask key payload room small_op small_size exact key_checks =
      let (fin_is, rsrvd1_is, opcode_is) : (get_fin len
              (layout e (128 + op) (has_key mask) n key payload)
            ≡ ret 1)
          × (get_rsrvd1 len (layout e (128 + op) (has_key mask) n key payload) ≡ ret 0)
          × (get_opcode len (layout e (128 + op) (has_key mask) n key payload) ≡ ret op) =
        unfold layout in first_getters op len _ (omega arith) small_op in
      rw
        (
          fin_is,
          rsrvd1_is,
          get_mask_present-layout e len (128 + op) n (has_key mask) key payload room,
          eq→== (key_bit mask) (key_bit mask) refl,
          opcode_is,
          eq→== op op refl,
          key_checks,
          get_payload_type-layout e len (128 + op) n (has_key mask) key payload room,
          get_payload_size-layout e len (128 + op) n (has_key mask) key payload room small_size,
          ne→== n 65536 exact,
        )
        (rw (same_class n, eq→== n n refl) refl)

  mask_checks :
      (mask b₀ n len : ℕ) (payload : Bytes)
      → mask < 2 ^ 32
      → 5 < len
      → check_mask e (some mask) len (layout e b₀ true n (host_bytes e 4 mask) payload) ≡ ret tt
  unfolding check_mask
  mask_checks mask b₀ n len payload small_mask room = rw (
    get_mask_lem e len b₀ n (host_bytes e 4 mask) (length-host_bytes e 4 mask) payload room,
    host_value-host_bytes e 4 mask small_mask,
    eq→== mask mask refl,
  )

module _ (e : Endian) (can_alloc : ℕ → Bool) where
  module _ (memory : (n : ℕ) → can_alloc n ≡ true) (op n : ℕ) (small_op : op < 16)
      (small_size : n < 2 ^ 31) where
    build_plain_lem :
        0 < n
        → build_plain e can_alloc op n
          ≡ ret (frame_size false n, layout e (128 + op) false n [] (replicate n 0))
    unfolding build_plain
    build_plain_lem filled =
        rw
          (
            create_lem e can_alloc false n (omega arith),
            memory,
            ne→== n 0 (omega arith),
            set_fin-layout e (frame_size false n) 0 n false [] (replicate n 0) (omega arith)
                (omega arith),
            set_opcode-layout e (frame_size false n) 128 n false [] (replicate n 0) (omega arith) op
                small_op (omega arith) (omega arith),
          )
          refl

    build_blank_lem :
        (mask : ℕ)
        → n ≢ 65536
        → build_blank e can_alloc op n mask
          ≡ ret (
            frame_size true n,
            layout e
                (128 + op)
                true
                n
                (host_bytes e 4 mask)
                (mask_with (host_bytes e 4 mask) 0 (replicate n 0)),
          )
    unfolding build_blank
    build_blank_lem mask exact =
        rw
          (
            create_lem e can_alloc true n (omega arith),
            memory,
            set_fin-layout e (frame_size true n) 0 n true (replicate 4 0) (replicate n 0)
                (omega arith) (omega arith),
            set_opcode-layout e (frame_size true n) 128 n true (replicate 4 0) (replicate n 0)
                (omega arith) op small_op (omega arith) (omega arith),
            set_mask_lem e (frame_size true n) (128 + op) n (replicate 4 0) refl (replicate n 0)
                (omega arith) mask small_size (length-replicate n 0),
            ne→== n 65536 exact,
          )
          refl

  module _ (memory : (n : ℕ) → can_alloc n ≡ true) where
    plain_checks :
        (op n : ℕ)
        → op < 16
        → 0 < n
        → n < 2 ^ 31
        → n ≢ 65536
        → (build_plain e can_alloc op n >>= check_frame e op none (class_for n) n) ≡ ret tt
    plain_checks op n small_op filled small_size exact =
        rw (build_plain_lem memory op n small_op small_size filled) (
          check_frame-layout e op n (frame_size false n) none [] (replicate n 0) (omega arith)
            small_op (omega arith) exact (unfold check_mask in refl))

    blank_checks :
        (op n mask : ℕ)
        → op < 16
        → n < 2 ^ 31
        → n ≢ 65536
        → mask < 2 ^ 32
        → (build_blank e can_alloc op n mask >>= check_frame e op (some mask) (class_for n) n)
          ≡ ret tt
    blank_checks op n mask small_op small_size exact small_mask =
        rw (build_blank_lem memory op n small_op small_size mask exact) (
          check_frame-layout e op n (frame_size true n) (some mask) (host_bytes e 4 mask)
            (mask_with (host_bytes e 4 mask) 0 (replicate n 0)) (omega arith) small_op (omega arith)
            exact (mask_checks e mask (128 + op) n (frame_size true n) _ small_mask (omega arith)))

    masked_checks :
        (op mask : ℕ) (payload : Bytes)
        → op < 16
        → length payload < 2 ^ 31
        → length payload ≢ 65536
        → mask < 2 ^ 32
        → (build_masked e can_alloc op payload mask
            >>= check_frame e op (some mask) (class_for (length payload)) (length payload))
          ≡ ret tt
    masked_checks op mask payload small_op small_size exact small_mask =
        rw
          (
            build_masked_lem e can_alloc op mask payload (memory (frame_size true (length payload)))
                small_op small_mask small_size,
            ne→== (length payload) 65536 exact,
          )
          (check_frame-layout e op (length payload) (frame_size true (length payload)) (some mask)
            (host_bytes e 4 mask) (mask_with (host_bytes e 4 mask) 0 payload) (omega arith) small_op
            (omega arith) exact
            (mask_checks e mask (128 + op) (length payload) (frame_size true (length payload)) _
              small_mask (omega arith)))

    -- `main` returns 0: all assertions hold, for both byte orders, if the allocations succeed.
    framing_main_lem : framing_main e can_alloc ≡ ret (pos 0)
    unfolding framing_main
    framing_main_lem = rw (
      plain_checks 1 111 (omega arith) (omega arith) (omega arith) (omega arith),
      plain_checks 2 2000 (omega arith) (omega arith) (omega arith) (omega arith),
      plain_checks 1 66000 (omega arith) (omega arith) (omega arith) (omega arith),
      masked_checks 1 0xFFEEAADD (0xFF ∷ 0xEE ∷ 0xAA ∷ 0xDD ∷ []) (omega arith) (omega arith)
          (omega arith) (omega arith),
      blank_checks 2 2244 0xFFFFFFFF (omega arith) (omega arith) (omega arith) (omega arith),
    )
