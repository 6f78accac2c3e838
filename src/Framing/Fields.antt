-- ===== src/Framing/Fields.antt =====
-- Writing and reading the masking key and the payload of a frame laid out by `create`.
use libm2handler.Base.{
  ℕ, ◌+◌, ◌^◌, ◌%◌, ◌<◌, ◌≡◌, refl, [], ◌∷◌, ◌++◌, append_assoc, append-nil, arith, Bool, true,
  false, Bool-cases, inl, inr, ◌==◌, lt→ltb, if◌then◌else◌, pos, negsuc, length, length-append,
  Bytes, store, load, load-append, store-append, ret, Endian, host_bytes, host_value,
  length-host_bytes, pos_part, int_of_u64,
}
use libm2handler.Base.Bits.{zero-bit_or}
use libm2handler.Framing.Flags.{
  flags_of, read_flags, read_flags_lem, set_fin, set_fin_lem, set_opcode, set_opcode_lem,
}
use libm2handler.Framing.Payload.{set_payload}
use libm2handler.Framing.Mask.{get_mask_start, set_mask, get_mask, xor_loop}
use libm2handler.Framing.Layout.{
  layout, length_code, length_ext, length-length_ext, ext_len, key_len, mask_bit,
  get_mask_present-layout, get_payload_type-layout, get_payload_start-layout,
  get_payload_size-layout,
}
use libm2handler.Framing.Xor.{mask_with, xor_loop_lem}

-- What stands before the key, and before the payload.
abbrev head : Endian → ℕ → Bool → ℕ → Bytes
head e b₀ masked n = b₀ ∷ (length_code n + mask_bit masked) ∷ length_ext e n

layout_at_payload :
    (e : Endian) (b₀ n : ℕ) (masked : Bool) (key payload : Bytes)
    → layout e b₀ masked n key payload ≡ (head e b₀ masked n ++ key) ++ (payload ++ [])
unfolding layout
layout_at_payload e b₀ n masked key payload =
    rw (append_assoc (length_ext e n) key (payload ++ []), append-nil payload)

module _ (e : Endian) (b₀ n : ℕ) (masked : Bool) (key : Bytes)
    (key_fits : length key ≡ key_len masked) (payload : Bytes) where
  payload_at : 2 + key_len masked + ext_len n ≡ length (head e b₀ masked n ++ key)
  payload_at = omega (arith, length-append (length_ext e n) key, length-length_ext e n)

  -- The payload is read where `get_payload_start` says.
  pub load-payload :
      (k : ℕ)
      → k ≡ length payload
      → load (layout e b₀ masked n key payload) (2 + key_len masked + ext_len n) k ≡ ret payload
  load-payload k h =
      rw (layout_at_payload e b₀ n masked key payload)
        (load-append (head e b₀ masked n ++ key) payload [] _ payload_at k h)

  pub store-payload :
      (new : Bytes)
      → length new ≡ length payload
      → store (layout e b₀ masked n key payload) (2 + key_len masked + ext_len n) new
        ≡ ret (layout e b₀ masked n key new)
  store-payload new h =
      rw (layout_at_payload e b₀ n masked key payload, layout_at_payload e b₀ n masked key new)
        (store-append (head e b₀ masked n ++ key) payload [] _ payload_at new h)

  -- On a frame of more than one byte, with a key of four bytes or none as its mask bit says,
  -- `set_payload` puts a payload of the old one's length in its place, changes nothing else and
  -- returns 0.
  pub set_payload_lem :
      (len : ℕ) (new : Bytes)
      → 1 < len
      → length new ≡ length payload
      → set_payload len (layout e b₀ masked n key payload) (length new) new
        ≡ ret (pos 0, layout e b₀ masked n key new)
  unfolding set_payload
  set_payload_lem len new room h = rw (
    get_payload_start-layout e len b₀ n masked key payload room,
    (rw (append-nil new) at (load-append [] new [] 0 refl (length new) refl)),
    store-payload new h,
  )

  xor_loop-layout :
      (k : Bytes)
      → length k ≡ 4
      → xor_loop
          (length payload)
          0
          (2 + key_len masked + ext_len n)
          k
          (layout e b₀ masked n key payload)
        ≡ ret (layout e b₀ masked n key (mask_with k 0 payload))
  xor_loop-layout k four =
      rw
        (
          layout_at_payload e b₀ n masked key payload,
          layout_at_payload e b₀ n masked key (mask_with k 0 payload),
        )
        (xor_loop_lem k four _ [] 0 (head e b₀ masked n ++ key) payload (omega (arith, payload_at)))

get_mask_start-layout :
    (e : Endian) (len b₀ n : ℕ) (masked : Bool) (key payload : Bytes)
    → 4 < len
    → get_mask_start len (layout e b₀ masked n key payload)
      ≡ ret (if masked then pos (2 + ext_len n) else negsuc 2)
unfolding get_mask_start
get_mask_start-layout e len b₀ n true key payload h =
    rw
      (
        get_mask_present-layout e len b₀ n true key payload (omega arith),
        get_payload_type-layout e len b₀ n true key payload (omega arith),
      )
      (ground arith)
get_mask_start-layout e len b₀ n false key payload h =
    rw (get_mask_present-layout e len b₀ n false key payload (omega arith)) (ground arith)

module _ (e : Endian) (len b₀ n : ℕ) (key : Bytes) (key_fits : length key ≡ 4) (payload : Bytes)
    (room : 5 < len) where
  key_at : 2 + ext_len n ≡ length (head e b₀ true n)
  key_at = omega (arith, length-length_ext e n)

  store-key :
      (new : Bytes)
      → length new ≡ 4
      → store (layout e b₀ true n key payload) (2 + ext_len n) new
        ≡ ret (layout e b₀ true n new payload)
  unfolding layout
  store-key new h = store-append (head e b₀ true n) key payload _ key_at new (omega arith)

  load-key : load (layout e b₀ true n key payload) (2 + ext_len n) 4 ≡ ret key
  unfolding layout
  load-key = load-append (head e b₀ true n) key payload _ key_at 4 (omega arith)

  -- On a masked frame of more than 5 bytes with a key of four bytes, `get_mask` returns the key,
  -- read in the byte order of the machine.
  pub get_mask_lem : get_mask e len (layout e b₀ true n key payload) ≡ ret (host_value e key)
  unfolding get_mask
  get_mask_lem =
      rw (
        lt→ltb 5 len room,
        get_mask_start-layout e len b₀ n true key payload (omega arith),
        load-key,
      )

  abbrev announced : ℕ
  announced = if n == 65536 then 0 else n

  rounds : n < 2 ^ 31 → pos_part (int_of_u64 announced) ≡ announced
  rounds h = ground arith

  masked_rounds :
      (mask : ℕ)
      → length payload ≡ n
      → xor_loop announced 0
          (6 + ext_len n)
          (host_bytes e 4 mask)
          (layout e b₀ true n (host_bytes e 4 mask) payload)
        ≡ ret (
            layout e b₀ true n
              (host_bytes e 4 mask)
              (if n == 65536 then payload else mask_with (host_bytes e 4 mask) 0 payload))
  masked_rounds mask fits = elim (Bool-cases (n == 65536)) [
    | inl full ↦ rw full (unfold xor_loop in refl)
    | inr other ↦
        rw (other, ← fits)
          (xor_loop-layout e b₀ (length payload) true (host_bytes e 4 mask)
            (length-host_bytes e 4 mask) payload (host_bytes e 4 mask) (length-host_bytes e 4 mask))
  ]

  -- On a masked frame of more than 5 bytes, with a key of four bytes and a payload shorter than
  -- 2^31 bytes and as long as it is announced, `set_mask` stores the key, masks the payload as
  -- RFC 6455 says, and changes nothing else; a payload of 65536 bytes is left in clear.
  pub set_mask_lem :
      (mask : ℕ)
      → n < 2 ^ 31
      → length payload ≡ n
      → set_mask e len (layout e b₀ true n key payload) mask
        ≡ ret (
          pos 0,
          layout e b₀ true n
              (host_bytes e 4 mask)
              (if n == 65536 then payload else mask_with (host_bytes e 4 mask) 0 payload),
        )
  unfolding set_mask
  set_mask_lem mask small_enough fits =
      rw
        (
          lt→ltb 5 len room,
          get_mask_start-layout e len b₀ n true key payload (omega arith),
          store-key (host_bytes e 4 mask) (length-host_bytes e 4 mask),
          get_payload_start-layout e len b₀ n true (host_bytes e 4 mask) payload (omega arith),
          get_payload_size-layout e len b₀ n true (host_bytes e 4 mask) payload (omega arith)
              (omega arith),
        )
        (ground (arith, masked_rounds mask fits, rounds small_enough))

-- The two setters of the first byte, on a frame that has neither the FIN bit nor an opcode.
module _ (e : Endian) (len b₀ n : ℕ) (masked : Bool) (key payload : Bytes) (room : 0 < len) where
  pub read_flags-layout :
      b₀ < 256 → read_flags len (layout e b₀ masked n key payload) ≡ ret (flags_of b₀)
  unfolding layout
  read_flags-layout byte = read_flags_lem len b₀ _ room byte

  pub set_fin-layout :
      b₀ < 128
      → set_fin len (layout e b₀ masked n key payload)
        ≡ ret (pos 0, layout e (128 + b₀) masked n key payload)
  unfolding layout
  set_fin-layout small = rw (set_fin_lem len b₀ _ room (omega arith)) (ground arith)

  pub set_opcode-layout :
      (op : ℕ)
      → op < 16
      → b₀ < 256
      → b₀ % 16 ≡ 0
      → set_opcode len (layout e b₀ masked n key payload) op
        ≡ ret (pos 0, layout e (b₀ + op) masked n key payload)
  unfolding layout
  set_opcode-layout op small byte fresh =
      rw (set_opcode_lem len b₀ _ room byte op (omega arith), fresh, zero-bit_or (op % 16))
        (ground arith)
