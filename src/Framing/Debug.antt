-- ===== src/Framing/Debug.antt =====
-- `mongrel2_ws_frame_debug`: src/debug.c, lines 67 to 149. What is printed is left out; that it
-- reads the frame is kept. A `%*s` without a precision reads its string up to a NUL byte.
use libm2handler.Base.{
  ℕ, ◌+◌, ◌^◌, ◌<◌, ◌≡◌, ◌≢◌, refl, [], ◌∷◌, arith, Bool, false, Bool-cases, inl, inr, ◌||◌, ◌&&◌,
  ltb, lt→ltb, ◌==◌, ne→==, if◌then◌else◌, length, drop, drop-length-append, Bytes, load, Outcome,
  ret, aborts, faults, blocks, exits, ◌>>=◌, Endian,
}
use libm2handler.Framing.Flags.{read_flags, get_mask_present}
use libm2handler.Framing.Length.{get_payload_type, get_payload_size}
use libm2handler.Framing.Payload.{get_payload, index}
use libm2handler.Framing.Mask.{get_mask, unmask}
use libm2handler.Framing.Layout.{
  layout, length_code, length_ext, length-length_ext, ext_len, mask_bit, get_mask_present-layout,
  get_payload_type-layout, get_payload_start-layout, get_payload_size-layout,
}
use libm2handler.Framing.Fields.{read_flags-layout}

-- The string that starts a block.
unfoldable pub read_text : Bytes → Outcome Bytes
read_text [] = faults
read_text (c ∷ cs) =
    let rest = read_text cs in if c == 0 then ret [] else (do t ← rest; ret (c ∷ t))

-- The copy of the payload and its unmasking.
print_unmasked : Endian → (ℕ → Bool) → ℕ → ℕ → ℕ → Bytes → Outcome (Unit {0})
print_unmasked e can_alloc mask start size header =
    if can_alloc size
    then (do unmasked ← load header start size; (r, clear) ← unmask e mask size unmasked; ret tt)
    else faults

unfoldable pub frame_debug : Endian → (ℕ → Bool) → ℕ → Bytes → Outcome (Unit {0})
unfolding print_unmasked
frame_debug e can_alloc len header = do
  flags ← read_flags len header
  maskp ← get_mask_present len header
  msg_type ← get_payload_type len header
  mask ← if maskp == 1 then get_mask e len header else ret 0
  msg_size ← get_payload_size e len header
  payload ← get_payload e len header
  start ← index payload.start
  if ltb 0 payload.osize && ltb payload.osize 60
      then (do
        text ← read_text (drop start header)
        if maskp == 1 then print_unmasked e can_alloc mask start payload.osize header else ret tt)
      else if ltb 0 payload.osize
      then (do text ← read_text (drop start header); ret tt)
      else ret tt

abbrev pub has_nul : Bytes → Bool
has_nul [] = false
has_nul (c ∷ cs) = c == 0 || has_nul cs

-- The text is printed and dropped.
abbrev printed : Outcome Bytes → Outcome (Unit {0})
printed o = o >>= λ t. ret tt

-- A run goes on after a text exactly if there is a NUL byte.
read_text_lem : (cs : Bytes) → printed (read_text cs) ≡ (if has_nul cs then ret tt else faults)
unfolding read_text
read_text_lem [] = refl
read_text_lem (c ∷ cs) = elim (Bool-cases (c == 0)) [
  | inl nul ↦ rw nul
  | inr other ↦ rw (other, bind_again (read_text cs) c) (read_text_lem cs)
]
  where
    bind_again : (o : Outcome Bytes) (c : ℕ) → printed (o >>= λ t. ret (c ∷ t)) ≡ printed o
    bind_again (ret t) c = refl
    bind_again aborts c = refl
    bind_again faults c = refl
    bind_again blocks c = refl
    bind_again exits c = refl

module _ (e : Endian) (can_alloc : ℕ → Bool) (len b₀ : ℕ) (payload : Bytes) (room : 1 < len)
    (byte : b₀ < 256) (small : length payload < 2 ^ 64) where
  abbrev n : ℕ
  n = length payload

  drop-payload : (k : ℕ) → k ≡ 2 + ext_len n → drop k (layout e b₀ false n [] payload) ≡ payload
  unfolding layout
  drop-payload k h =
      let head : Bytes = b₀ ∷ (length_code n + mask_bit false) ∷ length_ext e n in
      let at : k ≡ length head = omega (arith, length-length_ext e n) in
      rw at (drop-length-append head payload)

  -- On a frame without a mask, of a size above 1, whose first entry is a byte and whose payload
  -- is not empty, not 65536 bytes long and shorter than 2^64, `frame_debug` returns if the
  -- payload holds a NUL byte; otherwise it reads beyond the end of the frame, which is undefined.
  pub frame_debug_lem :
      0 < n
      → n ≢ 65536
      → frame_debug e can_alloc len (layout e b₀ false n [] payload)
        ≡ (if has_nul payload then ret tt else faults)
  unfolding frame_debug get_payload
  frame_debug_lem some_there exact = elim (Bool-cases (ltb n 60)) [
    | inl short ↦ rw (
      read_flags-layout e len b₀ n false [] payload room' byte,
      get_mask_present-layout e len b₀ n false [] payload room,
      get_payload_type-layout e len b₀ n false [] payload room,
      get_payload_start-layout e len b₀ n false [] payload room,
      get_payload_size-layout e len b₀ n false [] payload room small,
      ne→== n 65536 exact,
      lt→ltb 0 n some_there,
      short,
      drop-payload (2 + 0 + ext_len n) (omega arith),
      read_text_lem payload,
    )
    | inr long ↦ rw (
      read_flags-layout e len b₀ n false [] payload room' byte,
      get_mask_present-layout e len b₀ n false [] payload room,
      get_payload_type-layout e len b₀ n false [] payload room,
      get_payload_start-layout e len b₀ n false [] payload room,
      get_payload_size-layout e len b₀ n false [] payload room small,
      ne→== n 65536 exact,
      lt→ltb 0 n some_there,
      long,
      drop-payload (2 + 0 + ext_len n) (omega arith),
      read_text_lem payload,
    )
  ]
    where
      room' : 0 < len
      room' = omega arith
