-- ===== src/Framing/Fresh.antt =====
-- What `create` returns, on every branch.
use libm2handler.Base.{
  ℕ, zero, suc, ◌+◌, ◌^◌, ◌≤◌, ◌<◌, ◌≡◌, inl, inr, ◌∙◌, ap, ◌∷◌, ◌++◌, arith, Bool, true, false,
  Bool-cases, ◌==◌, ◌&&◌, not, if◌then◌else◌, bit_or, pos, negsuc, none, some, replicate,
  replicate-add, Bytes, Outcome, ret, aborts, read, write, ◌>>=◌, Endian, assert_in, ltb, lt→ltb,
  refl,
}
use libm2handler.Base.Bits.{bit_or-0x80}
use libm2handler.Framing.Length.{set_payload_size_in}
use libm2handler.Framing.Layout.{
  layout, length_code, length_ext, ext_len, key_len, set_payload_size_in_lem,
}
use libm2handler.Framing.Create.{create, create_in, Created, get_size_necessary}

-- The size of a frame without wrap-around.
abbrev pub frame_size : Bool → ℕ → ℕ
frame_size masked n = 2 + ext_len n + key_len masked + n

pub get_size_necessary_lem :
    (masked : Bool) (n : ℕ) → n + 14 < 2 ^ 64 → get_size_necessary masked n ≡ frame_size masked n
unfolding get_size_necessary
get_size_necessary_lem masked n h = ground arith

-- The zeroed block, cut where the fields will be.
blank :
    (a b c : ℕ)
    → replicate {A = ℕ} (2 + a + b + c) 0
      ≡ 0 ∷ 0 ∷ (replicate a 0 ++ (replicate b 0 ++ replicate c 0))
blank a b c =
    let zeros : ℕ → Bytes = λ k. replicate k 0 in
    let e : 2 + a + b + c ≡ suc (suc (a + (b + c))) = omega arith in
    ap zeros e
    ∙ ap (λ t. 0 ∷ 0 ∷ t) (replicate-add a (b + c) 0 ∙ ap (λ t. zeros a ++ t) (replicate-add b c 0))

module _ (debug : Bool) (e : Endian) (masked : Bool) (n : ℕ) where
  abbrev pub fresh : Bytes
  fresh = layout e 0 masked n (replicate (key_len masked) 0) (replicate n 0)

  set_payload_size-blank :
      assert_in debug (ltb 2 (frame_size masked n)) ≡ ret tt
      → set_payload_size_in debug e (frame_size masked n) (replicate (frame_size masked n) 0) n
        ≡ ret (pos 0, layout e 0 false n (replicate (key_len masked) 0) (replicate n 0))
  unfolding layout
  set_payload_size-blank h =
      rw
        (
          blank (ext_len n) (key_len masked) n,
          set_payload_size_in_lem debug e (frame_size masked n) 0 n
              (replicate (key_len masked) 0 ++ replicate n 0) h,
        )
        (ap
          (λ b.
            ret
              (pos 0, 0 ∷ b ∷ (length_ext e n ++ (replicate (key_len masked) 0 ++ replicate n 0))))
          (omega arith))

  set_payload_size-tiny :
      (frame : Bytes) (len : ℕ) → len ≤ 2 → set_payload_size_in true e len frame n ≡ aborts
  unfolding set_payload_size_in assert_in
  set_payload_size-tiny frame len h = ground arith

  -- The block after the length field is set, with memory given.
  abbrev pub filled_in : Bool → Outcome Created
  filled_in room =
      if room
      then (if debug && (not masked && n == 0)
          then aborts
          else ret (record { status = pos 0; size = frame_size masked n; buf = some (fresh) }))
      else ret (record { status = negsuc 0; size = frame_size masked n; buf = none })

pub assert_holds : (debug b : Bool) → b ≡ true → assert_in debug b ≡ ret tt
unfolding assert_in
assert_holds true b h = rw h refl
assert_holds false b h = refl

-- What `create` returns in a build with or without its assertions.
pub create_in_lem :
    (debug : Bool) (e : Endian) (can_alloc : ℕ → Bool) (masked : Bool) (n : ℕ)
    → n + 14 < 2 ^ 64
    → create_in debug e can_alloc masked n
      ≡ filled_in debug e masked n (can_alloc (frame_size masked n))
unfolding create_in layout
create_in_lem debug e can_alloc masked n h = elim (Bool-cases (can_alloc (frame_size masked n))) [
  | inr no_room ↦ rw (get_size_necessary_lem masked n h, no_room)
  | inl room ↦ rw (get_size_necessary_lem masked n h, room) (rest debug masked n)
]
  where
    rest :
        (debug masked : Bool) (n : ℕ)
        → (set_payload_size_in debug e (frame_size masked n) (replicate (frame_size masked n) 0) n
            >>= λ r.
                ((if masked then (read r.1 1 >>= λ b. write r.1 1 (bit_or b 0x80)) else ret r.1)
                  >>= λ buf.
                      ret (record { status = pos 0; size = frame_size masked n; buf = some buf })))
          ≡ filled_in debug e masked n true
    rest debug true n =
        rw
          (
            set_payload_size-blank debug e true n
                (assert_holds debug _ (lt→ltb 2 (frame_size true n) (omega arith))),
            bit_or-0x80 (length_code n + 0) (ground arith),
          )
          (ground arith)
    rest true false zero =
        rw (set_payload_size-tiny true e false zero (replicate 2 0) 2 (omega arith))
    rest false false zero =
        rw (set_payload_size-blank false e false zero (unfold assert_in in refl))
    rest debug false (suc n) =
        rw
          (set_payload_size-blank debug e false (suc n)
            (assert_holds debug _ (lt→ltb 2 (frame_size false (suc n)) (omega arith))))
          (ground arith)

abbrev pub filled : Endian → Bool → ℕ → Bool → Outcome Created
filled = filled_in true

-- For a payload of fewer than 2^64 - 14 bytes, `create` returns -1 if the allocation fails, fails
-- its assertion if the payload is empty and there is no mask, and otherwise returns 0, the size
-- of the frame, and a frame that is zero but for its length field and its mask bit.
pub create_lem :
    (e : Endian) (can_alloc : ℕ → Bool) (masked : Bool) (n : ℕ)
    → n + 14 < 2 ^ 64
    → create e can_alloc masked n ≡ filled e masked n (can_alloc (frame_size masked n))
create_lem = create_in_lem true
