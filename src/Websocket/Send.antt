-- ===== src/Websocket/Send.antt =====
-- `mongrel2_ws_reply`: src/websocket.c, lines 44 to 87. `dump` is whether the build
-- has the frame dump of debug builds.
use libm2handler.Base.{
  ℕ, ◌+◌, ◌^◌, ◌<◌, ◌≡◌, ◌≢◌, ne→==, ◌<◌, true, faults, refl, sym, [], ◌∷◌, ◌++◌, Bool, false,
  Bool-cases, inl, inr, replicate, not, ◌==◌, eq→==, arith, if◌then◌else◌, some, ℤ, pos, negsuc,
  eqb_ℤ, int_of_u64, int_of_u64-pos, length, length-replicate, Bytes, Outcome, ret, aborts, ◌>>=◌,
  ◌>>◌, assert_in, ◌&&◌, Endian, decimal,
}
use libm2handler.Extern.{Bstring, Bstrlib, IsLawful, blength}
use libm2handler.Framing.Flags.{op_text, set_fin, set_opcode}
use libm2handler.Framing.Payload.{set_payload}
use libm2handler.Framing.Create.{create_in, block}
use libm2handler.Framing.Layout.{layout, length-layout}
use libm2handler.Framing.Fields.{set_payload_lem, set_fin-layout, set_opcode-layout}
use libm2handler.Framing.Debug.{frame_debug, frame_debug_lem, has_nul}
use libm2handler.Framing.Fresh.{frame_size, create_in_lem, assert_holds}
use libm2handler.Handler.Request.{Request}
use libm2handler.Handler.Reply.{Sent, contents, reply, reply_lem, Addressed, print_response}

-- The frame dump, if the build has it. A build without NDEBUG has both the dump and the assertions
-- of `create` and `ws_reply`; a build with NDEBUG has neither. The assertions of the setters hold of
-- every frame that `create` gives, whose size is above 1, and stay in both.
unfoldable pub run_dump : Endian → (ℕ → Bool) → Bool → ℕ → Bytes → Outcome (Unit {0})
run_dump e can_alloc dump size frame = if dump then frame_debug e can_alloc size frame else ret tt

module _ (e : Endian) (can_alloc : ℕ → Bool) (dump : Bool) (B : Bstrlib) {J : Type 0} where
  unfoldable pub ws_reply : Sent → Request J → Bstring → Outcome (ℤ × Sent)
  ws_reply sent req message = do
    let req_len = blength message
    made ← create_in dump e can_alloc false req_len
    if not (eqb_ℤ made.status (pos 0)) then ret (negsuc 0, sent) else (do
      payload_data ← block made.buf
      (r₁, frame₁) ← set_payload made.size payload_data req_len (contents message)
      (r₂, frame₂) ← set_opcode made.size frame₁ op_text
      (r₃, frame₃) ← set_fin made.size frame₂
      run_dump e can_alloc dump made.size frame₃
      let outgoing = B.blk2bstr frame₃ (int_of_u64 made.size)
      assert_in dump (blength outgoing == made.size)
      let (r₄, sent') = reply B sent req outgoing
      ret (pos 0, sent'))

-- A final text frame without a mask.
abbrev pub text_frame : Endian → Bytes → Bytes
text_frame e payload = layout e 129 false (length payload) [] payload

length-text_frame :
    (e : Endian) (payload : Bytes)
    → length (text_frame e payload) ≡ frame_size false (length payload)
length-text_frame e payload = omega (arith, length-layout e 129 (length payload) false [] payload)

module _ (e : Endian) (can_alloc : ℕ → Bool) (B : Bstrlib) (L : IsLawful B) {J : Type 0}
    (req : Request J) (uuid : Bytes) (id : ℕ) (A : Addressed req uuid id) (sent : Sent)
    (payload : Bytes) (small : length payload + 14 < 2 ^ 31) where
  answer : Bytes
  answer = print_response uuid (decimal id) (text_frame e payload)

  size : ℕ
  size = frame_size false (length payload)

  -- Every branch, with what the dump comes to.
  ws_reply_with :
      (dump : Bool)
      → ws_reply e can_alloc dump B sent req (some payload) ≡ (
          if can_alloc size
          then (if dump && (length payload == 0)
              then aborts
              else (run_dump e can_alloc dump size (text_frame e payload) >>= λ _.
                  ret (pos 0, sent ++ (answer ∷ []))))
          else ret (negsuc 0, sent))
  unfolding ws_reply size answer
  ws_reply_with dump = elim (Bool-cases (can_alloc size)) [
    | inr no_room ↦ rw (create_in_lem dump e can_alloc false n (omega arith), no_room)
    | inl room ↦ elim (Bool-cases (dump && (n == 0))) [
      | inl none_there ↦ rw (create_in_lem dump e can_alloc false n (omega arith), room, none_there)
      | inr some_there ↦ rw (
        create_in_lem dump e can_alloc false n (omega arith),
        room,
        some_there,
        set_payload_lem e 0 n false [] refl (replicate n 0) size payload (omega arith)
            (sym (length-replicate n 0)),
        set_opcode-layout e size 0 n false [] payload (omega arith) op_text (omega arith)
            (omega arith) (omega arith),
        set_fin-layout e size op_text n false [] payload (omega arith) (omega arith),
        int_of_u64-pos size (ground arith),
        sent_whole,
        eq→== (length (text_frame e payload)) size (length-text_frame e payload),
        assert_holds dump true refl,
        reply_lem B L req uuid id A sent (text_frame e payload),
      )
    ]
  ]
    where
      n : ℕ
      n = length payload

      sent_whole : B.blk2bstr (text_frame e payload) (pos size) ≡ some (text_frame e payload)
      sent_whole = rw (← length-text_frame e payload) (L.blk2bstr_some (text_frame e payload))

  -- For a payload of fewer than 2^31 - 14 bytes and a client that Mongrel2 addresses, `ws_reply`
  -- in a build with NDEBUG returns -1 and sends nothing if the allocation fails, and otherwise
  -- returns 0 and sends one response with the final text frame of the payload, which may be
  -- empty.
  pub ws_reply_lem : ws_reply e can_alloc false B sent req (some payload) ≡ (
      if can_alloc (frame_size false (length payload))
      then ret (pos 0, sent ++ (print_response uuid (decimal id) (text_frame e payload) ∷ []))
      else ret (negsuc 0, sent))
  unfolding size answer run_dump
  ws_reply_lem = ws_reply_with false

  -- In a build with the frame dump, `ws_reply` of a payload that is not empty, not 65536 bytes
  -- long and shorter than 2^31 - 14 bytes returns 0 and sends one response with the final text
  -- frame, if the payload holds a NUL byte, and otherwise reads beyond the end of the frame,
  -- which is undefined. The allocation succeeds, and the client is one that Mongrel2 addresses.
  pub ws_reply_dump :
      can_alloc (frame_size false (length payload)) ≡ true
      → 0 < length payload
      → length payload ≢ 65536
      → ws_reply e can_alloc true B sent req (some payload) ≡ (
          if has_nul payload
          then ret (pos 0, sent ++ (print_response uuid (decimal id) (text_frame e payload) ∷ []))
          else faults)
  unfolding size answer run_dump
  ws_reply_dump memory some_there exact =
      rw
        (
          ws_reply_with true,
          memory,
          ne→== (length payload) 0 (omega arith),
          frame_debug_lem e can_alloc size 129 payload (omega arith) (omega arith) (omega arith)
              some_there exact,
        )
        (ground arith)
