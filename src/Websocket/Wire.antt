-- ===== src/Websocket/Wire.antt =====
-- What a client that follows RFC 6455 reads from the frames of `ws_reply`.
use libm2handler.Base.{
  append-nil, length-append, lt→ltb, ap, ◌∙◌, ◌⊎◌, ℕ, ◌+◌, ◌%◌, ◌^◌, ◌≤◌, ◌<◌, ◌≡◌, ◌≢◌, refl, sym,
  [], ◌∷◌, ◌++◌, Bool, true, false, inl, inr, ◌==◌, ne→==, eq→==, arith, ltb, leb, le→leb, lt→leb,
  if◌then◌else◌, Option, none, some, pos, ret, decimal, length, take, drop, take-length-append,
  drop-length-append, Bytes, Endian, little, big, le_bytes, le_value, le_value-le_bytes, host_bytes,
  length-host_bytes,
}
use mathlib.Core.List.{reverse, reverse-reverse}
use libm2handler.Framing.Length.{net16_bytes}
use libm2handler.Framing.Layout.{layout, length_ext, Size-cases}
use libm2handler.Extern.{Bstrlib, IsLawful}
use libm2handler.Framing.Fresh.{frame_size}
use libm2handler.Handler.Request.{Request}
use libm2handler.Handler.Reply.{Sent, Addressed, print_response}
use libm2handler.Websocket.Send.{ws_reply, ws_reply_lem, text_frame}

-- An unsigned integer in network order.
unfoldable pub net_value : Bytes → ℕ
net_value bs = le_value (reverse bs)

-- A payload of `n` bytes, and what follows the frame; none while bytes are missing.
abbrev pub read_payload : ℕ → ℕ → Bytes → Option (ℕ × Bytes × Bytes)
read_payload n b₀ rest = if leb n (length rest) then some (b₀, take n rest, drop n rest) else none

-- RFC 6455, section 5.2, for a frame without a mask: the first byte, the payload, and what follows
-- the frame.
unfoldable pub rfc_decode : Bytes → Option (ℕ × Bytes × Bytes)
rfc_decode [] = none
rfc_decode (b₀ ∷ []) = none
rfc_decode (b₀ ∷ b₁ ∷ rest) =
    if ltb b₁ 126
    then read_payload b₁ b₀ rest
    else if b₁ == 126
    then (if leb 2 (length rest)
        then read_payload (net_value (take 2 rest)) b₀ (drop 2 rest)
        else none)
    else if b₁ == 127
    then (if leb 8 (length rest)
        then read_payload (net_value (take 8 rest)) b₀ (drop 8 rest)
        else none)
    else none

abbrev pub is_big : Endian → Bool
is_big little = false
is_big big = true

-- What a client reads from the frame of a payload: the two bytes of the length 65536 announce 0,
-- and the eight bytes of a larger one are in network order on a big-endian machine alone.
abbrev pub client_reads : Endian → Bytes → Option (ℕ × Bytes × Bytes)
client_reads e payload =
    let n = length payload in
    if leb n 65535
    then some (129, payload, [])
    else if n == 65536
    then some (129, [], payload)
    else if is_big e
    then some (129, payload, [])
    else none

-- Bytes in the wrong order announce more than there are.
net_value-little : (n : ℕ) → 65537 ≤ n → n < 2 ^ 32 → n < net_value (host_bytes little 8 n)
unfolding net_value host_bytes le_bytes le_value
net_value-little n lo hi = omega arith

net_value-big : (n : ℕ) → n < 2 ^ 64 → net_value (host_bytes big 8 n) ≡ n
unfolding net_value host_bytes
net_value-big n h = rw (reverse-reverse (le_bytes 8 n)) (le_value-le_bytes 8 n h)

net_value-net16_bytes : (x : ℕ) → net_value (net16_bytes x) ≡ x % 65536
unfolding net_value net16_bytes le_value
net_value-net16_bytes x = omega arith

take_front : (k : ℕ) (xs ys : Bytes) → k ≡ length xs → take k (xs ++ ys) ≡ xs
take_front k xs ys h = rw h (take-length-append xs ys)

drop_front : (k : ℕ) (xs ys : Bytes) → k ≡ length xs → drop k (xs ++ ys) ≡ ys
drop_front k xs ys h = rw h (drop-length-append xs ys)

length-net16_bytes : (x : ℕ) → 2 ≡ length (net16_bytes x)
unfolding net16_bytes
length-net16_bytes x = refl

whole :
    (b₀ : ℕ) (payload : Bytes) → read_payload (length payload) b₀ payload ≡ some (b₀, payload, [])
whole b₀ payload = rw (
  le→leb (length payload) (length payload) (omega arith),
  (rw (append-nil payload) at (take-length-append payload [])),
  (rw (append-nil payload) at (drop-length-append payload [])),
)

large_frame :
    (e : Endian) (b₀ : ℕ) (payload : Bytes)
    → 65537 ≤ length payload
    → length payload < 2 ^ 32
    → read_payload (net_value (host_bytes e 8 (length payload))) b₀ payload
      ≡ (if is_big e then some (b₀, payload, []) else none)
large_frame little b₀ payload lo hi = rw (
    lt→leb (net_value (host_bytes little 8 (length payload))) (length payload)
      (net_value-little (length payload) lo hi))
large_frame big b₀ payload lo hi =
    rw (net_value-big (length payload) (omega arith)) (whole b₀ payload)

decode_small :
    (payload : Bytes)
    → length payload ≤ 125
    → rfc_decode (129 ∷ length payload ∷ payload) ≡ some (129, payload, [])
unfolding rfc_decode
decode_small payload s = rw (lt→ltb (length payload) 126 (omega arith)) (whole 129 payload)

decode_medium :
    (announced payload : Bytes)
    → length announced ≡ 2
    → rfc_decode (129 ∷ 126 ∷ (announced ++ payload))
      ≡ read_payload (net_value announced) 129 payload
unfolding rfc_decode
decode_medium announced payload two = rw (
  le→leb 2 (length (announced ++ payload)) (omega (arith, length-append announced payload)),
  take_front 2 announced payload (sym two),
  drop_front 2 announced payload (sym two),
)

decode_large :
    (announced payload : Bytes)
    → length announced ≡ 8
    → rfc_decode (129 ∷ 127 ∷ (announced ++ payload))
      ≡ read_payload (net_value announced) 129 payload
unfolding rfc_decode
decode_large announced payload eight = rw (
  le→leb 8 (length (announced ++ payload)) (omega (arith, length-append announced payload)),
  take_front 8 announced payload (sym eight),
  drop_front 8 announced payload (sym eight),
)

medium_frame :
    (b₀ : ℕ) (payload : Bytes)
    → length payload ≤ 65536
    → read_payload (net_value (net16_bytes (length payload % 2 ^ 16))) b₀ payload
      ≡ (if length payload == 65536 then some (b₀, [], payload) else some (b₀, payload, []))
medium_frame b₀ payload m = elim (Nat-cases (length payload)) [
  | inl full ↦
      let none_left : net_value (net16_bytes (length payload % 2 ^ 16)) ≡ 0 =
        net_value-net16_bytes _ ∙ omega arith in
      rw (none_left, eq→== (length payload) 65536 full, le→leb 0 (length payload) (omega arith))
        refl
  | inr other ↦
      let exact : net_value (net16_bytes (length payload % 2 ^ 16)) ≡ length payload =
        net_value-net16_bytes _ ∙ omega arith in
      rw (exact, ne→== (length payload) 65536 other) (whole b₀ payload)
]
  where
    Nat-cases : (n : ℕ) → (n ≡ 65536) ⊎ (n ≢ 65536)
    Nat-cases n = ground arith

module _ (e : Endian) (payload : Bytes) where
  small_text : length payload ≤ 125 → text_frame e payload ≡ 129 ∷ length payload ∷ payload
  unfolding layout length_ext
  small_text s = rw (le→leb (length payload) 125 s) (ap (λ b. 129 ∷ b ∷ payload) (omega arith))

  medium_text :
      126 ≤ length payload
      → length payload ≤ 65536
      → text_frame e payload ≡ 129 ∷ 126 ∷ (net16_bytes (length payload % 2 ^ 16) ++ payload)
  unfolding layout length_ext
  medium_text lo hi = rw (lt→leb (length payload) 125 lo, le→leb (length payload) 65536 hi) refl

  large_text :
      65537 ≤ length payload
      → text_frame e payload ≡ 129 ∷ 127 ∷ (host_bytes e 8 (length payload) ++ payload)
  unfolding layout length_ext
  large_text lo =
      rw (lt→leb (length payload) 125 (omega arith), lt→leb (length payload) 65536 lo) refl

  pub rfc_decode-text_frame :
      length payload < 2 ^ 32 → rfc_decode (text_frame e payload) ≡ client_reads e payload
  rfc_decode-text_frame h = elim (Size-cases (length payload)) [
    | inl s ↦
        rw (small_text s, decode_small payload s, le→leb (length payload) 65535 (omega arith)) refl
    | inr (inl m) ↦
        rw
          (
            medium_text m.0 m.1,
            decode_medium (net16_bytes (length payload % 2 ^ 16)) payload
                (sym (length-net16_bytes _)),
            medium_frame 129 payload m.1,
          )
          (ground arith)
    | inr (inr l) ↦
        rw
          (
            large_text l,
            decode_large (host_bytes e 8 (length payload)) payload (length-host_bytes e 8 _),
            large_frame e 129 payload l h,
          )
          (ground arith)
  ]

module _ (e : Endian) (can_alloc : ℕ → Bool) (B : Bstrlib) (L : IsLawful B) {J : Type 0}
    (req : Request J) (uuid : Bytes) (id : ℕ) (A : Addressed req uuid id) (sent : Sent)
    (payload : Bytes) (small : length payload + 14 < 2 ^ 31) where
  -- In a build with NDEBUG, `ws_reply` of a payload shorter than 2^31 - 14 bytes returns 0 and
  -- sends one response with a frame, to a client that Mongrel2 addresses, if the allocation
  -- succeeds. A client that follows RFC 6455 reads the payload from the frame as one final text
  -- frame, and nothing behind it, if the payload is at most 65535 bytes long, or longer than
  -- 65536 bytes on a machine of network byte order. At 65536 bytes it reads an empty final text
  -- frame and has the payload behind it; at more bytes on a little-endian machine it reads no
  -- frame, since more bytes are announced than there are.
  pub ws_reply-rfc_decode :
      can_alloc (frame_size false (length payload)) ≡ true
      → (frame : Bytes) × (ws_reply e can_alloc false B sent req (some payload)
          ≡ ret (pos 0, sent ++ (print_response uuid (decimal id) frame ∷ [])))
        × (rfc_decode frame ≡ client_reads e payload)
  ws_reply-rfc_decode memory = (
    text_frame e payload,
    rw (ws_reply_lem e can_alloc B L req uuid id A sent payload small, memory),
    rfc_decode-text_frame e payload (omega arith),
  )
