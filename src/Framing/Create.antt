-- ===== src/Framing/Create.antt =====
-- Allocating a frame: src/websocket_framing.c, lines 255 to 293. Whether `calloc` finds `n` bytes is the
-- argument `can_alloc n`; a block that it returns is all zero.
use libm2handler.Base.{
  ℕ, ◌+◌, ◌%◌, ◌^◌, ◌&&◌, ltb, leb, if◌then◌else◌, Bool, true, bit_or, ℤ, pos, negsuc, Option, none,
  some, replicate, Bytes, read, write, Outcome, ret, faults, ◌>>=◌, Endian,
}
use libm2handler.Framing.Length.{set_payload_size_in}

abbrev u64 : ℕ → ℕ
u64 n = n % 2 ^ 64

unfoldable pub get_size_necessary : Bool → ℕ → ℕ
get_size_necessary mask_present payload_size =
    let retval = 0 + 1 + 1 in
    let retval' = if mask_present then retval + 4 else retval in
    let retval'' =
      if ltb payload_size 126
      then retval'
      else if leb 126 payload_size && leb payload_size 65536
      then retval' + 2
      else retval' + 8 in
    u64 (retval'' + payload_size)

-- The return value, `*size` and `*buf`.
pub record Created : Type 0 where
  pub status : ℤ
  pub size : ℕ
  pub buf : Option Bytes

-- `debug` is whether the build has its assertions.
unfoldable pub create_in : Bool → Endian → (ℕ → Bool) → Bool → ℕ → Outcome Created
create_in debug e can_alloc use_mask payload_size =
    let size = get_size_necessary use_mask payload_size in
    if can_alloc size
    then (do
      (status, buf) ← set_payload_size_in debug e size (replicate size 0) payload_size
      buf' ← if use_mask then (do b ← read buf 1; write buf 1 (bit_or b 0x80)) else ret buf
      ret (record { status = pos 0; size = size; buf = some buf' }))
    else ret (record { status = negsuc 0; size = size; buf = none })

abbrev pub create : Endian → (ℕ → Bool) → Bool → ℕ → Outcome Created
create = create_in true

-- `*buf` after a successful `create`.
abbrev pub block : Option Bytes → Outcome Bytes
block none = faults
block (some buf) = ret buf
