-- ===== src/Framing/Truncated.antt =====
-- Reading a frame that is shorter than it announces: src/websocket_framing.c, lines 157 to 164.
use libm2handler.Base.{
  ℕ, ◌+◌, ◌^◌, ◌<◌, ◌≡◌, ◌≢◌, arith, Bool, ne→==, lt→leb, pos, length, Bytes, load, ret, faults,
  Endian,
}
use libm2handler.Framing.Payload.{get_payload}
use libm2handler.Framing.Layout.{
  layout, ext_len, key_len, length-layout, get_payload_start-layout, get_payload_size-layout,
}
use libm2handler.Framing.Fields.{read_flags-layout}
use libm2handler.Framing.RoundTrip.{open_frame}

load_beyond : (block : Bytes) (k n : ℕ) → length block < k + n → load block k n ≡ faults
unfolding load
load_beyond block k n h = rw (lt→leb (k + n) (length block) h)

module _ (e : Endian) (len b₀ n : ℕ) (masked : Bool) (key payload : Bytes) (room : 1 < len)
    (byte : b₀ < 256) (fits : n < 2 ^ 64) (exact : n ≢ 65536) where
  abbrev payload_start : ℕ
  payload_start = 2 + key_len masked + ext_len n

  get_payload-layout :
      get_payload e len (layout e b₀ masked n key payload)
      ≡ ret (record { status = pos 0; osize = n; start = pos payload_start })
  unfolding get_payload
  get_payload-layout = rw (
    get_payload_start-layout e len b₀ n masked key payload room,
    get_payload_size-layout e len b₀ n masked key payload room fits,
    ne→== n 65536 exact,
  )

  load-layout :
      length key ≡ key_len masked
      → length payload < n
      → load (layout e b₀ masked n key payload) payload_start n ≡ faults
  load-layout key_fits short =
      load_beyond (layout e b₀ masked n key payload) payload_start n
        (omega (arith, length-layout e b₀ n masked key payload))

  -- On a frame whose payload is shorter than its header announces, `get_payload` returns 0, the
  -- announced size and the start of the payload, whatever size of the frame it is told, and a
  -- reader that copies the payload it was given reads beyond the end of the frame. The told size
  -- is above 1, the first byte is a byte, the key is as long as the mask bit says, and the
  -- announced size is below 2^64 and not 65536. It holds for both byte orders, with and without a
  -- mask.
  pub get_payload_truncated :
      length key ≡ key_len masked
      → length payload < n
      → (get_payload e len (layout e b₀ masked n key payload)
          ≡ ret (record { status = pos 0; osize = n; start = pos payload_start }))
        × (open_frame e len (layout e b₀ masked n key payload) ≡ faults)
  unfolding open_frame
  get_payload_truncated key_fits short = (
    get_payload-layout,
    rw (
      read_flags-layout e len b₀ n masked key payload (omega arith) byte,
      get_payload-layout,
      load-layout key_fits short,
    ),
  )
