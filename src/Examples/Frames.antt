-- ===== src/Examples/Frames.antt =====
-- Frames at concrete inputs: src/websocket_framing.c.
use libm2handler.Base.{
  ℕ, ◌≡◌, ◌^◌, refl, arith, [], ◌∷◌, Bool, true, false, pos, replicate, Bytes, ret, faults, ◌>>=◌,
  little, big, host_bytes,
}
use libm2handler.Framing.Flags.{flags_of}
use libm2handler.Framing.Payload.{get_payload}
use libm2handler.Framing.Network.{rfc_frame, swapped, get_payload_size-rfc_frame}
use libm2handler.Framing.Truncated.{get_payload_truncated}
use libm2handler.Framing.Mask.{set_mask}
use libm2handler.Framing.Create.{create}
use libm2handler.Framing.Layout.{layout}
use libm2handler.Framing.Length.{get_payload_size}
use libm2handler.Framing.Fresh.{filled, create_lem}
use libm2handler.Framing.Xor.{mask_with}
use libm2handler.Framing.Fields.{set_mask_lem}
use libm2handler.Framing.RoundTrip.{build_masked, open_frame, open_frame-build_masked}

abbrev enough : ℕ → Bool
enough n = true

-- `hello`
abbrev hello : Bytes
hello = b'h' ∷ b'e' ∷ b'l' ∷ b'l' ∷ b'o' ∷ []

abbrev key : Bytes
key = 1 ∷ 2 ∷ 3 ∷ 4 ∷ []

open_frame-build_masked_example :
    (build_masked little enough 2 hello 67305985 >>= λ r. open_frame little r.0 r.1)
    ≡ ret (flags_of 130, hello)
open_frame-build_masked_example =
    open_frame-build_masked little enough 2 67305985 hello refl (omega arith) (omega arith)
      (omega arith) (omega arith) (omega arith)

create_example : create little enough true 5 ≡ filled little true 5 true
create_example = create_lem little enough true 5 (omega arith)

-- 65536 is read as 2^40.
get_payload_size_example : get_payload_size little 14 (rfc_frame 130 true 65536 key) ≡ ret (2 ^ 40)
unfolding rfc_frame swapped libm2handler.Base.le_value libm2handler.Base.le_bytes
get_payload_size_example =
    get_payload_size-rfc_frame little 14 130 65536 true key (omega arith) (omega arith)

set_mask_example :
    set_mask little 11 (layout little 130 true 5 (0 ∷ 0 ∷ 0 ∷ 0 ∷ []) hello) 67305985
    ≡ ret (
      pos 0,
      layout little 130 true 5
          (host_bytes little 4 67305985)
          (mask_with (host_bytes little 4 67305985) 0 hello),
    )
set_mask_example =
    set_mask_lem little 11 130 5 (0 ∷ 0 ∷ 0 ∷ 0 ∷ []) refl hello (omega arith) 67305985
      (omega arith) refl

-- Nine bytes are announced, five follow.
get_payload_truncated_example :
    (get_payload little 7 (layout little 129 false 9 [] hello)
      ≡ ret (record { status = pos 0; osize = 9; start = pos 2 }))
    × (open_frame little 7 (layout little 129 false 9 [] hello) ≡ faults)
get_payload_truncated_example =
    get_payload_truncated little 7 129 9 false [] hello (omega arith) (omega arith) (omega arith)
      (omega arith) refl (omega arith)
