-- ===== src/Websocket/Handshake.antt =====
-- The opening handshake: src/websocket.c, lines 114 to 173 and 37 to 42.
use libm2handler.Base.{
  ℕ, [], ◌∷◌, ◌++◌, Bool, not, none, some, ℤ, pos, negsuc, eqb_ℤ, Bytes, if◌then◌else◌,
}
use libm2handler.Extern.{Bstring, Bstrlib, Jansson, blength, int_arg, str_arg}
use libm2handler.Handler.Request.{Request}
use libm2handler.Handler.Headers.{get_header}
use libm2handler.Handler.Reply.{Sent, contents, reply}

abbrev pub guid : Bytes
guid =
    b'2' ∷ b'5' ∷ b'8' ∷ b'E' ∷ b'A' ∷ b'F' ∷ b'A' ∷ b'5' ∷ b'-' ∷ b'E' ∷ b'9' ∷ b'1' ∷ b'4' ∷ b'-'
    ∷ b'4' ∷ b'7' ∷ b'D' ∷ b'A' ∷ b'-' ∷ b'9' ∷ b'5' ∷ b'C' ∷ b'A' ∷ b'-' ∷ b'C' ∷ b'5' ∷ b'A'
    ∷ b'B' ∷ b'0' ∷ b'D' ∷ b'C' ∷ b'8' ∷ b'5' ∷ b'B' ∷ b'1' ∷ b'1' ∷ []

-- `sec-websocket-key`
abbrev pub key_name : Bytes
key_name =
    b's' ∷ b'e' ∷ b'c' ∷ b'-' ∷ b'w' ∷ b'e' ∷ b'b' ∷ b's' ∷ b'o' ∷ b'c' ∷ b'k' ∷ b'e' ∷ b't' ∷ b'-'
    ∷ b'k' ∷ b'e' ∷ b'y' ∷ []

-- The constant `WEBSOCKET_08_UPGRADE` up to its `%*s`, and behind it.
abbrev pub upgrade_front : Bytes
upgrade_front =
    b'H' ∷ b'T' ∷ b'T' ∷ b'P' ∷ b'/' ∷ b'1' ∷ b'.' ∷ b'1' ∷ b' ' ∷ b'1' ∷ b'0' ∷ b'1' ∷ b' ' ∷ b'S'
    ∷ b'w' ∷ b'i' ∷ b't' ∷ b'c' ∷ b'h' ∷ b'i' ∷ b'n' ∷ b'g' ∷ b' ' ∷ b'P' ∷ b'r' ∷ b'o' ∷ b't'
    ∷ b'o' ∷ b'c' ∷ b'o' ∷ b'l' ∷ b's' ∷ 13 ∷ 10 ∷ b'U' ∷ b'p' ∷ b'g' ∷ b'r' ∷ b'a' ∷ b'd' ∷ b'e'
    ∷ b':' ∷ b' ' ∷ b'w' ∷ b'e' ∷ b'b' ∷ b's' ∷ b'o' ∷ b'c' ∷ b'k' ∷ b'e' ∷ b't' ∷ 13 ∷ 10 ∷ b'C'
    ∷ b'o' ∷ b'n' ∷ b'n' ∷ b'e' ∷ b'c' ∷ b't' ∷ b'i' ∷ b'o' ∷ b'n' ∷ b':' ∷ b' ' ∷ b'U' ∷ b'p'
    ∷ b'g' ∷ b'r' ∷ b'a' ∷ b'd' ∷ b'e' ∷ 13 ∷ 10 ∷ b'S' ∷ b'e' ∷ b'c' ∷ b'-' ∷ b'W' ∷ b'e' ∷ b'b'
    ∷ b'S' ∷ b'o' ∷ b'c' ∷ b'k' ∷ b'e' ∷ b't' ∷ b'-' ∷ b'A' ∷ b'c' ∷ b'c' ∷ b'e' ∷ b'p' ∷ b't'
    ∷ b':' ∷ b' ' ∷ []

abbrev pub upgrade_back : Bytes
upgrade_back = 13 ∷ 10 ∷ 13 ∷ 10 ∷ []

abbrev pub upgrade_format : Bytes
upgrade_format = upgrade_front ++ (b'%' ∷ b'*' ∷ b's' ∷ upgrade_back)

abbrev pub sha1_len : ℕ
sha1_len = 20

-- `sha1` is PolarSSL's function (sha1/), from bytes to a digest of 20 bytes.
module _ (can_alloc : ℕ → Bool) (sha1 : Bytes → Bytes) (B : Bstrlib) (A : Jansson) where
  -- The return value, `*ptr`, and the request with its parsed headers.
  abbrev pub Accept : Type 0
  Accept = record { status : ℤ; ptr : Bstring; req : Request A.Json }

  -- Lines 149 to 172, with the key that the headers gave.
  unfoldable pub accept_of : Request A.Json → Bstring → Bstring → Accept
  accept_of req ptr none = record { status = negsuc 0; ptr = ptr; req = req }
  accept_of req ptr (some key) =
      let (retval, key') = B.bcatcstr (some key) guid in
      if not (eqb_ℤ retval (pos 0))
      then record { status = negsuc 0; ptr = ptr; req = req }
      else if not (can_alloc sha1_len)
      then record { status = negsuc 0; ptr = ptr; req = req }
      else let accept = B.blk2bstr (sha1 (contents key')) (pos sha1_len) in
        record { status = pos 0; ptr = B.base64 accept; req = req }

  unfoldable pub calculate_accept : Request A.Json → Bstring → Accept
  calculate_accept req ptr = let (key, req') = get_header B A req key_name in accept_of req' ptr key

  unfoldable pub upgrade_headers : Request A.Json → Bstring × Request A.Json
  upgrade_headers req =
      let r = calculate_accept req (B.bfromcstr (some [])) in
      if not (eqb_ℤ r.status (pos 0))
      then (none, r.req)
      else (B.bformat upgrade_format (int_arg (pos (blength r.ptr)) ∷ str_arg r.ptr ∷ []), r.req)

  -- The names that the header exports.
  abbrev pub ws_upgrade_headers : Request A.Json → Bstring × Request A.Json
  ws_upgrade_headers = upgrade_headers

  abbrev pub ws_calculate_accept : Request A.Json → Bstring → Accept
  ws_calculate_accept = calculate_accept

  unfoldable pub reply_upgrade : Request A.Json → Sent → ℤ × Sent × Request A.Json
  reply_upgrade req sent =
      let (headers, req') = ws_upgrade_headers req in
      let (retval, sent') = reply B sent req' headers in (pos 0, sent', req')
