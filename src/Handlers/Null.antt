-- ===== src/Handlers/Null.antt =====
-- example/handlers/null_handler.c: answers every request with 204. As in Handlers/Upper, a run of
-- its endless loop is cut off after some rounds.
use libm2handler.Base.{
  ℕ, ◌+◌, ◌≤◌, ◌≡◌, ap, [], ◌∷◌, ◌++◌, append-nil, append_assoc, arith, map, List, Bool, true, not,
  Bool-cases, inl, inr, ◌&&◌, ltb, if◌then◌else◌, Option, none, some, ℤ, pos, negsuc, eqb_ℤ, length,
  length-append, Bytes, bytes_of, decimal, Outcome, ret, exits, faults, ◌>>=◌, Endian,
}
use libm2handler.Extern.{Bstring, Bstrlib, IsLawful, Scanner, IsScanner, blength}
use libm2handler.Handler.Request.{finalize}
use libm2handler.Handler.Reply.{Sent, reply_http, separator, print_response, reply_http_lem}
use libm2handler.Handler.Headers.{disconnect_text}
use libm2handler.Handler.Socket.{
  Zmq, init, pull_socket, pub_socket, set_rcvhwm, connect, set_identity, recv,
}
use libm2handler.Handlers.SetUp.{target, address, printed_text}
use libm2handler.Handlers.Incoming.{
  Incoming, IsProper, on_wire, request_of, request_of-Addressed, Arrive, recv-on_wire,
}
use libm2handler.Handlers.Upper.{Rounds}

abbrev pub hwm : ℕ
hwm = 100

abbrev pub ident_front : Bytes
ident_front = bytes_of "HTTP/1.1 204 No Content\r\nX-Ident: "

abbrev pub ident_back : Bytes
ident_back = bytes_of "\r\nStatus: 200 OK"

-- `sprintf` into `char c[100]`, for a string `ident`. A text that does not fit with its NUL byte
-- is written beyond the array.
unfoldable pub ident_headers : Bytes → Outcome Bytes
ident_headers ident =
    let header_text = ident_front ++ (ident ++ ident_back) in
    if ltb (length header_text) 100 then ret header_text else faults

module _ (Z : Zmq) (B : Bstrlib) where
  -- The loop over the pairs of addresses; what is left is the identity.
  unfoldable pub connect_pairs :
      Z.State → Z.Handle → Z.Handle → List Bytes → Outcome (Option Bytes × Z.State)
  connect_pairs z pull pub_end [] = ret (none, z)
  connect_pairs z pull pub_end (name ∷ []) = ret (some name, z)
  connect_pairs z pull pub_end (pull_arg ∷ pub_arg ∷ args) = do
    pull_addr ← address B pull_arg
    pub_addr ← address B pub_arg
    (r₁, z₁) ← connect Z z pull pull_addr
    (r₂, z₂) ← connect Z z₁ pub_end pub_addr
    connect_pairs z₂ pull pub_end args

  module _ (scan : Scanner) (Value : Type 0) where
    -- The test for a disconnect: `-1` is BSTR_ERR.
    unfoldable pub is_disconnect : Bstring → Bool
    is_disconnect body =
        ltb 0 (blength body)
        && not (eqb_ℤ (B.binstrcaseless body (pos 0) (some disconnect_text)) (negsuc 0))

    unfoldable pub null_round :
        Z.State → Z.Handle → Sent → Bstring → ℤ → ℤ → Outcome (Sent × Z.State)
    unfolding is_disconnect
    null_round z pull sent headers junk_header junk_body = do
      (received, z') ← recv Z B scan {J = Value} z pull junk_header junk_body
      request ← target received
      if is_disconnect request.body then ret (sent, z') else (do
        let (r₁, sent') = reply_http B sent request headers (some [])
        r₂ ← finalize (some request)
        ret (sent', z'))

    unfoldable pub null_loop :
        Z.State → Z.Handle → Sent → Bstring → Rounds → Outcome (Sent × Z.State)
    unfolding null_round
    null_loop z pull sent headers [] = ret (sent, z)
    null_loop z pull sent headers ((junk_header, junk_body) ∷ rounds) = do
      (sent', z') ← null_round z pull sent headers junk_header junk_body
      null_loop z' pull sent' headers rounds

    abbrev too_few : List Bytes → Bool
    too_few args = ltb (length args) 2

    unfoldable pub null_main :
        Endian → Option Bytes → Z.State → List Bytes → Rounds → Outcome (Sent × Z.State)
    unfolding connect_pairs null_loop ident_headers
    null_main e null_text z args rounds = if too_few args then exits else (do
      (ctx, z₁) ← init Z true z (pos 3)
      (pull, z₂) ← pull_socket Z true z₁ ctx
      z₃ ← set_rcvhwm Z e z₂ pull hwm
      (pub_end, z₄) ← pub_socket Z true z₃ ctx
      (sender, z₅) ← connect_pairs z₄ pull pub_end args
      z₆ ← elim sender [ none ↦ ret z₅ | some name ↦ set_identity Z z₅ pub_end name ]
      ident ← printed_text null_text sender
      header_text ← ident_headers ident
      null_loop z₆ pull [] (B.bfromcstr (some header_text)) rounds)

-- The headers of null_handler.c fit into their array of 100 bytes if the identity has at most 49
-- bytes; a longer one is written beyond the end of the array, which is undefined.
pub ident_headers_iff :
    (ident : Bytes)
    → (length ident ≤ 49 → ident_headers ident ≡ ret (ident_front ++ (ident ++ ident_back)))
      × (50 ≤ length ident → ident_headers ident ≡ faults)
unfolding ident_headers
ident_headers_iff ident = (λ h. ground (arith, total), λ h. ground (arith, total))
  where
    total : length (ident_front ++ (ident ++ ident_back)) ≡ 50 + length ident
    total =
        omega
          (arith, length-append ident_front (ident ++ ident_back), length-append ident ident_back)

module _ (Z : Zmq) (B : Bstrlib) (scan : Scanner) (Value : Type 0) (L : IsLawful B)
    (S : IsScanner scan) (socket : Z.Handle) (headers : Bytes) where
  -- The response to a message, none to a disconnect.
  abbrev pub null_responses : Incoming → Sent
  null_responses m =
      if is_disconnect Z B scan Value (some m.body)
      then []
      else print_response m.uuid (decimal m.id) ((headers ++ separator) ++ []) ∷ []

  abbrev pub all_null_responses : List Incoming → Sent
  all_null_responses [] = []
  all_null_responses (m ∷ ms) = null_responses m ++ all_null_responses ms

  null_round_lem :
      (z z' : Z.State) (m : Incoming) (junk_header junk_body : ℤ) (sent : Sent)
      → Z.recvmsg z socket ≡ ret (on_wire m, z')
      → IsProper m
      → null_round Z B scan Value z socket sent (some headers) junk_header junk_body
        ≡ ret (sent ++ null_responses m, z')
  unfolding null_round finalize
  null_round_lem z z' m junk_header junk_body sent arrived proper =
      let client = request_of-Addressed {Value = Value} m proper.uuid_text in
      rw (recv-on_wire Z socket B L scan S Value z z' m junk_header junk_body proper arrived)
        (elim (Bool-cases (is_disconnect Z B scan Value (some m.body))) [
          | inl closing ↦ rw (closing, append-nil sent)
          | inr asking ↦
              rw (asking, reply_http_lem B L (request_of m) m.uuid m.id client sent headers [])
        ])

  -- When messages UUID CONN_ID PATH HEADER_NETSTRING,BODY_NETSTRING, arrive one after the other,
  -- the loop of null_handler.c sends one response with the headers, an empty line and no body to
  -- the client of each, in their order, and none to a message that it takes for a disconnect
  -- request. Each message is shorter than 2^31 bytes, its UUID is a C string, its UUID and path
  -- hold no space, and its connection id is below 2^31. The string functions and `sscanf` behave
  -- as documented.
  pub null_loop_lem :
      (z z' : Z.State) (rounds : List (Incoming × (ℤ × ℤ))) (sent : Sent)
      → Arrive Z socket z (map (λ r. r.0) rounds) z'
      → null_loop Z B scan Value z socket sent (some headers) (map (λ r. r.1) rounds)
        ≡ ret (sent ++ all_null_responses (map (λ r. r.0) rounds), z')
  unfolding null_loop Arrive
  null_loop_lem z z' [] sent arrived = rw (append-nil sent, arrived)
  null_loop_lem z z' ((m, (junk_header, junk_body)) ∷ rounds) sent (z₁, arrived, (proper, later)) =
      rw
        (
          null_round_lem z z₁ m junk_header junk_body sent arrived proper,
          null_loop_lem z₁ z' rounds (sent ++ null_responses m) later,
        )
        (ap (λ s. ret (s, z'))
          (append_assoc sent (null_responses m) (all_null_responses (map (λ r. r.0) rounds))))
