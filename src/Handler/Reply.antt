-- ===== src/Handler/Reply.antt =====
-- Messages to Mongrel2: src/handler.c, lines 342 to 455. A publishing socket is the list of the
-- messages handed to `zmq_sendmsg`, whose result the code ignores, the oldest first.
use libm2handler.Base.{
  ℕ, ◌≡◌, refl, [], ◌∷◌, ◌++◌, append_assoc, List, Option, none, some, ℤ, pos, negsuc, eqb_ℤ,
  length, Bytes, if◌then◌else◌, decimal, decimal_ℤ-pos, ap,
}
use libm2handler.Extern.{
  Bstring, Bstrlib, IsLawful, blength, c_string, int_arg, str_arg, response_header,
}
use libm2handler.Handler.Request.{Request}
use libm2handler.Handler.Netstring.{print_netstring}

abbrev pub Sent : Type 0
Sent = List Bytes

-- The bytes `bdata(b)` up to `blength(b)`.
abbrev pub contents : Bstring → Bytes
contents none = []
contents (some b) = b

unfoldable pub send : Sent → Bstring → ℤ × Sent
send sent response = (pos 0, sent ++ (contents response ∷ []))

-- `\r\n\r\n`
abbrev pub separator : Bytes
separator = 13 ∷ 10 ∷ 13 ∷ 10 ∷ []

module _ (B : Bstrlib) {J : Type 0} where
  unfoldable pub reply : Sent → Request J → Bstring → ℤ × Sent
  unfolding send
  reply sent req payload =
      let response = B.bformat response_header (
        int_arg (pos (blength req.uuid))
        ∷ str_arg req.uuid
        ∷ int_arg (pos (blength req.conn_id_bstr))
        ∷ int_arg req.conn_id
        ∷ []) in
      let (retval, response') = B.bconcat response payload in
      if eqb_ℤ retval (pos 0) then send sent response' else (negsuc 0, sent)

  unfoldable pub reply_http : Sent → Request J → Bstring → Bstring → ℤ × Sent
  reply_http sent req headers body =
      let payload = B.bstrcpy headers in
      let (r₁, payload₁) = B.bconcat payload (some separator) in
      let (r₂, payload₂) = B.bconcat payload₁ body in reply sent req payload₂

  -- The request and the socket may be NULL.
  unfoldable pub disconnect : Option Sent → Option (Request J) → ℤ × Option Sent
  disconnect pub_socket none = (negsuc 0, pub_socket)
  disconnect none (some req) = (negsuc 0, none)
  disconnect (some sent) (some req) =
      let (retval, sent') = reply sent req (B.bfromcstr (some [])) in (retval, some sent')

-- PROTOCOL.markdown: UUID CONN_NETSTRING, OPAQUE_RESPONSE
unfoldable pub print_response : Bytes → Bytes → Bytes → Bytes
unfolding print_netstring
print_response uuid conn_list payload =
    uuid ++ (b' ' ∷ (print_netstring conn_list ++ (b',' ∷ (b' ' ∷ payload))))

response_shape :
    (uuid conn_list payload : Bytes)
    → (uuid ++ (b' ' ∷ (decimal (length conn_list) ++ (b':' ∷ (conn_list ++ (b',' ∷ b' ' ∷ []))))))
        ++ payload
      ≡ print_response uuid conn_list payload
unfolding print_response
response_shape uuid conn_list payload = simp append_assoc

-- A request of a client, as far as replies need it: `id` is written as Mongrel2 writes it.
pub record Addressed {J : Type 0} (req : Request J) (uuid : Bytes) (id : ℕ) : Type 0 where
  pub uuid_is : req.uuid ≡ some uuid
  pub uuid_text : c_string uuid ≡ uuid
  pub conn_id_is : req.conn_id ≡ pos id
  pub conn_id_bstr_is : req.conn_id_bstr ≡ some (decimal id)

c_string_nil : c_string [] ≡ []
unfolding c_string
c_string_nil = refl

module _ (B : Bstrlib) (L : IsLawful B) {J : Type 0} (req : Request J) (uuid : Bytes) (id : ℕ)
    (A : Addressed req uuid id) (sent : Sent) where
  -- `reply` sends one message, UUID CONN_NETSTRING, PAYLOAD, and returns 0, for a request with
  -- the UUID as a C string and the connection id both as a number and as its decimal numeral. The
  -- string functions behave as documented.
  pub reply_lem :
      (payload : Bytes)
      → reply B sent req (some payload)
        ≡ (pos 0, sent ++ (print_response uuid (decimal id) payload ∷ []))
  unfolding reply
  reply_lem payload =
      rw
        (
          A.uuid_is,
          A.conn_id_is,
          A.conn_id_bstr_is,
          L.bformat-response_header uuid (pos (length (decimal id))) (pos id) A.uuid_text,
          L.bconcat_some,
          decimal_ℤ-pos (length (decimal id)),
          decimal_ℤ-pos id,
        )
        (ap (λ m. (pos 0, sent ++ (m ∷ []))) (response_shape uuid (decimal id) payload))

  -- A payload that is NULL sends nothing and returns -1.
  pub reply_null : reply B sent req none ≡ (negsuc 0, sent)
  unfolding reply
  reply_null = rw (
    A.uuid_is,
    A.conn_id_is,
    A.conn_id_bstr_is,
    L.bformat-response_header uuid (pos (length (decimal id))) (pos id) A.uuid_text,
    L.bconcat_none,
  )

  -- `reply_http` sends one message whose payload is the headers, an empty line and the body, and
  -- returns 0, for a request with the UUID as a C string and the connection id both as a number
  -- and as its decimal numeral. The string functions behave as documented.
  pub reply_http_lem :
      (headers body : Bytes)
      → reply_http B sent req (some headers) (some body)
        ≡ (pos 0, sent ++ (print_response uuid (decimal id) ((headers ++ separator) ++ body) ∷ []))
  unfolding reply_http
  reply_http_lem headers body =
      rw (L.bstrcpy_some, L.bconcat_some, L.bconcat_some)
        (reply_lem ((headers ++ separator) ++ body))

  -- `disconnect` with a socket sends one message with an empty payload and returns 0, for a
  -- request with the UUID as a C string and the connection id both as a number and as its decimal
  -- numeral. The string functions behave as documented.
  pub disconnect_lem :
      disconnect B (some sent) (some req)
      ≡ (pos 0, some (sent ++ (print_response uuid (decimal id) [] ∷ [])))
  unfolding disconnect
  disconnect_lem = rw (L.bfromcstr_some, c_string_nil, reply_lem [])
