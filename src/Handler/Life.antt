-- ===== src/Handler/Life.antt =====
-- The life of a socket, from its creation to the end of its context, and the messages it receives.
use libm2handler.Base.{
  ℕ, ◌<◌, ◌^◌, ◌≡◌, ◌≢◌, ◌⊎◌, inl, inr, ◌∙◌, ap, [], ◌∷◌, true, Option-cases, none, some, ℤ, pos,
  int_of_u64-pos, length, Bytes, All, IsDigit, decimal_value, Outcome, ret, exits, ◌>>=◌,
}
use libm2handler.Extern.{Bstrlib, IsLawful, Scanner, IsScanner, c_string}
use libm2handler.Handler.Netstring.{Lacks}
use libm2handler.Handler.Parse.{message, parse_request-wire}
use libm2handler.Handler.Socket.{
  Zmq, IsZmq, alloc_socket, pub_socket, connect, set_identity, close, deinit, recv,
}

-- A publishing socket with its identity, as example/handlers/ws_handshake.c sets one up.
unfoldable pub set_up :
    (Z : Zmq) → Z.State → Z.Context → Bytes → Bytes → Outcome (Z.Handle × Z.State)
set_up Z z ctx dest identity = do
  (s, z₂) ← pub_socket Z true z ctx
  (r, z₃) ← connect Z z₂ s dest
  z₄ ← set_identity Z z₃ s identity
  ret (s, z₄)

module _ (Z : Zmq) (L : IsZmq Z) (z : Z.State) (ctx : Z.Context) where
  -- With memory at hand, `alloc_socket` either ends the process or returns a socket that ZeroMQ
  -- has open, the newest, and opens no other. ZeroMQ keeps its book of open sockets as
  -- documented.
  pub alloc_socket_lem :
      (kind : ℕ)
      → (alloc_socket Z true z ctx kind ≡ exits)
        ⊎ ((h : Z.Handle) × (z' : Z.State) × (alloc_socket Z true z ctx kind ≡ ret (h, z'))
            × (L.opened z' ≡ h ∷ L.opened z))
  unfolding alloc_socket
  alloc_socket_lem kind = elim (Option-cases (Z.socket z ctx kind).0) [
    | inl refused ↦ inl (rw refused)
    | inr (h, given) ↦ inr (
      h,
      (Z.socket z ctx kind).1,
      rw given,
      L.socket_some z (Z.socket z ctx kind).1 ctx kind h (λ i. (given i, (Z.socket z ctx kind).1)),
    )
  ]

  module _ (idle : L.opened z ≡ []) (h : Z.Handle) (z₁ : Z.State)
      (given : Z.socket z ctx Z.pub_type ≡ (some h, z₁)) (dest identity : Bytes)
      (connected : (Z.connect z₁ h dest).0 ≡ pos 0)
      (named : (Z.setsockopt (Z.connect z₁ h dest).1 h Z.identity_option (c_string identity)).0
        ≡ pos 0) where
    abbrev ready : Z.State
    ready = (Z.setsockopt (Z.connect z₁ h dest).1 h Z.identity_option (c_string identity)).1

    set_up_lem : set_up Z z ctx dest identity ≡ ret (h, ready)
    unfolding set_up pub_socket alloc_socket connect set_identity
    set_up_lem =
        let is_open : (Z.socket z ctx Z.pub_type).0 ≡ some h = λ i. (given i).0 in
        let after : (Z.socket z ctx Z.pub_type).1 ≡ z₁ = λ i. (given i).1 in
        rw (is_open, after, connected, named)

    opened-ready : L.opened ready ≡ h ∷ []
    opened-ready =
        L.opened-setsockopt (Z.connect z₁ h dest).1 h Z.identity_option (c_string identity)
        ∙ L.opened-connect z₁ h dest
        ∙ L.socket_some z z₁ ctx Z.pub_type h given
        ∙ ap (λ hs. h ∷ hs) idle

    -- From a state without open sockets, a publishing socket that is created, connected, given
    -- its identity and closed again lets `deinit` return 0, if ZeroMQ's creation of the socket,
    -- its connection and the setting of its identity succeed and memory is at hand. ZeroMQ keeps
    -- its book of open sockets as documented.
    pub deinit-close :
        (z' : Z.State) × ((set_up Z z ctx dest identity >>= λ s.
        close Z s.1 (some (some s.0)) >>= λ r. deinit Z r.1 ctx)
          ≡ ret (pos 0, z'))
    unfolding close deinit
    deinit-close =
        let (z', ended) =
          L.term_idle (Z.close ready h).1 ctx (L.opened-close ready h [] [] opened-ready tt) in
        (z', rw (set_up_lem, ended))

module _ (B : Bstrlib) (L : IsLawful B) (scan : Scanner) (S : IsScanner scan) (J : Type 0) (Z : Zmq)
    (z z' : Z.State) (socket : Z.Handle) (uuid conn_id path headers body : Bytes)
    (junk_header junk_body : ℤ) where
  -- When a message UUID CONN_ID PATH HEADER_NETSTRING,BODY_NETSTRING, arrives, `recv` returns the
  -- request with its fields. The message is shorter than 2^31 bytes, its UUID and path hold no
  -- space, and its connection id is a non-empty row of digits below 2^31. The string functions
  -- and `sscanf` behave as documented.
  pub recv-message :
      Z.recvmsg z socket ≡ ret (message uuid conn_id path headers body, z')
      → Lacks b' ' uuid
      → All IsDigit conn_id
      → conn_id ≢ []
      → decimal_value conn_id < 2 ^ 31
      → Lacks b' ' path
      → length (message uuid conn_id path headers body) < 2 ^ 31
      → recv Z B scan {J = J} z socket junk_header junk_body
        ≡ ret (
          some (record {
            uuid = some uuid;
            conn_id = pos (decimal_value conn_id);
            conn_id_bstr = some conn_id;
            path = some path;
            raw_headers = some headers;
            headers = none;
            body = some body;
          }),
          z',
        )
  unfolding recv message
  recv-message arrived clean_uuid digits some_digits small clean_path fits = rw (
    arrived,
    int_of_u64-pos (length (message uuid conn_id path headers body)) fits,
    L.blk2bstr_some (message uuid conn_id path headers body),
    parse_request-wire B L scan S J uuid conn_id path headers body (b',' ∷ []) b',' junk_header
        junk_body clean_uuid digits some_digits small clean_path fits,
  )
