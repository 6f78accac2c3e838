-- ===== src/Handler/Socket.antt =====
-- Contexts and sockets: src/handler.c, lines 30 to 171, 323 to 335 and 494 to 502. ZeroMQ is a
-- parameter, `Zmq`; the messages printed for each `errno` are left out. `can_alloc` says whether
-- the `calloc` of the call succeeds.
use libm2handler.Base.{
  ℕ, ◌≡◌, ◌≢◌, [], ◌∷◌, ◌++◌, All, List, Bool, not, Option, none, some, ℤ, pos, eqb_ℤ, int_of_u64,
  length, Bytes, if◌then◌else◌, Outcome, ret, faults, blocks, exits, ◌>>=◌, Endian, host_bytes,
}
use libm2handler.Extern.{Bstrlib, Scanner, c_string}
use libm2handler.Handler.Request.{Request, parse_request}

-- The calls of ZeroMQ. `State` is what the library and its peers hold.
pub record Zmq : Type 1 where
  pub State : Type 0
  pub Context : Type 0
  pub Handle : Type 0
  -- The constants ZMQ_PULL, ZMQ_PUB, ZMQ_IDENTITY and ZMQ_RCVHWM.
  pub pull_type : ℕ
  pub pub_type : ℕ
  pub identity_option : ℕ
  pub rcvhwm_option : ℕ
  pub init : State → ℤ → Option Context × State
  pub term : State → Context → Outcome (ℤ × State)
  pub socket : State → Context → ℕ → Option Handle × State
  pub setsockopt : State → Handle → ℕ → Bytes → ℤ × State
  pub connect : State → Handle → Bytes → ℤ × State
  pub close : State → Handle → ℤ × State
  -- Waits for a message for half a second: positive if there is one, negative for an error.
  pub poll : State → Handle → ℤ × State
  -- The bytes that the message holds afterwards; none if the call fails.
  pub recvmsg : State → Handle → Outcome (Bytes × State)

-- What ZeroMQ documents of the life of a socket.
pub record IsZmq (Z : Zmq) : Type 0 where
  -- The open sockets, the newest first.
  pub opened : Z.State → List Z.Handle
  pub socket_some :
      (z z' : Z.State) (c : Z.Context) (kind : ℕ) (h : Z.Handle)
      → Z.socket z c kind ≡ (some h, z')
      → opened z' ≡ h ∷ opened z
  pub socket_fresh :
      (z z' : Z.State) (c : Z.Context) (kind : ℕ) (h : Z.Handle)
      → Z.socket z c kind ≡ (some h, z')
      → All (λ x. x ≢ h) (opened z)
  pub opened-init : (z : Z.State) (threads : ℤ) → opened (Z.init z threads).1 ≡ opened z
  pub opened-setsockopt :
      (z : Z.State) (h : Z.Handle) (o : ℕ) (b : Bytes) → opened (Z.setsockopt z h o b).1 ≡ opened z
  pub opened-connect :
      (z : Z.State) (h : Z.Handle) (dest : Bytes) → opened (Z.connect z h dest).1 ≡ opened z
  pub opened-close :
      (z : Z.State) (h : Z.Handle) (newer older : List Z.Handle)
      → opened z ≡ newer ++ (h ∷ older)
      → All (λ x. x ≢ h) newer
      → opened (Z.close z h).1 ≡ newer ++ older
  pub opened-poll : (z : Z.State) (h : Z.Handle) → opened (Z.poll z h).1 ≡ opened z
  pub opened-recvmsg :
      (z z' : Z.State) (h : Z.Handle) (data_bytes : Bytes)
      → Z.recvmsg z h ≡ ret (data_bytes, z')
      → opened z' ≡ opened z
  -- A context ends when its sockets are closed, and is waited for as long as they are not. What
  -- is sent is kept beside `State`, as `Sent`, so that this is about sockets that have sent
  -- nothing: zmq_term also waits for messages that are still to be sent.
  pub term_idle :
      (z : Z.State) (c : Z.Context)
      → opened z ≡ []
      → (z' : Z.State) × (Z.term z c ≡ ret (pos 0, z'))
  pub term_blocks : (z : Z.State) (c : Z.Context) → opened z ≢ [] → Z.term z c ≡ blocks

module _ (Z : Zmq) (can_alloc : Bool) where
  -- `mongrel2_ctx` holds the context alone; likewise `mongrel2_socket` its ZeroMQ socket.
  unfoldable pub init : Z.State → ℤ → Outcome (Z.Context × Z.State)
  init z threads =
      let (zmq_context, z') = Z.init z threads in
      if not can_alloc then faults else elim zmq_context [ none ↦ exits | some c ↦ ret (c, z') ]

  unfoldable pub alloc_socket : Z.State → Z.Context → ℕ → Outcome (Z.Handle × Z.State)
  alloc_socket z ctx kind =
      let (zmq_socket, z') = Z.socket z ctx kind in
      if not can_alloc then faults else elim zmq_socket [ none ↦ exits | some h ↦ ret (h, z') ]

  unfoldable pub pull_socket : Z.State → Z.Context → Outcome (Z.Handle × Z.State)
  unfolding alloc_socket
  pull_socket z ctx = alloc_socket z ctx Z.pull_type

  unfoldable pub pub_socket : Z.State → Z.Context → Outcome (Z.Handle × Z.State)
  unfolding alloc_socket
  pub_socket z ctx = alloc_socket z ctx Z.pub_type

module _ (Z : Zmq) where
  unfoldable pub deinit : Z.State → Z.Context → Outcome (ℤ × Z.State)
  deinit z ctx = do
    (zmq_retval, z') ← Z.term z ctx
    if not (eqb_ℤ zmq_retval (pos 0)) then exits else ret (pos 0, z')

  unfoldable pub set_identity : Z.State → Z.Handle → Bytes → Outcome Z.State
  set_identity z socket identity =
      let (zmq_retval, z') = Z.setsockopt z socket Z.identity_option (c_string identity) in
      if not (eqb_ℤ zmq_retval (pos 0)) then exits else ret z'

  unfoldable pub set_rcvhwm : Endian → Z.State → Z.Handle → ℕ → Outcome Z.State
  set_rcvhwm e z socket max_requests =
      let (zmq_retval, z') = Z.setsockopt z socket Z.rcvhwm_option (host_bytes e 8 max_requests) in
      if not (eqb_ℤ zmq_retval (pos 0)) then exits else ret z'

  unfoldable pub connect : Z.State → Z.Handle → Bytes → Outcome (ℤ × Z.State)
  connect z socket dest =
      let (zmq_retval, z') = Z.connect z socket dest in
      if not (eqb_ℤ zmq_retval (pos 0)) then exits else ret (pos 0, z')

  -- The socket, or its ZeroMQ socket, may be NULL.
  unfoldable pub close : Z.State → Option (Option Z.Handle) → Outcome (ℤ × Z.State)
  close z none = exits
  close z (some none) = exits
  close z (some (some zmq_socket)) = ret (pos 0, (Z.close z zmq_socket).1)

  unfoldable pub recv :
      (B : Bstrlib)
      → Scanner
      → {J : Type 0} → Z.State
      → Z.Handle
      → ℤ
      → ℤ
      → Outcome (Option (Request J) × Z.State)
  recv B scan z socket junk_header junk_body = do
    (data_bytes, z') ← Z.recvmsg z socket
    let raw_request_bstr = B.blk2bstr data_bytes (int_of_u64 (length data_bytes))
    req ← parse_request B scan raw_request_bstr junk_header junk_body
    ret (req, z')
