-- ===== src/Handlers/Sessions.antt =====
-- What example/handlers/ws_handshake.c and example/handlers/ws_variable.c share: the loop that
-- polls, and the table of the clients seen, by connection id. The two programs differ in what they
-- take for a close, in what they answer, and in what they do when a client leaves.
pub mod Answer
pub mod Book
pub mod Delivery
pub mod Greeting
pub mod Invariant
pub mod Laws
pub mod Message
pub mod Opened
pub mod Pointing
pub mod Stop
pub mod Visit
pub mod Run
use libm2handler.Base.{
  ℕ, [], ◌∷◌, List, Bool, true, not, Option, none, some, ℤ, pos, eqb_ℤ, ltb_ℤ, ltb, ◌==◌,
  if◌then◌else◌, length, Bytes, bytes_of, Outcome, ret, exits, ◌>>=◌, ◌>>◌, check, Endian,
}
use libm2handler.Extern.{Bstring, Bstrlib, Scanner, Jansson, blength}
use libm2handler.Handler.Request.{Request, add_int}
use libm2handler.Handler.Reply.{Sent, contents, disconnect}
use libm2handler.Handler.Headers.{request_for_disconnect}
use libm2handler.Handler.Socket.{Zmq, recv}
use libm2handler.Session.{SessionData, compare_session_id, Table}
use libm2handler.Websocket.Send.{ws_reply}
use libm2handler.Websocket.Handshake.{reply_upgrade}
use libm2handler.Handlers.SetUp.{Ends, target, open_sockets, close_sockets, signals}

-- `compare_session` is the comparison of src/websocket_session.c, written again.
abbrev pub compare_session : {J : Type 0} → Request J → Request J → ℤ
compare_session = compare_session_id

-- What the two programs do not own: memory, SHA-1, bstrlib, jansson, `sscanf`, ZeroMQ and the
-- dictionary; with the byte order of the machine, and whether the build dumps frames.
pub record World : Type 1 where
  pub e : Endian
  pub can_alloc : ℕ → Bool
  pub dump : Bool
  pub sha1 : Bytes → Bytes
  pub B : Bstrlib
  pub A : Jansson
  pub scan : Scanner
  pub Z : Zmq
  pub D : Table A.Json

module _ (W : World) where
  abbrev pub Client : Type 0
  Client = Request W.A.Json

  abbrev pub Node : Type 0
  Node = Client × SessionData

  -- The variables of `main` that outlive a round. `tempnode` points to a node or is NULL.
  pub record Server : Type 0 where
    pub z : W.Z.State
    pub sent : Sent
    pub dict : W.D.T
    pub tempnode : Option Node
    pub shutdown : ℤ

  -- What a round meets: the signals before the test of `shutdown`, the values of the
  -- uninitialised lengths of the parser, and the numbers that `rand` gives.
  pub record Round : Type 0 where
    pub arriving : List ℕ
    pub junk_header : ℤ
    pub junk_body : ℤ
    pub rand : ℕ → ℕ

  pub record Style : Type 0 where
    pub is_close : ℕ → Bytes → Outcome Bool
    pub greeting : (ℕ → ℕ) → Bstring
    pub leave : Client → Server → Outcome Server

  -- The lookup of a client, which adds a new one and counts a known one.
  unfoldable pub meet : Client → Server → Outcome (Client × Server)
  meet request s = elim (W.D.lookup s.dict request) [
    | none ↦
        let (r, sent', request') = reply_upgrade W.can_alloc W.sha1 W.B W.A request s.sent in
        (do
          (retval, dict') ←
              W.D.alloc_insert s.dict request' (record { times_seen = pos 0; user = none })
          check (eqb_ℤ retval (pos 1))
          ret (request', record s { sent = sent'; dict = dict'; tempnode = none }))
    | some (key, counter) ↦ (do
      times ← add_int counter.times_seen (pos 1)
      let counter' = record counter { times_seen = times }
      ret (
        request,
        record s { dict = W.D.set_data s.dict key counter'; tempnode = some (key, counter') },
      ))
  ]

  -- `dict_delete_free(dict,tempnode)` and `mongrel2_disconnect`.
  unfoldable pub drop_client : Client → Server → Outcome Server
  drop_client request s = do
    dict' ← W.D.delete_free s.dict s.tempnode
    let (r, sent₁) = disconnect W.B (some s.sent) (some request)
    sent' ← target sent₁
    ret (record s { dict = dict'; sent = sent' })

  module _ (style : Style) where
    -- What follows the lookup.
    unfoldable pub answer : (ℕ → ℕ) → Client → Server → Outcome Server
    unfolding drop_client
    answer rand request s =
        if ltb 0 (blength request.body)
        then elim s.tempnode [
          | none ↦ ret s
          | some node ↦ (do
            closing ← style.is_close (blength request.body) (contents request.body)
            if closing then drop_client request s else ret s)
        ]
        else (do
          (r, sent') ← ws_reply W.e W.can_alloc W.dump W.B s.sent request (style.greeting rand)
          ret (record s { sent = sent' }))

    -- The two branches behind `mongrel2_recv`.
    unfoldable pub on_request : (ℕ → ℕ) → Option Client → Server → Outcome Server
    unfolding meet answer
    on_request rand received s = do
      request ← target received
      if not (eqb_ℤ (request_for_disconnect W.B W.A request) (pos 1))
          then (do (request', s') ← meet request s; answer rand request' s')
          else style.leave request s

    unfoldable pub round : W.Z.Handle → Round → Server → Outcome Server
    unfolding on_request
    round pull r s =
        let (poll_response, z₁) = W.Z.poll s.z pull in
        if ltb_ℤ (pos 0) poll_response
        then (do
          (received, z₂) ← recv W.Z W.B W.scan z₁ pull r.junk_header r.junk_body
          on_request r.rand received (record s { z = z₂ }))
        else if ltb_ℤ poll_response (pos 0)
        then ret (record s { z = z₁; shutdown = pos 1 })
        else ret (record s { z = z₁ })

    -- The loop, cut off when the rounds are used up.
    unfoldable pub session_loop : W.Z.Handle → List Round → Server → Outcome Server
    unfolding round
    session_loop pull [] s = ret s
    session_loop pull (r ∷ rounds) s = do
      stop ← signals r.arriving s.shutdown
      if eqb_ℤ stop (pos 1)
          then ret (record s { shutdown = stop })
          else (do s' ← round pull r (record s { shutdown = stop }); session_loop pull rounds s')

    -- The return value of `main`, `none` as long as it runs, and what was sent.
    unfoldable pub session_main :
        Bytes → W.Z.State → List Bytes → List Round → Outcome (Option ℤ × Sent)
    unfolding session_loop
    session_main identity z (pull_arg ∷ pub_arg ∷ []) rounds = do
      (ends, z₁) ← open_sockets W.Z W.B z (pos 1) pull_arg pub_arg (some identity)
      s ←
          session_loop ends.pull rounds
            (record { z = z₁; sent = []; dict = W.D.create; tempnode = none; shutdown = pos 0 })
      if eqb_ℤ s.shutdown (pos 1)
          then (do (status, z₂) ← close_sockets W.Z W.B s.z ends; ret (some status, s.sent))
          else ret (none, s.sent)
    session_main identity z args rounds = exits
