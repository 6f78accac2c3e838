-- ===== src/Handlers/HandshakeCpp.antt =====
-- example/handlers/ws_handshake.cpp: keeps its clients in the table of src/websocket_session.c, and
-- answers a message without a body with a broadcast. Its loop is cut off as in Handlers/Sessions.
pub mod Laws
pub mod Broadcasts
pub mod Locking
pub mod Room
pub mod Run
use libm2handler.Base.{
  ℕ, [], ◌∷◌, List, Bool, not, Option, none, some, ℤ, pos, eqb_ℤ, ltb_ℤ, ltb, ◌==◌, if◌then◌else◌,
  Bytes, bytes_of, Outcome, ret, exits, ◌>>=◌, ◌>>◌,
}
use libm2handler.Extern.{blength}
use libm2handler.Framing.Flags.{get_opcode, op_close}
use libm2handler.Handler.Reply.{Sent, contents, disconnect}
use libm2handler.Handler.Headers.{request_for_disconnect}
use libm2handler.Handler.Socket.{recv}
use libm2handler.Session.Interfaces.{Pthread}
use libm2handler.Session.{Sessions, init, unlock, contains, add, remove}
use libm2handler.Websocket.Send.{run_dump}
use libm2handler.Websocket.Broadcast.{broadcast}
use libm2handler.Websocket.Handshake.{reply_upgrade}
use libm2handler.Handlers.SetUp.{target, open_sockets, call_for_stop, signals}
use libm2handler.Handlers.Sessions.{World, Client, Round}
use libm2handler.Handlers.Handshake.{sender}

-- The handler of SIGINT, written again.
abbrev pub hub_call_for_stop : ℕ → ℤ → Outcome ℤ
hub_call_for_stop = call_for_stop

-- `HELLO`
abbrev pub long_hello : Bytes
long_hello =
    bytes_of
      "{\"message\": \"{\\\"guid\\\": \\\"63636330350000000000000000000000\\\"}\", \"metadata\": \"{\\\"participant\\\": \\\"ccc05-03\\\", \\\"timestamp_second\\\": \\\"1326922280\\\", \\\"timestamp_nanosec\\\": \\\"553700663\\\", \\\"instance_handle\\\": 12287918211081, \\\"topic\\\": \\\"HeartBeat_Pulse\\\"}\"}"

module _ (W : World) (P : Pthread) where
  -- The variables of `main` that outlive a round.
  pub record Hub : Type 0 where
    pub z : W.Z.State
    pub sent : Sent
    pub sessions : Sessions W.D P
    pub shutdown : ℤ

  -- The lookup, which adds a new client.
  unfoldable pub admit : Client W → Hub → Outcome (Client W × Hub)
  admit request s = do
    (contained, ses) ← contains W.D P s.sessions request
    if not (eqb_ℤ contained (pos 0))
        then ret (request, record s { sessions = ses })
        else (let (r, sent', request') = reply_upgrade W.can_alloc W.sha1 W.B W.A request s.sent in
            (do
              (r₂, ses') ← add W.D P ses request'
              ret (request', record s { sent = sent'; sessions = ses' })))

  -- What follows the lookup. `frame_debug` runs in debug builds alone.
  unfoldable pub respond : Client W → Hub → Outcome Hub
  respond request s =
      if ltb 0 (blength request.body)
      then (do
        opcode ← get_opcode (blength request.body) (contents request.body)
        if opcode == op_close then ret s else (do
          run_dump W.e W.can_alloc W.dump (blength request.body) (contents request.body)
          ret s))
      else (do
        (r, sent', ses) ←
            broadcast W.e W.can_alloc W.dump W.B W.D P s.sent s.sessions (some long_hello)
        ret (record s { sent = sent'; sessions = ses }))

  unfoldable pub depart : Client W → Hub → Outcome Hub
  depart request s = do
    (r, ses) ← remove W.D P s.sessions request
    let (r₂, sent₁) = disconnect W.B (some s.sent) (some request)
    sent' ← target sent₁
    ret (record s { sent = sent'; sessions = ses })

  -- The two branches behind `mongrel2_recv`.
  unfoldable pub handle : Option (Client W) → Hub → Outcome Hub
  unfolding admit respond depart
  handle received s = do
    request ← target received
    if not (eqb_ℤ (request_for_disconnect W.B W.A request) (pos 1))
        then (do (request', s') ← admit request s; respond request' s')
        else depart request s

  -- A failed poll changes nothing.
  unfoldable pub hub_round : W.Z.Handle → Round W → Hub → Outcome Hub
  unfolding handle
  hub_round pull r s =
      let (poll_response, z₁) = W.Z.poll s.z pull in
      if ltb_ℤ (pos 0) poll_response
      then (do
        (received, z₂) ← recv W.Z W.B W.scan z₁ pull r.junk_header r.junk_body
        handle received (record s { z = z₂ }))
      else ret (record s { z = z₁ })

  unfoldable pub hub_loop : W.Z.Handle → List (Round W) → Hub → Outcome Hub
  unfolding hub_round
  hub_loop pull [] s = ret s
  hub_loop pull (r ∷ rounds) s = do
    stop ← signals r.arriving s.shutdown
    if eqb_ℤ stop (pos 1)
        then ret (record s { shutdown = stop })
        else (do s' ← hub_round pull r (record s { shutdown = stop }); hub_loop pull rounds s')

  -- The table as `main` makes it: `init` leaves it locked.
  unfoldable pub first_sessions : Outcome (Sessions W.D P)
  first_sessions = do (r, ses) ← init W.D P; unlock W.D P ses

  -- The return value of `main`, `none` as long as it runs, and what was sent. The sockets stay
  -- open.
  unfoldable pub hub_main : W.Z.State → List Bytes → List (Round W) → Outcome (Option ℤ × Sent)
  unfolding hub_loop first_sessions
  hub_main z (pull_arg ∷ pub_arg ∷ []) rounds = do
    (ends, z₁) ← open_sockets W.Z W.B z (pos 1) pull_arg pub_arg (some sender)
    ses ← first_sessions
    s ← hub_loop ends.pull rounds (record { z = z₁; sent = []; sessions = ses; shutdown = pos 0 })
    ret (if eqb_ℤ s.shutdown (pos 1) then some (pos 0) else none, s.sent)
  hub_main z args rounds = exits
