-- ===== src/Handlers/HandshakeCpp/Broadcasts.antt =====
-- A message without a body: the greeting goes to every client of the C++ program.
use libm2handler.Base.{◌≡◌, arith, [], ◌++◌, map, true, false, some, pos, eqb_ℤ, length, ret}
use libm2handler.Extern.{IsLawful}
use libm2handler.Framing.Fresh.{frame_size}
use libm2handler.Handler.Headers.{request_for_disconnect}
use libm2handler.Session.Interfaces.{IsDict, Pthread, IsMutex}
use libm2handler.Session.{compare_session_id}
use libm2handler.Session.Laws.{contains_lem}
use libm2handler.Websocket.Send.{text_frame}
use libm2handler.Websocket.Broadcast.{AllAddressed, response_to, broadcast_lem}
use libm2handler.Handlers.Sessions.{World, Client}
use libm2handler.Handlers.HandshakeCpp.{long_hello, Hub, admit, respond, handle}
use libm2handler.Handlers.HandshakeCpp.Laws.{serves, IsIdle}

module _ (W : World) (P : Pthread) (L : IsDict compare_session_id W.D) (M : IsMutex P)
    (S : IsLawful W.B) where
  -- A message without a body from one of its clients makes the C++ handler send the text frame of
  -- its greeting to every client of the table, in the order of the table, and change nothing
  -- else, in a build without the frame dump. The requests of the table are all ones that Mongrel2
  -- sent, the mutex is free before, the frame is allocated, and the message is not a disconnect
  -- request. The dictionary, the mutex and the string functions behave as documented.
  pub handle_silence :
      (q : Client W) (s : Hub W P)
      → eqb_ℤ (request_for_disconnect W.B W.A q) (pos 1) ≡ false
      → q.body ≡ some []
      → W.dump ≡ false
      → IsIdle W P L M s
      → serves W P L M s q ≡ true
      → AllAddressed (W.D.entries s.sessions.dict)
      → W.can_alloc (frame_size false (length long_hello)) ≡ true
      → handle W P (some q) s
        ≡ ret (record s {
          sent =
              s.sent ++ map (response_to (text_frame W.e long_hello)) (W.D.entries s.sessions.dict);
        })
  unfolding handle admit respond
  handle_silence q s stays empty no_dump idle there clients memory = rw (
    stays,
    contains_lem W.D L P M s.sessions q idle,
    there,
    empty,
    no_dump,
    broadcast_lem W.e W.can_alloc W.B S long_hello (omega arith) memory W.D L P M s.sessions idle
        s.sent clients (omega arith),
  )
