-- ===== src/Examples/Runs.antt =====
-- Runs of the three handlers of websocket clients: example/handlers/.
use libm2handler.Base.{
  ◌≡◌, refl, [], ◌∷◌, arith, false, none, some, pos, ℕ, List, eqb_ℤ, if◌then◌else◌, ret,
}
use libm2handler.Extern.{c_string}
use libm2handler.Handler.Reply.{Sent}
use libm2handler.Handler.Headers.{request_for_disconnect}
use libm2handler.Handler.Socket.{init, pull_socket, pub_socket, connect, set_identity}
use libm2handler.Handlers.SetUp.{Ends, open_sockets}
use libm2handler.Session.{compare_session_id}
use libm2handler.Session.Laws.{present}
use libm2handler.Handlers.Sessions.{session_loop}
use libm2handler.Handlers.Sessions.Book.{Book, Keeps, drop_last}
use libm2handler.Handlers.Sessions.Delivery.{Rounds, Hears, Delivers, after, MainAs, RunsAs}
use libm2handler.Handlers.Sessions.Run.{blank, KeepsAt, session_loop-book}
use libm2handler.Handlers.Handshake.{sender, handshake, handshake_main}
use libm2handler.Handlers.Variable.{variable_main}
use libm2handler.Handlers.Books.{
  handshake_attend, handshake_main-book, close_byte, handshake-Behaves,
}
use libm2handler.Handlers.Books.Steady.{NoneLeaves, handshake_main-steady, variable_main-steady}
use libm2handler.Handlers.HandshakeCpp.{hub_main, hub_loop}
use libm2handler.Handlers.HandshakeCpp.Room.{attend, Stands}
use libm2handler.Handlers.HandshakeCpp.Run.{hub_main-room, hub_loop-room, StandsAt}
use libm2handler.Examples.Strings.{scan-IsScanner}
use libm2handler.Examples.Format.{strings-IsLawful}
use libm2handler.Examples.Table.{table-IsDict, flag_mutex, flag_mutex-IsMutex}
use libm2handler.Examples.Queue.{queue, question, question-IsProper}
use libm2handler.Examples.Clients.{world, calm, server, node}
use libm2handler.Examples.Hubs.{hub, hub-AllAddressed}

-- The same message, twice, and then nothing more is looked at.
abbrev two_rounds : Rounds world
two_rounds = (some question, calm) ∷ (some question, calm) ∷ []

abbrev open_ends : Ends queue
open_ends = record { ctx = pos 1; pull = 0; pub_end = 1 }

set_up :
    open_sockets queue world.B [] (pos 1) sender sender (some sender) ≡ ret (open_ends, 1 ∷ 0 ∷ [])
unfolding open_sockets init pull_socket connect pub_socket set_identity c_string
set_up = refl

two_delivered : Delivers world 0 (1 ∷ 0 ∷ []) two_rounds
unfolding Delivers Hears
two_delivered = (
  1 ∷ 0 ∷ [],
  (refl, refl, question-IsProper),
  refl,
  (1 ∷ 0 ∷ [], (refl, refl, question-IsProper), refl, tt),
)

none_leaves : NoneLeaves world two_rounds
unfolding NoneLeaves request_for_disconnect c_string
none_leaves = (refl, (refl, tt))

hub-Stands :
    Stands world flag_mutex table-IsDict flag_mutex-IsMutex
      (λ i. eqb_ℤ i (pos 42))
      (record hub { z = 1 ∷ 0 ∷ [] })
unfolding present compare_session_id
hub-Stands = (refl, hub-AllAddressed, λ r. ground arith)

-- The one client of `server`, which was looked up last.
abbrev one_known : Book
one_known = record { seen = λ i. if eqb_ℤ i (pos 42) then some 3 else none; last = some (pos 42) }

server-Keeps : Keeps world one_known (record server { z = 1 ∷ 0 ∷ [] })
unfolding compare_session_id
server-Keeps = (λ r. ground arith, (node, refl, refl, λ t h. refl))

hub_main-room_example :
    MainAs
      (hub_main world flag_mutex [] (sender ∷ sender ∷ []) (calm ∷ calm ∷ []))
      (after world (attend world) two_rounds (λ i. false))
hub_main-room_example =
    hub_main-room world flag_mutex table-IsDict flag_mutex-IsMutex strings-IsLawful scan-IsScanner
      refl refl [] (1 ∷ 0 ∷ []) sender sender open_ends two_rounds set_up two_delivered

handshake_main-book_example :
    MainAs
      (handshake_main world [] (sender ∷ sender ∷ []) (calm ∷ calm ∷ []))
      (after world (handshake_attend world) two_rounds blank)
handshake_main-book_example =
    handshake_main-book world table-IsDict strings-IsLawful scan-IsScanner refl refl [] (1 ∷ 0 ∷ [])
      sender sender open_ends two_rounds set_up two_delivered

variable_main-steady_example :
    (sent : Sent) × (variable_main world [] (sender ∷ sender ∷ []) (calm ∷ calm ∷ [])
      ≡ ret (none, sent))
variable_main-steady_example =
    variable_main-steady world table-IsDict strings-IsLawful scan-IsScanner refl [] (1 ∷ 0 ∷ [])
      sender sender open_ends two_rounds set_up two_delivered (omega arith) refl

handshake_main-steady_example :
    (sent : Sent) × (handshake_main world [] (sender ∷ sender ∷ []) (calm ∷ calm ∷ [])
      ≡ ret (none, sent))
handshake_main-steady_example =
    handshake_main-steady world table-IsDict strings-IsLawful scan-IsScanner refl [] (1 ∷ 0 ∷ [])
      sender sender open_ends two_rounds set_up two_delivered (omega arith) refl none_leaves

hub_loop-room_example :
    RunsAs
      (λ room s.
        (z : List ℕ) × StandsAt world flag_mutex table-IsDict flag_mutex-IsMutex strings-IsLawful
          scan-IsScanner refl refl z room s)
      (hub_loop world flag_mutex 0 (calm ∷ calm ∷ []) (record hub { z = 1 ∷ 0 ∷ [] }))
      (after world (attend world) two_rounds (λ i. eqb_ℤ i (pos 42)))
hub_loop-room_example =
    hub_loop-room world flag_mutex table-IsDict flag_mutex-IsMutex strings-IsLawful scan-IsScanner
      refl refl 0 two_rounds (λ i. eqb_ℤ i (pos 42)) (record hub { z = 1 ∷ 0 ∷ [] }) two_delivered
      refl hub-Stands

session_loop-book_example :
    RunsAs
      (λ b s.
        (z : List ℕ) × KeepsAt world table-IsDict strings-IsLawful scan-IsScanner refl
          (handshake world)
          close_byte
          drop_last
          (handshake-Behaves world table-IsDict strings-IsLawful scan-IsScanner refl refl)
          z
          b
          s)
      (session_loop world (handshake world) 0 (calm ∷ calm ∷ []) (record server { z = 1 ∷ 0 ∷ [] }))
      (after world (handshake_attend world) two_rounds one_known)
session_loop-book_example =
    session_loop-book world table-IsDict strings-IsLawful scan-IsScanner refl (handshake world)
      close_byte drop_last
      (handshake-Behaves world table-IsDict strings-IsLawful scan-IsScanner refl refl) 0 two_rounds
      one_known (record server { z = 1 ∷ 0 ∷ [] }) two_delivered refl server-Keeps
