-- ===== src/Examples/Clients.antt =====
-- The handlers of websocket clients at concrete inputs: example/handlers/.
use libm2handler.Base.{
  ℕ, ◌==◌, ◌++◌, ◌≡◌, inl, inr, refl, [], ◌∷◌, Bool, true, false, none, some, pos, if◌then◌else◌,
  Bytes, All, bytes_of, length, decimal, little, replicate, ◌-ℤ◌, ◌+ℤ◌, ret, faults, ◌>>=◌, Always,
}
use libm2handler.Extern.{Jansson, c_string}
use libm2handler.Handler.Request.{add_int, parse_request, netstring}
use libm2handler.Handler.Reply.{reply}
use libm2handler.Handler.Headers.{get_header, request_for_disconnect, disconnect_text}
use libm2handler.Handler.Socket.{deinit, recv, init, pull_socket, pub_socket, connect, set_identity}
use libm2handler.Handler.Parse.{message}
use libm2handler.Handler.Netstring.{print_netstring}
use libm2handler.Websocket.Handshake.{reply_upgrade, upgrade_headers, calculate_accept, accept_of}
use libm2handler.Handlers.Incoming.{request_of}
use libm2handler.Session.{compare_session_id}
use libm2handler.Handlers.SetUp.{sigint, signals, open_sockets}
use libm2handler.Handlers.Sessions.{
  World, Client, Node, Server, Round, meet, answer, on_request, round, session_loop, session_main,
}
use libm2handler.Handlers.Sessions.Laws.{knows}
use libm2handler.Handlers.Sessions.Pointing.{
  IsPointing, drop_client-IsPointing, session_loop-IsPointing,
}
use libm2handler.Handlers.Sessions.Opened.{drop_client-Keeps}
use libm2handler.Handlers.Sessions.Stop.{start, session_main-stops}
use libm2handler.Handlers.Handshake.{sender, handshake, disconnect_twice}
use libm2handler.Handlers.Variable.{genrandmsg, IsLetter, genrandmsg_lem}
use libm2handler.Examples.Strings.{scan}
use libm2handler.Examples.Format.{strings, strings-IsLawful}
use libm2handler.Examples.Requests.{client}
use libm2handler.Examples.Table.{table, table-IsDict}
use libm2handler.Examples.Queue.{queue, queue-IsZmq, opened-nil, question}

-- JSON reduced to the length of its text. A text of four bytes is an object whose every member
-- reads "disconnect", and no other has a member.
abbrev lengths : Jansson
lengths = record {
  Json = ℕ;
  loads = λ t. elim t [ none ↦ none | some s ↦ some (length s) ];
  is_object = λ j. true;
  object_get = λ o key. o;
  string_value =
      λ o. elim o [ none ↦ none | some n ↦ if n == 4 then some disconnect_text else none ];
}

abbrev pub world : World
world = record {
  e = little;
  can_alloc = λ n. true;
  dump = false;
  sha1 = λ b. replicate 20 b'z';
  B = strings;
  A = lengths;
  scan = scan;
  Z = queue;
  D = table;
}

-- A close frame, no body, and a text that reads as a disconnect request.
abbrev closer : Client world
closer = client none (136 ∷ 0 ∷ [])

abbrev pub silent : Client world
silent = client none []

abbrev pub leaver : Client world
leaver = client none (b'b' ∷ b'y' ∷ b'e' ∷ b'!' ∷ [])

abbrev pub newcomer : Client world
newcomer = record (client none (129 ∷ 0 ∷ [])) { conn_id = pos 7; conn_id_bstr = some (decimal 7) }

abbrev pub node : Node world
node = (silent, record { times_seen = pos 3; user = none })

abbrev counted : Node world
counted = (silent, record { times_seen = pos 4; user = none })

abbrev pub server : Server world
server = record { z = []; sent = []; dict = node ∷ []; tempnode = some node; shutdown = pos 0 }

server-IsPointing : IsPointing world server
unfolding compare_session_id
server-IsPointing = inr (node, refl, inl refl)

abbrev rand : ℕ → ℕ
rand n = n

abbrev known : Server world → Client world → Bool
known = knows world

abbrev pub calm : Round world
calm = record { arriving = []; junk_header = pos 0; junk_body = pos 0; rand = rand }

abbrev stopped : Round world
stopped = record { arriving = sigint ∷ []; junk_header = pos 0; junk_body = pos 0; rand = rand }

session_loop-IsPointing_example :
    Always (session_loop world (handshake world) 0 (calm ∷ calm ∷ []) server) (IsPointing world)
session_loop-IsPointing_example =
    session_loop-IsPointing world table-IsDict (handshake world)
      (drop_client-IsPointing world table-IsDict) 0 (calm ∷ calm ∷ []) server server-IsPointing

disconnect_twice_example :
    (on_request world (handshake world) rand (some leaver) server >>= λ s'.
    on_request world (handshake world) rand (some leaver) s')
    ≡ faults
disconnect_twice_example =
    disconnect_twice world table-IsDict rand rand leaver leaver server server-IsPointing
      (unfold request_for_disconnect c_string in refl)
      (unfold request_for_disconnect c_string in refl)

genrandmsg_example :
    (data_part : Bytes) × (genrandmsg strings rand
      ≡ some (bytes_of "Len: 64536 Data: " ++ data_part))
    × (length data_part ≡ 64536)
    × All IsLetter data_part
genrandmsg_example = genrandmsg_lem strings strings-IsLawful rand

-- The server after the one message that waits.
abbrev one_served : Server world
one_served = record {
  z = 1 ∷ 0 ∷ [];
  sent = [];
  dict =
      (
        record (request_of question) { headers = some 2 },
        record { times_seen = pos 0; user = none },
      )
      ∷ [];
  tempnode = none;
  shutdown = pos 0;
}

served_one :
    session_loop world (handshake world) 0 (calm ∷ []) (start world (handshake world) (1 ∷ 0 ∷ []))
    ≡ ret one_served
unfolding session_loop round on_request meet answer recv signals parse_request message decimal
    print_netstring ◌-ℤ◌ ◌+ℤ◌ netstring add_int c_string request_for_disconnect reply_upgrade
    upgrade_headers calculate_accept accept_of get_header reply
served_one = refl

session_main-stops_example :
    (z' : _) × (queue-IsZmq.opened z' ≡ [])
    × (session_main world
          (handshake world)
          sender
          []
          (sender ∷ sender ∷ [])
          (calm ∷ stopped ∷ calm ∷ [])
        ≡ (deinit queue z' (pos 1) >>= λ t. ret (some (pos 0), [])))
session_main-stops_example =
    session_main-stops world (handshake world) strings-IsLawful queue-IsZmq
      (drop_client-Keeps world) sender sender sender [] (1 ∷ 0 ∷ [])
      (record { ctx = pos 1; pull = 0; pub_end = 1 }) (calm ∷ []) (calm ∷ []) stopped one_served
      opened-nil
      (unfold open_sockets init pull_socket connect pub_socket set_identity c_string in refl)
      served_one refl refl
