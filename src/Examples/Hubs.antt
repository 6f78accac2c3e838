-- ===== src/Examples/Hubs.antt =====
-- The C++ handler at concrete inputs: example/handlers/ws_handshake.cpp.
use libm2handler.Base.{decimal, little, ◌≡◌, refl, [], ◌∷◌, Bool, false, none, some, pos, ret}
use libm2handler.Extern.{c_string}
use libm2handler.Handler.Headers.{request_for_disconnect}
use libm2handler.Session.{compare_session_id}
use libm2handler.Session.Laws.{present}
use libm2handler.Handlers.Sessions.{Client}
use libm2handler.Handlers.HandshakeCpp.{long_hello, Hub, handle}
use libm2handler.Handlers.HandshakeCpp.Laws.{serves}
use libm2handler.Handlers.HandshakeCpp.Broadcasts.{handle_silence}
use libm2handler.Websocket.Send.{text_frame}
use libm2handler.Websocket.Broadcast.{AllAddressed}
use libm2handler.Handler.Reply.{print_response}
use libm2handler.Examples.Format.{strings-IsLawful}
use libm2handler.Examples.Requests.{uuid_abc}
use libm2handler.Examples.Table.{table-IsDict, flag_mutex, flag_mutex-IsMutex}
use libm2handler.Examples.Clients.{world, leaver, silent}

abbrev pub hub : Hub world flag_mutex
hub = record {
  z = [];
  sent = [];
  sessions = record {
    dict = (leaver, record { times_seen = pos 0; user = none }) ∷ [];
    mutex = false;
  };
  shutdown = pos 0;
}

abbrev has : Hub world flag_mutex → Client world → Bool
has = serves world flag_mutex table-IsDict flag_mutex-IsMutex

pub hub-AllAddressed : AllAddressed hub.sessions.dict
unfolding AllAddressed c_string decimal
hub-AllAddressed =
    (record { uuid_is = refl; uuid_text = refl; conn_id_is = refl; conn_id_bstr_is = refl }, tt)

handle_silence_example :
    handle world flag_mutex (some silent) hub
    ≡ ret (record hub {
      sent = print_response uuid_abc (decimal 42) (text_frame little long_hello) ∷ [];
    })
handle_silence_example =
    handle_silence world flag_mutex table-IsDict flag_mutex-IsMutex strings-IsLawful silent hub
      (unfold request_for_disconnect c_string in refl) refl refl refl
      (unfold present compare_session_id in refl) hub-AllAddressed refl
