-- ===== src/Examples/Sockets.antt =====
-- The websocket handler at concrete inputs: src/websocket.c.
use libm2handler.Base.{
  ℕ, faults, ◌≡◌, refl, arith, [], ◌∷◌, ◌++◌, Bool, true, false, none, some, pos, replicate, Bytes,
  ret, little, decimal,
}
use libm2handler.Extern.{Jansson, c_string}
use libm2handler.Handler.Reply.{print_response}
use libm2handler.Websocket.Send.{ws_reply, ws_reply_lem, ws_reply_dump, text_frame}
use libm2handler.Websocket.Wire.{rfc_decode, ws_reply-rfc_decode}
use libm2handler.Websocket.Handshake.{upgrade_front, upgrade_back, reply_upgrade}
use libm2handler.Websocket.Accept.{reply_upgrade_lem, reply_upgrade_without_key}
use libm2handler.Handler.Request.{Request}
use libm2handler.Session.{SessionData, Sessions}
use libm2handler.Websocket.Broadcast.{AllAddressed, broadcast, broadcast_lem}
use libm2handler.Examples.Table.{table, table-IsDict, flag_mutex, flag_mutex-IsMutex}
use libm2handler.Examples.Format.{strings, strings-IsLawful}
use libm2handler.Examples.Requests.{uuid_abc, client, client-Addressed, json}

abbrev enough : ℕ → Bool
enough n = true

-- `hello`
abbrev hello : Bytes
hello = b'h' ∷ b'e' ∷ b'l' ∷ b'l' ∷ b'o' ∷ []

ws_reply_example :
    ws_reply little enough false strings {J = ℕ} [] (client none []) (some hello)
    ≡ ret (pos 0, print_response uuid_abc (decimal 42) (text_frame little hello) ∷ [])
ws_reply_example =
    ws_reply_lem little enough strings strings-IsLawful {J = ℕ} (client none []) uuid_abc 42
      (client-Addressed none []) [] hello (omega arith)

ws_reply-rfc_decode_example :
    (frame : Bytes) × (ws_reply little enough false strings {J = ℕ} [] (client none []) (some hello)
      ≡ ret (pos 0, print_response uuid_abc (decimal 42) frame ∷ []))
    × (rfc_decode frame ≡ some (129, hello, []))
ws_reply-rfc_decode_example =
    ws_reply-rfc_decode little enough strings strings-IsLawful {J = ℕ} (client none []) uuid_abc 42
      (client-Addressed none []) [] hello (omega arith) refl

-- A digest of twenty equal bytes.
abbrev digest : Bytes → Bytes
digest b = replicate 20 b'z'

reply_upgrade_example : reply_upgrade enough digest strings json (client (some hello) []) [] ≡ (
  pos 0,
  print_response uuid_abc (decimal 42) (upgrade_front ++ (replicate 20 b'z' ++ upgrade_back)) ∷ [],
  client (some hello) [],
)
reply_upgrade_example =
    reply_upgrade_lem enough digest strings strings-IsLawful json (client (some hello) []) hello
      refl uuid_abc 42 (client-Addressed (some hello) []) [] hello (replicate 20 b'z') refl refl
      (unfold c_string in refl) refl refl (unfold c_string in refl)

-- JSON objects without any member.
abbrev bare : Jansson
bare = record {
  Json = Bytes;
  loads = λ t. t;
  is_object = λ j. true;
  object_get = λ o key. none;
  string_value = λ o. o;
}

reply_upgrade_without_key_example :
    reply_upgrade enough digest strings bare (client (some hello) []) []
    ≡ (pos 0, [], client (some hello) [])
reply_upgrade_without_key_example =
    reply_upgrade_without_key enough digest strings strings-IsLawful bare (client (some hello) [])
      hello refl uuid_abc 42 (client-Addressed (some hello) []) [] refl

abbrev second : Request ℕ
second = record (client none []) { conn_id = pos 7; conn_id_bstr = some (decimal 7) }

abbrev seen : SessionData
seen = record { times_seen = pos 0; user = none }

abbrev two_sessions : Sessions table flag_mutex
two_sessions = record { dict = (second, seen) ∷ (client none [], seen) ∷ []; mutex = false }

two_sessions-AllAddressed : AllAddressed two_sessions.dict
unfolding AllAddressed c_string
two_sessions-AllAddressed = (
  record { uuid_is = refl; uuid_text = refl; conn_id_is = refl; conn_id_bstr_is = refl },
  (client-Addressed none [], tt),
)

broadcast_example :
    broadcast little enough false strings table flag_mutex [] two_sessions (some hello)
    ≡ ret (
      pos 0,
      print_response uuid_abc (decimal 7) (text_frame little hello)
          ∷ print_response uuid_abc (decimal 42) (text_frame little hello)
          ∷ [],
      two_sessions,
    )
broadcast_example =
    broadcast_lem little enough strings strings-IsLawful hello (omega arith) refl table table-IsDict
      flag_mutex flag_mutex-IsMutex two_sessions refl [] two_sessions-AllAddressed (omega arith)

ws_reply_dump_example :
    ws_reply little enough true strings {J = ℕ} [] (client none []) (some hello) ≡ faults
ws_reply_dump_example =
    ws_reply_dump little enough strings strings-IsLawful {J = ℕ} (client none []) uuid_abc 42
      (client-Addressed none []) [] hello (omega arith) refl (omega arith) (omega arith)
