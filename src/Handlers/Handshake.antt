-- ===== src/Handlers/Handshake.antt =====
-- example/handlers/ws_handshake.c: greets each websocket client, and drops it at a close frame or
-- at Mongrel2's disconnect request. Its loop and its table are those of Handlers/Sessions.
use libm2handler.Base.{
  ℕ, ◌≡◌, refl, inl, inr, List, Bool, true, not, ◌&&◌, some, ℤ, pos, eqb_ℤ, Bytes, bytes_of,
  Outcome, ret, faults, ◌>>=◌, ◌==◌, Option,
}
use libm2handler.Framing.Flags.{get_opcode, op_close}
use libm2handler.Handler.Reply.{Sent}
use libm2handler.Handler.Headers.{request_for_disconnect}
use libm2handler.Session.Interfaces.{IsDict}
use libm2handler.Session.Entries.{find-without}
use libm2handler.Session.{compare_session_id}
use libm2handler.Handlers.Sessions.{
  World, Client, Node, Server, Round, Style, drop_client, on_request, session_main,
}
use libm2handler.Handlers.Sessions.Laws.{
  lookup_in, knows, farewell, drop_client_live, drop_client_dead, drop_client_dangles,
}
use libm2handler.Handlers.Sessions.Pointing.{IsPointing}

-- `SENDER`
abbrev pub sender : Bytes
sender = bytes_of "82209006-86FF-4982-B5EA-D1E29E55D483"

-- `HELLO`
abbrev pub hello : Bytes
hello = bytes_of "{\"msg\": \"hi there\"}"

-- A close frame, by its opcode.
unfoldable pub is_close_frame : ℕ → Bytes → Outcome Bool
is_close_frame len frame = do opcode ← get_opcode len frame; ret (opcode == op_close)

module _ (W : World) where
  abbrev pub handshake : Style W
  handshake = record {
    is_close = is_close_frame;
    greeting = λ rand. some hello;
    leave = drop_client W;
  }

  unfoldable pub handshake_main :
      W.Z.State → List Bytes → List (Round W) → Outcome (Option ℤ × Sent)
  handshake_main = session_main W handshake sender

  module _ (L : IsDict compare_session_id W.D) where
    -- At a disconnect request, ws_handshake.c sends its farewell to the client that disconnects,
    -- but removes from the table the client that was looked up last, whichever it is, and no
    -- other, if `tempnode` points to a node of the table. The dictionary behaves as documented.
    pub disconnect_drops_last :
        (rand : ℕ → ℕ) (q : Client W) (s : Server W) (n : Node W)
        → eqb_ℤ (request_for_disconnect W.B W.A q) (pos 1) ≡ true
        → s.tempnode ≡ some n
        → lookup_in W n.0 s.dict ≡ some n
        → (s' : Server W) × (on_request W handshake rand (some q) s ≡ ret s')
          × (s'.sent ≡ farewell W L q s)
          × ((r : Client W) → knows W s' r ≡ (not (eqb_ℤ r.conn_id n.0.conn_id) && knows W s r))
    unfolding on_request
    disconnect_drops_last rand q s n leaves points live =
        let (d, dropped, cut) = drop_client_live W L q s n points live in
        let s' : Server W = record s { dict = d; sent = farewell W L q s } in
        (s', rw (leaves, dropped), refl, λ r. rw cut (find-without r n.0 (W.D.entries s.dict)))

    two_drops :
        (q q' : Client W) (s : Server W)
        → IsPointing W s
        → (drop_client W q s >>= λ s'. drop_client W q' s') ≡ faults
    two_drops q q' s (inl null) = rw (drop_client_dead W L q s (inl null))
    two_drops q q' s (inr (n, points, inr gone)) =
        rw (drop_client_dead W L q s (inr (n, points, gone)))
    two_drops q q' s (inr (n, points, inl live)) =
        let (s', dropped, still, gone) = drop_client_dangles W L q s n points live in
        rw (dropped, drop_client_dead W L q' s' (inr (n, still, gone)))

    -- Two disconnect requests in a row, with no other message between them, make ws_handshake.c
    -- delete a node that is NULL or no longer in the table, which is undefined. Before,
    -- `tempnode` is NULL, or points to a node of the table, or to one whose client has left it.
    -- The dictionary behaves as documented.
    pub disconnect_twice :
        (rand rand' : ℕ → ℕ) (q q' : Client W) (s : Server W)
        → IsPointing W s
        → eqb_ℤ (request_for_disconnect W.B W.A q) (pos 1) ≡ true
        → eqb_ℤ (request_for_disconnect W.B W.A q') (pos 1) ≡ true
        → (on_request W handshake rand (some q) s >>= λ s'.
            on_request W handshake rand' (some q') s')
          ≡ faults
    unfolding on_request
    disconnect_twice rand rand' q q' s p leaves leaves' = rw (leaves, leaves') (two_drops q q' s p)
