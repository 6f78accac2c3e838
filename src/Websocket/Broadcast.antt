-- ===== src/Websocket/Broadcast.antt =====
-- `mongrel2_ws_broadcast`: src/websocket.c, lines 89 to 110. An allocated dictionary holds no NULL
-- key, so that the two assertions of the loop hold.
use libm2handler.Base.{
  Bool-cases, inl, inr, eqb_ℤ, ltb_ℤ, ℕ, ◌+◌, ◌^◌, ◌<◌, ◌≡◌, ap, [], ◌∷◌, ◌++◌, append-nil,
  append_assoc, map, List, Bool, true, false, some, ℤ, pos, pos_part, length, Bytes, Outcome, ret,
  ◌>>=◌, Endian, decimal,
}
use libm2handler.Extern.{Bstring, Bstrlib, IsLawful}
use libm2handler.Framing.Fresh.{frame_size}
use libm2handler.Handler.Request.{Request}
use libm2handler.Handler.Reply.{Sent, contents, Addressed, print_response}
use libm2handler.Session.Interfaces.{IsDict, Pthread, IsMutex, place, without}
use libm2handler.Session.{SessionData, compare_session_id, Table, Sessions, lock, unlock}
use libm2handler.Session.Laws.{lock-Idle, unlock_held, restored}
use libm2handler.Websocket.Send.{ws_reply, ws_reply_lem, text_frame}

module _ (e : Endian) (can_alloc : ℕ → Bool) (dump : Bool) (B : Bstrlib) {J : Type 0} where
  -- The loop over the nodes. The result of each `mongrel2_ws_reply` is dropped.
  unfoldable pub send_each : List (Request J × SessionData) → Sent → Bstring → Outcome Sent
  send_each [] sent message = ret sent
  send_each ((req, seen) ∷ nodes) sent message = do
    (retval, sent') ← ws_reply e can_alloc dump B sent req message
    send_each nodes sent' message

  unfoldable pub broadcast :
      (D : Table J) (P : Pthread)
      → Sent
      → Sessions D P
      → Bstring
      → Outcome (ℤ × Sent × Sessions D P)
  unfolding send_each
  broadcast D P pub_socket ses message = do
    ses' ← lock D P ses
    sent ← send_each (D.entries ses'.dict) pub_socket message
    ses'' ← unlock D P ses'
    ret (pos 0, sent, ses'')

-- Whether each request is one that Mongrel2 sent.
unfoldable pub AllAddressed : {J : Type 0} → List (Request J × SessionData) → Type 0
AllAddressed [] = Unit {0}
AllAddressed ((req, seen) ∷ nodes) =
    Addressed req (contents req.uuid) (pos_part req.conn_id) × AllAddressed nodes

-- A request that Mongrel2 sent, by its own fields.
abbrev pub SelfAddressed : {J : Type 0} → Request J → Type 0
SelfAddressed req = Addressed req (contents req.uuid) (pos_part req.conn_id)

pub SelfAddressed-cong :
    {J : Type 0} (q q' : Request J)
    → q'.uuid ≡ q.uuid
    → q'.conn_id ≡ q.conn_id
    → q'.conn_id_bstr ≡ q.conn_id_bstr
    → SelfAddressed q
    → SelfAddressed q'
SelfAddressed-cong q q' same_uuid same_id same_bstr A = record {
  uuid_is = rw same_uuid A.uuid_is;
  uuid_text = rw same_uuid A.uuid_text;
  conn_id_is = rw same_id A.conn_id_is;
  conn_id_bstr_is = rw (same_bstr, same_id) A.conn_id_bstr_is;
}

pub AllAddressed-place :
    {J : Type 0} (req : Request J) (seen : SessionData) (nodes : List (Request J × SessionData))
    → SelfAddressed req
    → AllAddressed nodes
    → AllAddressed (place compare_session_id req seen nodes)
unfolding AllAddressed
AllAddressed-place req seen [] A all = (A, tt)
AllAddressed-place req seen ((j, w) ∷ nodes) A all =
    elim (Bool-cases (ltb_ℤ (compare_session_id req j) (pos 0))) [
      | inl smaller ↦ rw smaller (A, all)
      | inr larger ↦ rw larger (all.0, AllAddressed-place req seen nodes A all.1)
    ]

pub AllAddressed-without :
    {J : Type 0} (req : Request J) (nodes : List (Request J × SessionData))
    → AllAddressed nodes
    → AllAddressed (without compare_session_id req nodes)
unfolding AllAddressed
AllAddressed-without req [] all = tt
AllAddressed-without req ((j, w) ∷ nodes) all =
    elim (Bool-cases (eqb_ℤ (compare_session_id req j) (pos 0))) [
      | inl same ↦ rw same (AllAddressed-without req nodes all.1)
      | inr other ↦ rw other (all.0, AllAddressed-without req nodes all.1)
    ]

-- The response to one node's client.
abbrev pub response_to : {J : Type 0} → Bytes → Request J × SessionData → Bytes
response_to frame (req, seen) =
    print_response (contents req.uuid) (decimal (pos_part req.conn_id)) frame

module _ (e : Endian) (can_alloc : ℕ → Bool) (B : Bstrlib) (L : IsLawful B) {J : Type 0}
    (payload : Bytes) (small : length payload + 14 < 2 ^ 31)
    (memory : can_alloc (frame_size false (length payload)) ≡ true) where
  send_each_lem :
      (nodes : List (Request J × SessionData)) (sent : Sent)
      → AllAddressed nodes
      → 0 < length payload
      → send_each e can_alloc false B nodes sent (some payload)
        ≡ ret (sent ++ map (response_to (text_frame e payload)) nodes)
  unfolding send_each AllAddressed
  send_each_lem [] sent clients some_there = rw (append-nil sent)
  send_each_lem ((req, seen) ∷ nodes) sent clients some_there =
      let response : Bytes = response_to (text_frame e payload) (req, seen) in
      rw
        (
          ws_reply_lem e can_alloc B L req _ _ clients.0 sent payload small,
          memory,
          send_each_lem nodes (sent ++ (response ∷ [])) clients.1 some_there,
        )
        (ap ret
          (append_assoc sent (response ∷ []) (map (response_to (text_frame e payload)) nodes)))

  module _ (D : Table J) (dicts : IsDict compare_session_id D) (P : Pthread) (M : IsMutex P)
      (ses : Sessions D P) (idle : ses.mutex ≡ P.init) (sent : Sent)
      (clients : AllAddressed (D.entries ses.dict)) where
    -- On a table whose mutex is free and whose requests are all ones that Mongrel2 sent,
    -- `broadcast` sends every client of the table, in the order of the table, one response with
    -- the text frame of the payload, returns 0, and leaves the table and its mutex as they were,
    -- in a build without the frame dump. The payload is not empty and is shorter than 2^31 - 14
    -- bytes, and the allocations succeed.
    pub broadcast_lem :
        0 < length payload
        → broadcast e can_alloc false B D P sent ses (some payload)
          ≡ ret (pos 0, sent ++ map (response_to (text_frame e payload)) (D.entries ses.dict), ses)
    unfolding broadcast
    broadcast_lem some_there = rw (
      lock-Idle D dicts P M ses idle,
      send_each_lem (D.entries ses.dict) sent clients some_there,
      unlock_held D dicts P M ses.dict,
      restored D dicts P M ses idle,
    )
