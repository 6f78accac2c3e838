-- ===== src/Handlers/HandshakeCpp/Room.antt =====
-- A message to the C++ program against the set of its clients.
use libm2handler.Base.{
  inl, inr, refl, ◌≡◌, ◌∙◌, sym, ap, [], ◌∷◌, ◌++◌, map, Bool, Bool-cases, true, false, not, ◌&&◌,
  ◌||◌, Option, none, some, ℤ, pos, eqb_ℤ, if◌then◌else◌, Outcome, ret, faults, arith, length,
  Bytes,
}
use libm2handler.Extern.{IsLawful}
use libm2handler.Framing.Fresh.{frame_size}
use libm2handler.Handler.Reply.{reply, disconnect}
use libm2handler.Session.Interfaces.{IsDict, Pthread, IsMutex}
use libm2handler.Session.{compare_session_id}
use libm2handler.Session.Entries.{find-place, find-without}
use libm2handler.Session.Laws.{
  present, fresh_data, contains_lem, add_absent, remove-present, misuse,
}
use libm2handler.Websocket.Send.{text_frame}
use libm2handler.Websocket.Broadcast.{
  AllAddressed, AllAddressed-place, AllAddressed-without, SelfAddressed, SelfAddressed-cong,
  response_to, broadcast_lem,
}
use libm2handler.Websocket.Handshake.{reply_upgrade}
use libm2handler.Handlers.Incoming.{Incoming, IsProper, request_of, request_of-Addressed}
use libm2handler.Handlers.Sessions.{World, Client}
use libm2handler.Handlers.Sessions.Laws.{reply_upgrade-fields}
use libm2handler.Handlers.Sessions.Delivery.{leaves}
use libm2handler.Handlers.HandshakeCpp.{long_hello, Hub, admit, respond, depart, handle}
use libm2handler.Handlers.HandshakeCpp.Laws.{serves, serves_there, IsIdle, respond_lem}

-- The connection ids of the clients.
abbrev pub Room : Type 0
Room = ℤ → Bool

abbrev pub joined : ℤ → Room → Room
joined i room = λ j. eqb_ℤ j i || room j

abbrev pub left : ℤ → Room → Room
left i room = λ j. not (eqb_ℤ j i) && room j

-- The abstract machine: a disconnect request of a stranger has no successor.
abbrev pub attend : (W : World) → Incoming → Room → Option Room
attend W m room =
    if leaves W m
    then (if room (pos m.id) then some (left (pos m.id) room) else none)
    else some (joined (pos m.id) room)

module _ (W : World) (P : Pthread) (L : IsDict compare_session_id W.D) (M : IsMutex P) where
  -- The mutex is free, Mongrel2 sent the requests of the table, and they are those of the room.
  abbrev pub Stands : Room → Hub W P → Type 0
  Stands room s =
      IsIdle W P L M s
      × AllAddressed (W.D.entries s.sessions.dict)
      × ((r : Client W) → serves W P L M s r ≡ room r.conn_id)

  -- The second comes from the first by a message: only the table and what was sent differ.
  abbrev pub Within : Hub W P → Hub W P → Type 0
  Within s s' = (s'.z ≡ s.z) × (s'.shutdown ≡ s.shutdown)

  admit-Stands :
      (room : Room) (q : Client W) (s : Hub W P)
      → Stands room s
      → SelfAddressed q
      → (q' : Client W) × (s' : Hub W P) × (admit W P q s ≡ ret (q', s'))
        × (q'.body ≡ q.body)
        × Within s s'
        × Stands (joined q.conn_id room) s'
  unfolding admit present
  admit-Stands room q s (idle, clients, who) A = elim (Bool-cases (serves W P L M s q)) [
    | inl there ↦ (
      q,
      s,
      rw (contains_lem W.D L P M s.sessions q idle, there) refl,
      refl,
      (refl, refl),
      (
        idle,
        clients,
        λ r. serves_there W P L M q r s there ∙ ap (λ b. eqb_ℤ r.conn_id q.conn_id || b) (who r),
      ),
    )
    | inr fresh ↦
        let q' : Client W = (reply_upgrade W.can_alloc W.sha1 W.B W.A q s.sent).2 in
        let (same_id, same_body, same_uuid, same_bstr) = reply_upgrade-fields W q s.sent in
        let (ses, added, idle', placed) =
          add_absent W.D L P M s.sessions q' idle
            (who q' ∙ ap room same_id ∙ sym (who q) ∙ fresh) in
        (
          q',
          record s { sent = (reply_upgrade W.can_alloc W.sha1 W.B W.A q s.sent).1; sessions = ses },
          rw (contains_lem W.D L P M s.sessions q idle, fresh, added) refl,
          same_body,
          (refl, refl),
          (
            idle',
            rw placed (
                AllAddressed-place q' fresh_data (W.D.entries s.sessions.dict)
                  (SelfAddressed-cong q q' same_uuid same_id same_bstr A) clients),
            λ r.
                rw placed (find-place r q' fresh_data (W.D.entries s.sessions.dict))
                ∙ ap (λ b. eqb_ℤ r.conn_id q'.conn_id || b) (who r)
                ∙ ap (λ c. eqb_ℤ r.conn_id c || room r.conn_id) same_id,
          ),
        )
  ]

  -- What one of the two machines does, the other does.
  abbrev pub Follows : Hub W P → Outcome (Hub W P) → Option Room → Type 0
  Follows s o none = o ≡ faults
  Follows s o (some room) = (s' : Hub W P) × (o ≡ ret s') × Within s s' × Stands room s'

  module _ (S : IsLawful W.B) (no_dump : W.dump ≡ false)
      (memory : W.can_alloc (frame_size false (length long_hello)) ≡ true) where
    respond-Stands :
        (room : Room) (q : Client W) (s : Hub W P) (body : Bytes)
        → q.body ≡ some body
        → Stands room s
        → (s' : Hub W P) × (respond W P q s ≡ ret s') × Within s s' × Stands room s'
    unfolding respond
    respond-Stands room q s [] empty (idle, clients, who) = (
      record s {
        sent =
            s.sent ++ map (response_to (text_frame W.e long_hello)) (W.D.entries s.sessions.dict);
      },
      rw
          (
            empty,
            no_dump,
            broadcast_lem W.e W.can_alloc W.B S long_hello (omega arith) memory W.D L P M s.sessions
                idle s.sent clients (omega arith),
          )
          refl,
      (refl, refl),
      (idle, clients, who),
    )
    respond-Stands room q s (c ∷ cs) filled stands =
        (s, respond_lem W P L M q s c cs filled no_dump, (refl, refl), stands)

    depart-Stands :
        (room : Room) (q : Client W) (s : Hub W P)
        → Stands room s
        → room q.conn_id ≡ true
        → (s' : Hub W P) × (depart W P q s ≡ ret s') × Within s s' × Stands (left q.conn_id room) s'
    unfolding depart disconnect present
    depart-Stands room q s (idle, clients, who) there =
        let (ses, removed, idle', cut) =
          remove-present W.D L P M s.sessions q idle (who q ∙ there) in
        (
          record s { sent = (reply W.B s.sent q (W.B.bfromcstr (some []))).1; sessions = ses },
          rw removed refl,
          (refl, refl),
          (
            idle',
            rw cut (AllAddressed-without q (W.D.entries s.sessions.dict) clients),
            λ r.
                rw cut (find-without r q (W.D.entries s.sessions.dict))
                ∙ ap (λ b. not (eqb_ℤ r.conn_id q.conn_id) && b) (who r),
          ),
        )

    depart_stranger :
        (q : Client W) (s : Hub W P)
        → IsIdle W P L M s
        → serves W P L M s q ≡ false
        → depart W P q s ≡ faults
    unfolding depart
    depart_stranger q s idle absent = rw ((misuse W.D L P M s.sessions q idle).1 absent)

    pub handle-Follows :
        (room : Room) (m : Incoming) (s : Hub W P)
        → Stands room s
        → IsProper m
        → Follows s (handle W P (some (request_of m)) s) (attend W m room)
    unfolding handle
    handle-Follows room m s (idle, clients, who) proper = elim (Bool-cases (leaves W m)) [
      | inr stays ↦
          let A = request_of-Addressed {Value = W.A.Json} m proper.uuid_text in
          let (q', s₁, admitted, same_body, (same_z, same_stop), stands₁) =
            admit-Stands room (request_of m) s (idle, clients, who) A in
          let (s', answered, (same_z', same_stop'), stands') =
            respond-Stands (joined (pos m.id) room) q' s₁ m.body same_body stands₁ in
          rw (stays, admitted, answered)
            (s', refl, (same_z' ∙ same_z, same_stop' ∙ same_stop), stands')
      | inl goes ↦ elim (Bool-cases (room (pos m.id))) [
        | inl there ↦
            rw (goes, there) (depart-Stands room (request_of m) s (idle, clients, who) there)
        | inr stranger ↦
            rw (goes, stranger)
              (depart_stranger (request_of m) s idle (who (request_of m) ∙ stranger))
      ]
    ]
