-- ===== src/Handlers/HandshakeCpp/Laws.antt =====
-- The clients of the C++ program, as a set of connection ids.
use libm2handler.Base.{
  ℕ, suc, bit_and, lt→ltb, arith, length, ◌≡◌, inl, inr, refl, ◌∙◌, ap, [], ◌∷◌, Bool, Bool-cases,
  true, false, not, ◌&&◌, ◌||◌, some, pos, eqb_ℤ, eqb_ℤ_iff, ◌==◌, Bytes, ret, faults,
}
use libm2handler.Framing.Flags.{get_opcode, op_close}
use libm2handler.Handler.Reply.{reply, disconnect}
use libm2handler.Handler.Headers.{request_for_disconnect}
use libm2handler.Session.Interfaces.{IsDict, Pthread, IsMutex}
use libm2handler.Session.{compare_session_id, Sessions, init}
use libm2handler.Session.Entries.{found, find_cong}
use libm2handler.Session.Laws.{
  present, Idle, lock-Idle, unlock_held, contains_lem, present-add, present-remove, misuse,
}
use libm2handler.Websocket.Send.{run_dump}
use libm2handler.Websocket.Handshake.{reply_upgrade}
use libm2handler.Handlers.Sessions.{World, Client}
use libm2handler.Handlers.Sessions.Laws.{reply_upgrade-fields}
use libm2handler.Handlers.HandshakeCpp.{Hub, admit, respond, depart, handle, first_sessions}

module _ (W : World) (P : Pthread) (L : IsDict compare_session_id W.D) (M : IsMutex P) where
  abbrev pub serves : Hub W P → Client W → Bool
  serves s q = present W.D L P M s.sessions q

  abbrev pub IsIdle : Hub W P → Type 0
  IsIdle s = Idle W.D L P M s.sessions

  serves_cong : (q r : Client W) (s : Hub W P) → r.conn_id ≡ q.conn_id → serves s r ≡ serves s q
  unfolding present
  serves_cong q r s same = ap found (find_cong r q (W.D.entries s.sessions.dict) same)

  pub serves_there :
      (q r : Client W) (s : Hub W P)
      → serves s q ≡ true
      → serves s r ≡ (eqb_ℤ r.conn_id q.conn_id || serves s r)
  serves_there q r s there = elim (Bool-cases (eqb_ℤ r.conn_id q.conn_id)) [
    | inl same ↦ rw same (serves_cong q r s ((eqb_ℤ_iff r.conn_id q.conn_id).0 same) ∙ there)
    | inr other ↦ rw other refl
  ]

  -- After the lookup the client is in the table, new or not.
  pub admit_lem :
      (q : Client W) (s : Hub W P)
      → IsIdle s
      → (q' : Client W) × (s' : Hub W P) × (admit W P q s ≡ ret (q', s'))
        × IsIdle s'
        × (q'.body ≡ q.body)
        × ((r : Client W) → serves s' r ≡ (eqb_ℤ r.conn_id q.conn_id || serves s r))
  unfolding admit
  admit_lem q s idle = elim (Bool-cases (serves s q)) [
    | inl there ↦ (
      q,
      s,
      rw (contains_lem W.D L P M s.sessions q idle, there) refl,
      idle,
      refl,
      λ r. serves_there q r s there,
    )
    | inr fresh ↦
        let q' : Client W = (reply_upgrade W.can_alloc W.sha1 W.B W.A q s.sent).2 in
        let (same_id, same_body, _, _) = reply_upgrade-fields W q s.sent in
        let (ses, added, idle', grown) =
          present-add W.D L P M s.sessions q' idle (serves_cong q q' s same_id ∙ fresh) in
        (
          q',
          record s { sent = (reply_upgrade W.can_alloc W.sha1 W.B W.A q s.sent).1; sessions = ses },
          rw (contains_lem W.D L P M s.sessions q idle, fresh, added) refl,
          idle',
          same_body,
          λ r. grown r ∙ ap (λ c. eqb_ℤ r.conn_id c || serves s r) same_id,
        )
  ]

  pub respond_lem :
      (q : Client W) (s : Hub W P) (c : ℕ) (cs : Bytes)
      → q.body ≡ some (c ∷ cs)
      → W.dump ≡ false
      → respond W P q s ≡ ret s
  unfolding respond run_dump get_opcode
  respond_lem q s c cs filled no_dump =
      rw (filled, no_dump, lt→ltb 0 (suc (length cs)) (omega arith))
        (elim (Bool-cases (bit_and c 0x0F == op_close)) [
          | inl closing ↦ rw closing refl
          | inr open_still ↦ rw open_still refl
        ])

  -- A message with a body, which is not a disconnect request, adds its client to the clients of
  -- the C++ handler and no other, and leaves the mutex free, in a build without the frame dump.
  -- The mutex is free before. The dictionary and the mutex behave as documented.
  pub handle_message :
      (q : Client W) (s : Hub W P) (c : ℕ) (cs : Bytes)
      → eqb_ℤ (request_for_disconnect W.B W.A q) (pos 1) ≡ false
      → q.body ≡ some (c ∷ cs)
      → W.dump ≡ false
      → IsIdle s
      → (s' : Hub W P) × (handle W P (some q) s ≡ ret s')
        × IsIdle s'
        × ((r : Client W) → serves s' r ≡ (eqb_ℤ r.conn_id q.conn_id || serves s r))
  unfolding handle
  handle_message q s c cs stays filled no_dump idle =
      let (q', s', admitted, idle', same_body, grown) = admit_lem q s idle in
      (s', rw (stays, admitted, respond_lem q' s' c cs (same_body ∙ filled) no_dump), idle', grown)

  -- A disconnect request from one of its clients removes that client from the clients of the C++
  -- handler and no other, and leaves the mutex free; one from anyone else hands a NULL node to
  -- the dictionary, which is undefined. The mutex is free before. The dictionary and the mutex
  -- behave as documented.
  pub handle_disconnect :
      (q : Client W) (s : Hub W P)
      → eqb_ℤ (request_for_disconnect W.B W.A q) (pos 1) ≡ true
      → IsIdle s
      → (serves s q ≡ true
          → (s' : Hub W P) × (handle W P (some q) s ≡ ret s')
            × IsIdle s'
            × ((r : Client W) → serves s' r ≡ (not (eqb_ℤ r.conn_id q.conn_id) && serves s r)))
        × (serves s q ≡ false → handle W P (some q) s ≡ faults)
  unfolding handle depart disconnect
  handle_disconnect q s leaves idle = (
    λ there.
        let (ses, removed, idle', cut) = present-remove W.D L P M s.sessions q idle there in
        (
          record s { sent = (reply W.B s.sent q (W.B.bfromcstr (some []))).1; sessions = ses },
          rw (leaves, removed) refl,
          idle',
          cut,
        ),
    λ absent. rw (leaves, (misuse W.D L P M s.sessions q idle).1 absent),
  )

  -- The C++ handler starts, after `init` and the `unlock` that follows it, with a table that has
  -- no client and whose mutex is free. The dictionary and the mutex behave as documented.
  pub first_sessions_lem :
      (ses : Sessions W.D P) × (first_sessions W P ≡ ret ses)
      × Idle W.D L P M ses
      × ((r : Client W) → present W.D L P M ses r ≡ false)
  unfolding first_sessions init present
  first_sessions_lem = (
    record { dict = W.D.create; mutex = P.init },
    rw (
      lock-Idle W.D L P M (record { dict = W.D.create; mutex = P.init }) refl,
      unlock_held W.D L P M W.D.create,
    ),
    refl,
    λ r. rw L.entries-create refl,
  )
