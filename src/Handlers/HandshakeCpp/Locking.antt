-- ===== src/Handlers/HandshakeCpp/Locking.antt =====
-- The mutex of the table between the rounds of the C++ program.
use libm2handler.Base.{
  ℕ, inl, inr, refl, [], ◌∷◌, List, Bool-cases, Option, none, some, ℤ, pos, eqb_ℤ, ltb_ℤ, ltb, ◌==◌,
  if◌then◌else◌, ret, ◌>>=◌, Always, Always-bind, Always-after,
}
use libm2handler.Extern.{blength, Bstring}
use libm2handler.Framing.Flags.{get_opcode, op_close}
use libm2handler.Handler.Reply.{Sent, contents}
use libm2handler.Handler.Headers.{request_for_disconnect}
use libm2handler.Session.Interfaces.{IsDict, Pthread, IsMutex}
use libm2handler.Session.{compare_session_id, Sessions}
use libm2handler.Session.Laws.{Idle, lock-Idle, unlock_held}
use libm2handler.Websocket.Send.{run_dump}
use libm2handler.Websocket.Broadcast.{send_each, broadcast}
use libm2handler.Handlers.SetUp.{signals}
use libm2handler.Handlers.Sessions.{World, Client, Round}
use libm2handler.Handlers.HandshakeCpp.{long_hello, Hub, respond, handle, hub_round, hub_loop}
use libm2handler.Handlers.HandshakeCpp.Laws.{serves, IsIdle, admit_lem, handle_disconnect}

module _ (W : World) (P : Pthread) (L : IsDict compare_session_id W.D) (M : IsMutex P) where
  abbrev Frees : ℤ × Sent × Sessions W.D P → Type 0
  Frees r = Idle W.D L P M r.2

  broadcast-Idle :
      (sent : Sent) (ses : Sessions W.D P) (message : Bstring)
      → Idle W.D L P M ses
      → Always (broadcast W.e W.can_alloc W.dump W.B W.D P sent ses message) Frees
  unfolding broadcast
  broadcast-Idle sent ses message idle =
      rw (lock-Idle W.D L P M ses idle, unlock_held W.D L P M ses.dict)
        (Always-after {A = Sent} Frees
          (send_each W.e W.can_alloc W.dump W.B (W.D.entries ses.dict) sent message) _ λ r. refl)

  respond-IsIdle :
      (q : Client W) (s : Hub W P) → IsIdle W P L M s → Always (respond W P q s) (IsIdle W P L M)
  unfolding respond
  respond-IsIdle q s idle = elim (Bool-cases (ltb 0 (blength q.body))) [
    | inr empty ↦ rw empty (
        Always-bind {A = ℤ × Sent × Sessions W.D P} Frees (IsIdle W P L M)
          (broadcast W.e W.can_alloc W.dump W.B W.D P s.sent s.sessions (some long_hello)) _
          (broadcast-Idle s.sent s.sessions (some long_hello) idle) λ r idle'. idle')
    | inl filled ↦ rw filled (
        Always-after {A = ℕ} (IsIdle W P L M) (get_opcode (blength q.body) (contents q.body)) _
          λ opcode. elim (Bool-cases (opcode == op_close)) [
            | inl closing ↦ rw closing idle
            | inr open_still ↦ rw open_still (
                Always-after {A = Unit {0}} (IsIdle W P L M)
                  (run_dump W.e W.can_alloc W.dump (blength q.body) (contents q.body)) (λ u. ret s)
                  λ u. idle)
          ])
  ]

  handle-IsIdle :
      (received : Option (Client W)) (s : Hub W P)
      → IsIdle W P L M s
      → Always (handle W P received s) (IsIdle W P L M)
  unfolding handle
  handle-IsIdle none s idle = tt
  handle-IsIdle (some q) s idle =
      elim (Bool-cases (eqb_ℤ (request_for_disconnect W.B W.A q) (pos 1))) [
        | inr stays ↦
            let (q', s', admitted, idle', _, _) = admit_lem W P L M q s idle in
            rw (stays, admitted) (respond-IsIdle q' s' idle')
        | inl leaves ↦ elim (Bool-cases (serves W P L M s q)) [
          | inl there ↦
              let (s', left, idle', _) = (handle_disconnect W P L M q s leaves idle).0 there in
              rw left idle'
          | inr absent ↦ rw ((handle_disconnect W P L M q s leaves idle).1 absent) tt
        ]
      ]

  hub_round-IsIdle :
      (pull : W.Z.Handle) (r : Round W) (s : Hub W P)
      → IsIdle W P L M s
      → Always (hub_round W P pull r s) (IsIdle W P L M)
  unfolding hub_round
  hub_round-IsIdle pull r s idle = elim (Bool-cases (ltb_ℤ (pos 0) (W.Z.poll s.z pull).0)) [
    | inl waits ↦ rw waits (
        Always-after {A = Option (Client W) × W.Z.State} (IsIdle W P L M) _ _
          λ got. handle-IsIdle got.0 (record s { z = got.1 }) idle)
    | inr quiet ↦ rw quiet idle
  ]

  next-IsIdle :
      (pull : W.Z.Handle) (r : Round W) (rounds : List (Round W)) (s : Hub W P) (stop : ℤ)
      → IsIdle W P L M s
      → ((s' : Hub W P) → IsIdle W P L M s' → Always (hub_loop W P pull rounds s') (IsIdle W P L M))
      → Always
          (if eqb_ℤ stop (pos 1)
            then ret (record s { shutdown = stop })
            else (hub_round W P pull r (record s { shutdown = stop }) >>= hub_loop W P pull rounds))
          (IsIdle W P L M)
  next-IsIdle pull r rounds s stop idle later = elim (Bool-cases (eqb_ℤ stop (pos 1))) [
    | inl stopped ↦ rw stopped idle
    | inr on ↦ rw on (
        Always-bind {A = Hub W P} (IsIdle W P L M) (IsIdle W P L M) _ _
          (hub_round-IsIdle pull r (record s { shutdown = stop }) idle) later)
  ]

  -- Over any number of rounds of the C++ handler, if the loop returns, the mutex of its table is
  -- free. It is free before the first round. The dictionary and the mutex behave as documented.
  hub_loop-IsIdle :
      (pull : W.Z.Handle) (rounds : List (Round W)) (s : Hub W P)
      → IsIdle W P L M s
      → Always (hub_loop W P pull rounds s) (IsIdle W P L M)
  unfolding hub_loop
  hub_loop-IsIdle pull [] s idle = idle
  hub_loop-IsIdle pull (r ∷ rounds) s idle =
      Always-after {A = ℤ} (IsIdle W P L M) (signals r.arriving s.shutdown) _ λ stop.
        next-IsIdle pull r rounds s stop idle λ s' idle'. hub_loop-IsIdle pull rounds s' idle'
