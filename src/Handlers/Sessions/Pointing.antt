-- ===== src/Handlers/Sessions/Pointing.antt =====
-- Where `tempnode` points in the whole of a run.
use libm2handler.Base.{
  ℕ, ◌≡◌, ◌⊎◌, inl, inr, refl, List, Bool, Bool-cases, true, false, Option, Option-cases, none,
  some, ℤ, pos, eqb_ℤ, ltb, if◌then◌else◌, ret, Always, Always-bind, Always-after, Always-when,
}
use libm2handler.Extern.{blength}
use libm2handler.Handler.Reply.{Sent}
use libm2handler.Handler.Headers.{request_for_disconnect}
use libm2handler.Handler.Socket.{recv}
use libm2handler.Session.Interfaces.{IsDict}
use libm2handler.Session.{compare_session_id}
use libm2handler.Websocket.Send.{ws_reply}
use libm2handler.Handlers.Sessions.{
  World, Client, Node, Server, Round, Style, meet, drop_client, answer, on_request, session_loop,
}
use libm2handler.Handlers.Sessions.Invariant.{session_loop-Always}
use libm2handler.Handlers.Sessions.Laws.{
  lookup_in, drop_client_dead, drop_client_dangles, meet_new, meet_known, recount, meet_overflow,
  add_int-cases,
}

module _ (W : World) where
  -- `tempnode` is NULL, or points to a node of the table, or to one that has been deleted.
  abbrev pub IsPointing : Server W → Type 0
  IsPointing s =
      (s.tempnode ≡ none)
      ⊎ ((n : Node W) × (s.tempnode ≡ some n)
          × ((lookup_in W n.0 s.dict ≡ some n) ⊎ (lookup_in W n.0 s.dict ≡ none)))

  module _ (L : IsDict compare_session_id W.D) where
    pub drop_client-IsPointing :
        (q : Client W) (s : Server W) → IsPointing s → Always (drop_client W q s) IsPointing
    drop_client-IsPointing q s (inl null) = rw (drop_client_dead W L q s (inl null)) tt
    drop_client-IsPointing q s (inr (n, points, inl live)) =
        let (s', done, same, gone) = drop_client_dangles W L q s n points live in
        rw done (inr (n, same, inr gone))
    drop_client-IsPointing q s (inr (n, points, inr gone)) =
        rw (drop_client_dead W L q s (inr (n, points, gone))) tt

    meet-IsPointing : (q : Client W) (s : Server W) → Always (meet W q s) (λ r. IsPointing r.1)
    meet-IsPointing q s = elim (Option-cases (lookup_in W q s.dict)) [
      | inl absent ↦
          let (q', s', done, null, _, _) = meet_new W L q s (rw absent) in rw done (inl null)
      | inr (n, there) ↦ elim (add_int-cases n.1.times_seen (pos 1)) [
        | inl (times, counted) ↦
            let (done, _, live, _) = meet_known W L q s n times there counted in
            rw done (inr (recount W L n times, refl, inl live))
        | inr over ↦ rw (meet_overflow W L q s n there over) tt
      ]
    ]

    module _ (style : Style W)
        (leaves : (q : Client W) (s : Server W)
          → IsPointing s
          → Always (style.leave q s) IsPointing) where
      closing-IsPointing :
          (closing : Bool) (q : Client W) (s : Server W)
          → IsPointing s
          → Always (if closing then drop_client W q s else ret s) IsPointing
      closing-IsPointing true q s p = drop_client-IsPointing q s p
      closing-IsPointing false q s p = p

      answer-IsPointing :
          (rand : ℕ → ℕ) (q : Client W) (s : Server W)
          → IsPointing s
          → Always (answer W style rand q s) IsPointing
      unfolding answer
      answer-IsPointing rand q s p = elim (Bool-cases (ltb 0 (blength q.body))) [
        | inr empty ↦ rw empty (
            Always-after {A = ℤ × Sent} IsPointing
              (ws_reply W.e W.can_alloc W.dump W.B s.sent q (style.greeting rand))
              (λ r. ret (record s { sent = r.1 })) λ r. p)
        | inl filled ↦ elim (Option-cases s.tempnode) [
          | inl null ↦ rw (filled, null) p
          | inr (n, points) ↦
              rw (filled, points)
                (Always-after {A = Bool} IsPointing _ _ λ closing. closing-IsPointing closing q s p)
        ]
      ]

      on_request-IsPointing :
          (rand : ℕ → ℕ) (received : Option (Client W)) (s : Server W)
          → IsPointing s
          → Always (on_request W style rand received s) IsPointing
      unfolding on_request
      on_request-IsPointing rand none s p = tt
      on_request-IsPointing rand (some q) s p =
          elim (Bool-cases (eqb_ℤ (request_for_disconnect W.B W.A q) (pos 1))) [
            | inl left ↦ rw left (leaves q s p)
            | inr stays ↦ rw stays (
                Always-bind {A = Client W × Server W} (λ r. IsPointing r.1) IsPointing _ _
                  (meet-IsPointing q s) λ r p'. answer-IsPointing rand r.0 r.1 p')
          ]

      -- Over any number of rounds, if the loop returns, `tempnode` is NULL, or points to a node
      -- of the table as it stands there, or to one whose client is no longer in the table. It is
      -- so before the first round, and what is done when a client leaves keeps it so. The
      -- dictionary behaves as documented.
      pub session_loop-IsPointing :
          (pull : W.Z.Handle) (rounds : List (Round W)) (s : Server W)
          → IsPointing s
          → Always (session_loop W style pull rounds s) IsPointing
      session_loop-IsPointing pull rounds s p =
          session_loop-Always W style IsPointing pull (λ s n p. p) (λ s p. p)
            (λ s junk_header junk_body p.
              Always-when _ (recv W.Z W.B W.scan {J = W.A.Json} s.z pull junk_header junk_body)
                λ got e. p)
            on_request-IsPointing rounds s p
