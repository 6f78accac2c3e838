-- ===== src/Handlers/Sessions/Stop.antt =====
-- How the programs end: example/handlers/ws_handshake.c and example/handlers/ws_variable.c.
use libm2handler.Base.{
  aborts, faults, blocks, exits, Outcome, Option, ◌≡◌, ◌≢◌, inl, inr, refl, sym, ◌∙◌, ap, [], ◌∷◌,
  ◌++◌, List, Bool-cases, true, none, some, ℤ, pos, eqb_ℤ, Bytes, ret, ◌>>=◌, Always, Always-ret,
  returned, ret-injective, ExitsOr-ret,
}
use libm2handler.Extern.{IsLawful}
use libm2handler.Handler.Reply.{Sent}
use libm2handler.Handler.Socket.{IsZmq, deinit}
use libm2handler.Handlers.SetUp.{Ends, sigint, signals, open_sockets}
use libm2handler.Handlers.Shutdown.{AreOpen, open_sockets-AreOpen, close_sockets-deinit}
use libm2handler.Handlers.Sessions.{
  World, Client, Server, Round, Style, round, session_loop, session_main,
}
use libm2handler.Handlers.Sessions.Opened.{Keeps, session_loop-Holds}

after_deinit :
    {A : Type 0} (o : Outcome (ℤ × A)) (sent : Sent)
    → ◌≡◌ {A = Outcome (Option ℤ × Sent)}
        (◌>>=◌ {A = ℤ × A}
          (◌>>=◌ {B = ℤ × A} o (λ t. ret (pos 0, t.1)))
          (λ r. ret (some r.0, sent)))
        (o >>= λ t. ret (some (pos 0), sent))
after_deinit (ret t) sent = refl
after_deinit aborts sent = refl
after_deinit faults sent = refl
after_deinit blocks sent = refl
after_deinit exits sent = refl

stopped-ne-running : (stop : ℤ) → eqb_ℤ stop (pos 1) ≡ true → stop ≢ pos 0
stopped-ne-running stop stopped runs = cc (runs, stopped)

module _ (W : World) (style : Style W) where
  -- The loop does the rounds one after the other, as long as nothing stops it.
  session_loop-append :
      (pull : W.Z.Handle) (xs ys : List (Round W)) (s s' : Server W)
      → session_loop W style pull xs s ≡ ret s'
      → s'.shutdown ≡ pos 0
      → session_loop W style pull (xs ++ ys) s ≡ session_loop W style pull ys s'
  unfolding session_loop
  session_loop-append pull [] ys s s' done runs =
      ap (session_loop W style pull ys) (sym (ret-injective done))
  session_loop-append pull (r ∷ xs) ys s s' done runs =
      let (stop, signalled, rest) = returned (signals r.arriving s.shutdown) _ s' done in
      elim (Bool-cases (eqb_ℤ stop (pos 1))) [
        | inl stopped ↦
            let same : s' ≡ record s { shutdown = stop } = ret-injective (rw stopped at rest) in
            absurd (stopped-ne-running stop stopped (sym (ap (λ x. x.shutdown) same) ∙ runs))
        | inr on ↦
            let (s₁, went, later) =
              returned (round W style pull r (record s { shutdown = stop })) _ s' (rw on at rest) in
            rw (signalled, on, went) (session_loop-append pull xs ys s₁ s' later runs)
      ]

  session_loop-stops :
      (pull : W.Z.Handle) (r : Round W) (rounds : List (Round W)) (s : Server W)
      → r.arriving ≡ sigint ∷ []
      → s.shutdown ≡ pos 0
      → session_loop W style pull (r ∷ rounds) s ≡ ret (record s { shutdown = pos 1 })
  unfolding session_loop signals
  session_loop-stops pull r rounds s arrives runs = rw (arrives, runs) refl

  -- The variables of `main` before the first round.
  abbrev pub start : W.Z.State → Server W
  start z₁ = record { z = z₁; sent = []; dict = W.D.create; tempnode = none; shutdown = pos 0 }

  module _ (S : IsLawful W.B) (L : IsZmq W.Z)
      (leaves : (q : Client W) (s : Server W) → Always (style.leave q s) (Keeps W s.z)) where
    -- If `main` of a websocket handler has opened its sockets, has done some rounds without being
    -- stopped, and one SIGINT arrives before the next round, it does no further round, closes
    -- both its sockets, and ends as `deinit` does on a context without an open socket: it returns
    -- 0, with what it sent until then, if `deinit` returns. Before, no socket was open; what is
    -- done when a client leaves does not touch ZeroMQ. ZeroMQ keeps its book of open sockets and
    -- the string functions behave as documented.
    pub session_main-stops :
        (identity pull_arg pub_arg : Bytes) (z z₁ : W.Z.State) (ends : Ends W.Z)
        (before after : List (Round W)) (r : Round W) (s : Server W)
        → L.opened z ≡ []
        → open_sockets W.Z W.B z (pos 1) pull_arg pub_arg (some identity) ≡ ret (ends, z₁)
        → session_loop W style ends.pull before (start z₁) ≡ ret s
        → s.shutdown ≡ pos 0
        → r.arriving ≡ sigint ∷ []
        → (z' : W.Z.State) × (L.opened z' ≡ [])
          × (session_main W style identity z (pull_arg ∷ pub_arg ∷ []) (before ++ (r ∷ after))
              ≡ (deinit W.Z z' ends.ctx >>= λ t. ret (some (pos 0), s.sent)))
    unfolding session_main
    session_main-stops identity pull_arg pub_arg z z₁ ends before after r s idle set_up served runs
          arrives =
        let open_now : AreOpen W.Z L [] (ends, z₁) = rw idle at (
          ExitsOr-ret (AreOpen W.Z L (L.opened z)) _ (ends, z₁)
            (open_sockets-AreOpen W.Z L W.B S z (pos 1) pull_arg pub_arg (some identity)) set_up) in
        let still_open : L.opened s.z ≡ L.opened z₁ =
          Always-ret _ (session_loop W style ends.pull before (start z₁)) s
            (session_loop-Holds W style leaves L (L.opened z₁) ends.pull before (start z₁) refl)
            served in
        let (z', none_left, ended) =
          close_sockets-deinit W.Z L W.B S s.z ends (still_open ∙ open_now.0, open_now.1) in
        (
          z',
          none_left,
          rw
              (
                set_up,
                session_loop-append ends.pull before (r ∷ after) (start z₁) s served runs,
                session_loop-stops ends.pull r after s arrives runs,
                ended,
              )
              (after_deinit (deinit W.Z z' ends.ctx) s.sent),
        )
