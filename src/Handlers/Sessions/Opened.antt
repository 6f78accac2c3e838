-- ===== src/Handlers/Sessions/Opened.antt =====
-- Whatever the clients do, the sockets of `main` stay as they were opened.
use libm2handler.Base.{
  ℕ, ◌≡◌, inl, inr, refl, ◌∙◌, List, Bool, Bool-cases, true, false, Option, Option-cases, none,
  some, ℤ, pos, eqb_ℤ, ltb, Bytes, if◌then◌else◌, check, ret, ◌>>◌, Always, Always-bind,
  Always-after, Always-when, Always-weaken, ap, length, int_of_u64,
}
use libm2handler.Extern.{blength}
use libm2handler.Handler.Request.{add_int, parse_request}
use libm2handler.Handler.Reply.{Sent, disconnect}
use libm2handler.Handler.Headers.{request_for_disconnect}
use libm2handler.Handler.Socket.{IsZmq, recv}
use libm2handler.Websocket.Handshake.{reply_upgrade}
use libm2handler.Websocket.Send.{ws_reply}
use libm2handler.Handlers.SetUp.{target}
use libm2handler.Handlers.Sessions.{
  World, Client, Server, Round, Style, meet, drop_client, answer, on_request, session_loop,
}
use libm2handler.Handlers.Sessions.Invariant.{session_loop-Always}

module _ (W : World) where
  abbrev pub Keeps : W.Z.State → Server W → Type 0
  Keeps z s = s.z ≡ z

  pub drop_client-Keeps : (q : Client W) (s : Server W) → Always (drop_client W q s) (Keeps s.z)
  unfolding drop_client
  drop_client-Keeps q s =
      Always-after {A = W.D.T} (Keeps s.z) (W.D.delete_free s.dict s.tempnode) _ λ dict'.
        Always-after {A = Sent} (Keeps s.z) (target (disconnect W.B (some s.sent) (some q)).1)
          (λ sent'. ret (record s { dict = dict'; sent = sent' })) λ sent'. refl

  abbrev KeepsWith : W.Z.State → Client W × Server W → Type 0
  KeepsWith z r = r.1.z ≡ z

  check-Keeps :
      (ok : Bool) (q : Client W) (s : Server W) (z : W.Z.State)
      → s.z ≡ z
      → Always (check ok >> ret (q, s)) (KeepsWith z)
  check-Keeps true q s z same = same
  check-Keeps false q s z same = tt

  meet-Keeps : (q : Client W) (s : Server W) → Always (meet W q s) (KeepsWith s.z)
  unfolding meet
  meet-Keeps q s = elim (Option-cases (W.D.lookup s.dict q)) [
    | inl absent ↦
        let q' : Client W = (reply_upgrade W.can_alloc W.sha1 W.B W.A q s.sent).2 in
        rw (absent, meet)
          (Always-after {A = ℤ × W.D.T} (KeepsWith s.z)
            (W.D.alloc_insert s.dict q' (record { times_seen = pos 0; user = none })) _
            λ got. check-Keeps (eqb_ℤ got.0 (pos 1)) q' _ s.z refl)
    | inr (n, there) ↦
        rw (there, meet)
          (Always-after {A = ℤ} (KeepsWith s.z) (add_int n.1.times_seen (pos 1)) _ λ times. refl)
  ]

  module _ (style : Style W)
      (leaves : (q : Client W) (s : Server W) → Always (style.leave q s) (Keeps s.z)) where
    closing-Keeps :
        (closing : Bool) (q : Client W) (s : Server W)
        → Always (if closing then drop_client W q s else ret s) (Keeps s.z)
    closing-Keeps true q s = drop_client-Keeps q s
    closing-Keeps false q s = refl

    answer-Keeps :
        (rand : ℕ → ℕ) (q : Client W) (s : Server W) → Always (answer W style rand q s) (Keeps s.z)
    unfolding answer
    answer-Keeps rand q s = elim (Bool-cases (ltb 0 (blength q.body))) [
      | inr empty ↦ rw empty (
          Always-after {A = ℤ × Sent} (Keeps s.z)
            (ws_reply W.e W.can_alloc W.dump W.B s.sent q (style.greeting rand))
            (λ r. ret (record s { sent = r.1 })) λ r. refl)
      | inl filled ↦ elim (Option-cases s.tempnode) [
        | inl null ↦ rw (filled, null) refl
        | inr (n, points) ↦
            rw (filled, points)
              (Always-after {A = Bool} (Keeps s.z) _ _ λ closing. closing-Keeps closing q s)
      ]
    ]

    on_request-Keeps :
        (rand : ℕ → ℕ) (received : Option (Client W)) (s : Server W)
        → Always (on_request W style rand received s) (Keeps s.z)
    unfolding on_request
    on_request-Keeps rand none s = tt
    on_request-Keeps rand (some q) s =
        elim (Bool-cases (eqb_ℤ (request_for_disconnect W.B W.A q) (pos 1))) [
          | inl left ↦ rw left (leaves q s)
          | inr stays ↦ rw stays (
              Always-bind {A = Client W × Server W} (KeepsWith s.z) (Keeps s.z) _ _ (meet-Keeps q s)
                λ r same.
                  Always-weaken (Keeps r.1.z) (Keeps s.z) (answer W style rand r.0 r.1)
                    (answer-Keeps rand r.0 r.1) λ s' same'. same' ∙ same)
        ]

    module _ (L : IsZmq W.Z) (handles : List W.Z.Handle) where
      abbrev pub Holds : Server W → Type 0
      Holds s = L.opened s.z ≡ handles

      recv-Holds :
          (s : Server W) (pull : W.Z.Handle) (junk_header junk_body : ℤ)
          → Holds s
          → Always
              (recv W.Z W.B W.scan {J = W.A.Json} s.z pull junk_header junk_body)
              (λ got. Holds (record s { z = got.1 }))
      unfolding recv
      recv-Holds s pull junk_header junk_body held =
          Always-bind {A = Bytes × W.Z.State} (λ r. L.opened r.1 ≡ handles) _ (W.Z.recvmsg s.z pull)
            _
            (Always-when _ (W.Z.recvmsg s.z pull)
              λ got e. L.opened-recvmsg s.z got.1 pull got.0 e ∙ held)
            λ got h.
              Always-after {A = Option (Client W)} _
                (parse_request W.B W.scan (W.B.blk2bstr got.0 (int_of_u64 (length got.0)))
                  junk_header junk_body)
                _ λ req. h

      pub session_loop-Holds :
          (pull : W.Z.Handle) (rounds : List (Round W)) (s : Server W)
          → Holds s
          → Always (session_loop W style pull rounds s) Holds
      session_loop-Holds pull rounds s held =
          session_loop-Always W style Holds pull (λ s n h. h) (λ s h. L.opened-poll s.z pull ∙ h)
            (λ s junk_header junk_body h. recv-Holds s pull junk_header junk_body h)
            (λ rand received s h.
              Always-weaken (Keeps s.z) Holds (on_request W style rand received s)
                (on_request-Keeps rand received s) λ s' same. ap L.opened same ∙ h)
            rounds s held
