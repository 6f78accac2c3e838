-- ===== src/Handlers/Shutdown.antt =====
-- What is opened is closed again: example/handlers/, with the functions of src/handler.c.
use libm2handler.Base.{
  ℕ, ◌≡◌, ◌≢◌, inl, inr, refl, sym, ◌∙◌, ap, [], ◌∷◌, List, Bool-cases, true, Option, Option-cases,
  none, some, ℤ, pos, eqb_ℤ, Bytes, All, ret, ◌>>=◌, ExitsOr, ExitsOr-bind,
}
use libm2handler.Extern.{Bstrlib, IsLawful, c_string}
use libm2handler.Handler.Socket.{
  Zmq, IsZmq, init, alloc_socket, pull_socket, pub_socket, connect, set_identity, close, deinit,
}
use libm2handler.Handlers.SetUp.{Ends, open_sockets, close_sockets}

module _ (Z : Zmq) (L : IsZmq Z) where
  init-opened :
      (z : Z.State) (threads : ℤ) → ExitsOr (init Z true z threads) (λ r. L.opened r.1 ≡ L.opened z)
  unfolding init
  init-opened z threads = elim (Option-cases (Z.init z threads).0) [
    | inl refused ↦ inl (rw refused)
    | inr (c, given) ↦ inr ((c, (Z.init z threads).1), rw given, L.opened-init z threads)
  ]

  alloc_socket-opened :
      (z : Z.State) (ctx : Z.Context) (kind : ℕ)
      → ExitsOr
          (alloc_socket Z true z ctx kind)
          (λ r. (L.opened r.1 ≡ r.0 ∷ L.opened z) × All (λ x. x ≢ r.0) (L.opened z))
  unfolding alloc_socket
  alloc_socket-opened z ctx kind = elim (Option-cases (Z.socket z ctx kind).0) [
    | inl refused ↦ inl (rw refused)
    | inr (h, given) ↦
        let z' : Z.State = (Z.socket z ctx kind).1 in
        let whole : Z.socket z ctx kind ≡ (some h, z') = λ i. (given i, z') in
        inr (
          (h, z'),
          rw given,
          (L.socket_some z z' ctx kind h whole, L.socket_fresh z z' ctx kind h whole),
        )
  ]

  connect-opened :
      (z : Z.State) (h : Z.Handle) (dest : Bytes)
      → ExitsOr (connect Z z h dest) (λ r. L.opened r.1 ≡ L.opened z)
  unfolding connect
  connect-opened z h dest = elim (Bool-cases (eqb_ℤ (Z.connect z h dest).0 (pos 0))) [
    | inl ok ↦ inr ((pos 0, (Z.connect z h dest).1), rw ok, L.opened-connect z h dest)
    | inr failed ↦ inl (rw failed)
  ]

  set_identity-opened :
      (z : Z.State) (h : Z.Handle) (name : Bytes)
      → ExitsOr (set_identity Z z h name) (λ z'. L.opened z' ≡ L.opened z)
  unfolding set_identity
  set_identity-opened z h name =
      elim (Bool-cases (eqb_ℤ (Z.setsockopt z h Z.identity_option (c_string name)).0 (pos 0))) [
        | inl ok ↦ inr (
          (Z.setsockopt z h Z.identity_option (c_string name)).1,
          rw ok,
          L.opened-setsockopt z h Z.identity_option (c_string name),
        )
        | inr failed ↦ inl (rw failed)
      ]

  naming-opened :
      (z : Z.State) (h : Z.Handle) (identity : Option Bytes)
      → ExitsOr
          (elim identity [ none ↦ ret z | some name ↦ set_identity Z z h name ])
          (λ z'. L.opened z' ≡ L.opened z)
  naming-opened z h none = inr (z, refl, refl)
  naming-opened z h (some name) = set_identity-opened z h name

  -- The two sockets are open, the publishing one the newer, and differ.
  abbrev pub AreOpen : List Z.Handle → Ends Z × Z.State → Type 0
  AreOpen before (ends, z) =
      (L.opened z ≡ ends.pub_end ∷ ends.pull ∷ before) × (ends.pull ≢ ends.pub_end)

  module _ (B : Bstrlib) (S : IsLawful B) where
    -- Opening the sockets of a handler ends the process, or opens two sockets that differ.
    pub open_sockets-AreOpen :
        (z : Z.State) (threads : ℤ) (pull_arg pub_arg : Bytes) (identity : Option Bytes)
        → ExitsOr (open_sockets Z B z threads pull_arg pub_arg identity) (AreOpen (L.opened z))
    unfolding open_sockets pull_socket pub_socket
    open_sockets-AreOpen z threads pull_arg pub_arg identity =
        rw (S.bfromcstr_some pull_arg, S.bfromcstr_some pub_arg)
          (ExitsOr-bind _ _ (init-opened z threads) λ (ctx, z₁) e₁.
            ExitsOr-bind _ _ (alloc_socket-opened z₁ ctx Z.pull_type) λ (pull, z₂) (e₂, _).
              ExitsOr-bind _ _ (connect-opened z₂ pull _) λ (r₁, z₃) e₃.
                ExitsOr-bind _ _ (alloc_socket-opened z₃ ctx Z.pub_type)
                  λ (pub_end, z₄) (e₄, other).
                    ExitsOr-bind _ _ (connect-opened z₄ pub_end _) λ (r₂, z₅) e₅.
                      ExitsOr-bind _ _ (naming-opened z₅ pub_end identity) λ z₆ e₆.
                        let before : L.opened z₃ ≡ pull ∷ L.opened z =
                          e₃ ∙ e₂ ∙ ap (λ hs. pull ∷ hs) e₁ in
                        let both : All (λ x. x ≢ pub_end) (pull ∷ L.opened z) =
                          rw before at other in
                        inr (
                          (record { ctx = ctx; pull = pull; pub_end = pub_end }, z₆),
                          refl,
                          (e₆ ∙ e₅ ∙ e₄ ∙ ap (λ hs. pub_end ∷ hs) before, both.0),
                        ))

    -- If these two are the only ones, closing them leaves what `deinit` does with none open.
    pub close_sockets-deinit :
        (z : Z.State) (ends : Ends Z)
        → AreOpen [] (ends, z)
        → (z' : Z.State) × (L.opened z' ≡ [])
          × (close_sockets Z B z ends ≡ (deinit Z z' ends.ctx >>= λ t. ret (pos 0, t.1)))
    unfolding close_sockets close
    close_sockets-deinit z ends (both, differ) =
        let z₁ : Z.State = (Z.close z ends.pull).1 in
        let one_left : L.opened z₁ ≡ ends.pub_end ∷ [] =
          L.opened-close z ends.pull (ends.pub_end ∷ []) [] both ((λ e. differ (sym e)), tt) in
        let none_left : L.opened (Z.close z₁ ends.pub_end).1 ≡ [] =
          L.opened-close z₁ ends.pub_end [] [] one_left tt in
        ((Z.close z₁ ends.pub_end).1, none_left, refl)

    -- If these two are the only ones, closing them ends the context, and returns 0.
    pub close_sockets-AreOpen :
        (z : Z.State) (ends : Ends Z)
        → AreOpen [] (ends, z)
        → (z' : Z.State) × (close_sockets Z B z ends ≡ ret (pos 0, z'))
    unfolding deinit
    close_sockets-AreOpen z ends (both, differ) =
        let (z', none_left, closed) = close_sockets-deinit z ends (both, differ) in
        let (z₂, ended) = L.term_idle z' ends.ctx none_left in (z₂, rw (closed, ended))

    -- From a state without open sockets, opening the context and the two sockets of a handler and
    -- closing them again either ends the process or returns 0: it does not wait for ever. ZeroMQ
    -- keeps its book of open sockets and the string functions behave as documented.
    pub close_sockets-open_sockets :
        (z : Z.State) (threads : ℤ) (pull_arg pub_arg : Bytes) (identity : Option Bytes)
        → L.opened z ≡ []
        → ExitsOr
            (open_sockets Z B z threads pull_arg pub_arg identity >>= λ r.
              close_sockets Z B r.1 r.0)
            (λ r. r.0 ≡ pos 0)
    close_sockets-open_sockets z threads pull_arg pub_arg identity idle =
        ExitsOr-bind _ _ (open_sockets-AreOpen z threads pull_arg pub_arg identity)
          λ (ends, z₁) open_now.
            let (z', ended) = close_sockets-AreOpen z₁ ends (rw idle at open_now) in
            inr ((pos 0, z'), ended, refl)
