-- ===== src/Handlers/Sessions/Invariant.antt =====
-- What every request keeps, the whole loop keeps.
use libm2handler.Base.{
  ℕ, inl, inr, [], ◌∷◌, List, Bool-cases, Option, ℤ, pos, eqb_ℤ, ltb_ℤ, if◌then◌else◌, ret, ◌>>=◌,
  Always, Always-bind, Always-after,
}
use libm2handler.Handler.Socket.{recv}
use libm2handler.Handlers.SetUp.{signals}
use libm2handler.Handlers.Sessions.{
  World, Client, Server, Round, Style, on_request, round, session_loop,
}

-- `I` holds of the variables of `main`. It must survive a poll, a receipt, a write to `shutdown`
-- and a request.
module _ {ℓ} (W : World) (style : Style W) (I : Server W → Type ℓ) (pull : W.Z.Handle)
    (stopping : (s : Server W) (n : ℤ) → I s → I (record s { shutdown = n }))
    (polling : (s : Server W) → I s → I (record s { z = (W.Z.poll s.z pull).1 }))
    (receiving : (s : Server W) (junk_header junk_body : ℤ)
      → I s
      → Always
          (recv W.Z W.B W.scan {J = W.A.Json} s.z pull junk_header junk_body)
          (λ got. I (record s { z = got.1 })))
    (handling : (rand : ℕ → ℕ) (received : Option (Client W)) (s : Server W)
      → I s
      → Always (on_request W style rand received s) I) where
  round-Always : (r : Round W) (s : Server W) → I s → Always (round W style pull r s) I
  unfolding round
  round-Always r s i = elim (Bool-cases (ltb_ℤ (pos 0) (W.Z.poll s.z pull).0)) [
    | inl waits ↦
        let z₁ : W.Z.State = (W.Z.poll s.z pull).1 in
        rw waits (
          Always-bind {A = Option (Client W) × W.Z.State} (λ got. I (record s { z = got.1 })) I
            (recv W.Z W.B W.scan {J = W.A.Json} z₁ pull r.junk_header r.junk_body)
            (λ got. on_request W style r.rand got.0 (record s { z = got.1 }))
            (receiving (record s { z = z₁ }) r.junk_header r.junk_body (polling s i))
            λ got i'. handling r.rand got.0 (record s { z = got.1 }) i')
    | inr idle ↦ elim (Bool-cases (ltb_ℤ (W.Z.poll s.z pull).0 (pos 0))) [
      | inl failed ↦
          rw (idle, failed)
            (stopping (record s { z = (W.Z.poll s.z pull).1 }) (pos 1) (polling s i))
      | inr quiet ↦ rw (idle, quiet) (polling s i)
    ]
  ]

  next-Always :
      (r : Round W) (rounds : List (Round W)) (s : Server W) (stop : ℤ)
      → I s
      → ((s' : Server W) → I s' → Always (session_loop W style pull rounds s') I)
      → Always
          (if eqb_ℤ stop (pos 1)
            then ret (record s { shutdown = stop })
            else (round W style pull r (record s { shutdown = stop })
                >>= session_loop W style pull rounds))
          I
  next-Always r rounds s stop i later = elim (Bool-cases (eqb_ℤ stop (pos 1))) [
    | inl stopped ↦ rw stopped (stopping s stop i)
    | inr on ↦ rw on (
        Always-bind {A = Server W} I I _ _
          (round-Always r (record s { shutdown = stop }) (stopping s stop i)) later)
  ]

  pub session_loop-Always :
      (rounds : List (Round W)) (s : Server W) → I s → Always (session_loop W style pull rounds s) I
  unfolding session_loop
  session_loop-Always [] s i = i
  session_loop-Always (r ∷ rounds) s i =
      Always-after {A = ℤ} I (signals r.arriving s.shutdown) _
        λ stop. next-Always r rounds s stop i λ s' i'. session_loop-Always rounds s' i'
