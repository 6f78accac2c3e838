-- ===== src/Handlers/Sessions/Delivery.antt =====
-- Runs of the websocket handlers in which no signal arrives: in each round the poll reports a
-- message as Mongrel2 writes them, or the end of the half second.
use libm2handler.Base.{
  ◌≡◌, refl, [], ◌∷◌, List, Bool, true, Option, none, some, ℤ, pos, eqb_ℤ, ltb_ℤ, Outcome, ret,
  faults, ◌>>=◌,
}
use libm2handler.Handler.Reply.{Sent}
use libm2handler.Handler.Headers.{request_for_disconnect}
use libm2handler.Handlers.Incoming.{Incoming, IsProper, on_wire, request_of}
use libm2handler.Handlers.Sessions.{World, Round}

module _ (W : World) where
  abbrev pub Rounds : Type 0
  Rounds = List (Option Incoming × Round W)

  -- The rounds as the loops take them.
  abbrev pub rounds_of : Rounds → List (Round W)
  rounds_of [] = []
  rounds_of ((heard, r) ∷ rest) = r ∷ rounds_of rest

  -- What a round hears, when it leaves ZeroMQ in the second state.
  unfoldable pub Hears : W.Z.Handle → W.Z.State → Option Incoming → W.Z.State → Type 0
  Hears pull z none z₁ = (W.Z.poll z pull).0 ≡ pos 0 × (W.Z.poll z pull).1 ≡ z₁
  Hears pull z (some m) z₁ =
      (ltb_ℤ (pos 0) (W.Z.poll z pull).0 ≡ true)
      × (W.Z.recvmsg (W.Z.poll z pull).1 pull ≡ ret (on_wire m, z₁))
      × IsProper m

  unfoldable pub Delivers : W.Z.Handle → W.Z.State → Rounds → Type 0
  Delivers pull z [] = Unit {0}
  Delivers pull z ((heard, r) ∷ rest) =
      (z₁ : W.Z.State) × Hears pull z heard z₁ × (r.arriving ≡ []) × Delivers pull z₁ rest

  -- Whether a message is Mongrel2's disconnect request.
  abbrev pub leaves : Incoming → Bool
  leaves m = eqb_ℤ (request_for_disconnect W.B W.A (request_of m)) (pos 1)

  -- An abstract machine over what the rounds hear. It stops at a message without a successor.
  abbrev pub hear {ℓ} : {A : Type ℓ} → (Incoming → A → Option A) → Option Incoming → A → Option A
  hear step none a = some a
  hear step (some m) a = step m a

  unfoldable pub after {ℓ} : {A : Type ℓ} → (Incoming → A → Option A) → Rounds → A → Option A
  after step [] a = some a
  after step ((heard, r) ∷ rest) a = elim (hear step heard a) [
    | none ↦ none
    | some b ↦ after step rest b
  ]

-- What is claimed of a computation: it returns, as the machine does, or it faults where the
-- machine stops.
abbrev pub RunsAs : {A S : Type 0} → (A → S → Type 0) → Outcome S → Option A → Type 0
RunsAs K o none = o ≡ faults
RunsAs {S} K o (some a) = (s : S) × (o ≡ ret s) × K a s

-- The same of a `main` that does not leave its loop: nothing is returned yet.
abbrev pub MainAs : {A : Type 0} → Outcome (Option ℤ × Sent) → Option A → Type 0
MainAs = RunsAs λ a r. r.0 ≡ none

-- A loop whose every round follows the machine follows it over all the rounds. `K` relates the
-- state of ZeroMQ, the machine and the variables of the program.
module _ (W : World) (pull : W.Z.Handle) {A S : Type 0} (step : Incoming → A → Option A)
    (loop : List (Round W) → S → Outcome S) (K : W.Z.State → A → S → Type 0)
    (ends : (s : S) → loop [] s ≡ ret s)
    (follows : (z z₁ : W.Z.State) (heard : Option Incoming) (r : Round W) (rest : List (Round W))
        (a : A) (s : S)
      → K z a s
      → Hears W pull z heard z₁
      → r.arriving ≡ []
      → (o : Outcome S) × (loop (r ∷ rest) s ≡ (o >>= loop rest))
        × RunsAs (K z₁) o (hear W step heard a)) where
  abbrev pub Somewhere : A → S → Type 0
  Somewhere a s = (z : W.Z.State) × K z a s

  resume :
      (z : W.Z.State) (rest : Rounds W) (o : Outcome S) (next : Option A)
      → RunsAs (K z) o next
      → ((b : A) (s : S)
          → K z b s
          → RunsAs Somewhere (loop (rounds_of W rest) s) (after W step rest b))
      → RunsAs Somewhere
          (o >>= loop (rounds_of W rest))
          (elim next [ none ↦ none | some b ↦ after W step rest b ])
  resume z rest o none fails later = rw fails refl
  resume z rest o (some b) (s, runs, k) later = rw runs (later b s k)

  pub loop-RunsAs :
      (rounds : Rounds W) (z : W.Z.State) (a : A) (s : S)
      → Delivers W pull z rounds
      → K z a s
      → RunsAs Somewhere (loop (rounds_of W rounds) s) (after W step rounds a)
  unfolding Delivers after
  loop-RunsAs [] z a s delivered k = (s, ends s, (z, k))
  loop-RunsAs ((heard, r) ∷ rest) z a s (z₁, hears, none_arrives, later) k =
      let (o, next, runs) = follows z z₁ heard r (rounds_of W rest) a s k hears none_arrives in
      rw next
        (resume z₁ rest o (hear W step heard a) runs λ b s' k'. loop-RunsAs rest z₁ b s' later k')
