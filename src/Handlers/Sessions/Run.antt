-- ===== src/Handlers/Sessions/Run.antt =====
-- Runs of the C handlers against the book of their clients.
use libm2handler.Base.{
  ℕ, refl, ◌≡◌, ◌∙◌, [], ◌∷◌, List, Bool, false, Option, none, some, pos, eqb_ℤ, if◌then◌else◌,
  Bytes, Outcome, ret, ◌>>=◌,
}
use libm2handler.Extern.{IsLawful, IsScanner}
use libm2handler.Session.Interfaces.{IsDict}
use libm2handler.Session.{compare_session_id}
use libm2handler.Handlers.SetUp.{Ends, open_sockets, close_sockets, signals}
use libm2handler.Handlers.Incoming.{Incoming, request_of, recv-on_wire}
use libm2handler.Handlers.Sessions.{
  World, Server, Style, Round, on_request, round, session_loop, session_main,
}
use libm2handler.Handlers.Sessions.Answer.{Behaves, attend, on_request-Follows}
use libm2handler.Handlers.Sessions.Book.{Book, Keeps, Keeps-cong, Follows}
use libm2handler.Handlers.Sessions.Delivery.{
  Rounds, rounds_of, Hears, Delivers, hear, after, RunsAs, MainAs, loop-RunsAs,
}

-- The book before the first message.
abbrev pub blank : Book
blank = record { seen = λ i. none; last = none }

module _ (W : World) (L : IsDict compare_session_id W.D) (S : IsLawful W.B)
    (scans : IsScanner W.scan) (no_dump : W.dump ≡ false) (style : Style W) (shuts : ℕ → Bool)
    (quit : Book → Option Book) (does : Behaves W style shuts quit) where
  -- The variables of `main` and the book, at a state of ZeroMQ.
  abbrev pub KeepsAt : W.Z.State → Book → Server W → Type 0
  KeepsAt z b s = (s.z ≡ z) × (s.shutdown ≡ pos 0) × Keeps W b s

  kept :
      (z : W.Z.State) (s : Server W) (o : Outcome (Server W)) (next : Option Book)
      → s.z ≡ z
      → s.shutdown ≡ pos 0
      → Follows W s o next
      → RunsAs (KeepsAt z) o next
  kept z s o none at_z on fails = fails
  kept z s o (some b) at_z on (s', runs, (same_z, same_stop), keeps) =
      (s', runs, (same_z ∙ at_z, same_stop ∙ on, keeps))

  module _ (pull : W.Z.Handle) where
    calm_round :
        (r : Round W) (rounds : List (Round W)) (s : Server W)
        → r.arriving ≡ []
        → s.shutdown ≡ pos 0
        → session_loop W style pull (r ∷ rounds) s
          ≡ (round W style pull r s >>= session_loop W style pull rounds)
    unfolding session_loop signals
    calm_round r rounds s none_arrives on =
        let off : eqb_ℤ s.shutdown (pos 1) ≡ false = rw on refl in rw (none_arrives, off) refl

    round-RunsAs :
        (z z₁ : W.Z.State) (heard : Option Incoming) (r : Round W) (b : Book) (s : Server W)
        → KeepsAt z b s
        → Hears W pull z heard z₁
        → RunsAs (KeepsAt z₁) (round W style pull r s) (hear W (attend W shuts quit) heard b)
    unfolding round Hears
    round-RunsAs z z₁ none r b s (at_z, on, keeps) (quiet, next) =
        rw (at_z, quiet, next)
          (record s { z = z₁ }, refl, (refl, on, Keeps-cong W b s z₁ s.sent keeps))
    round-RunsAs z z₁ (some m) r b s (at_z, on, keeps) (waits, arrived, proper) =
        let s₁ : Server W = record s { z = z₁ } in
        rw
          (
            at_z,
            waits,
            recv-on_wire W.Z pull W.B S W.scan scans W.A.Json (W.Z.poll z pull).1 z₁ m r.junk_header
                r.junk_body proper arrived,
          )
          (kept z₁ s₁ (on_request W style r.rand (some (request_of m)) s₁) (attend W shuts quit m b)
            refl on
            (on_request-Follows W L S no_dump style shuts quit does r.rand b m s₁
              (Keeps-cong W b s z₁ s.sent keeps) proper))

    -- When messages as Mongrel2 writes them arrive, one or none in each round, and no signal
    -- does, the loop that ws_handshake.c and ws_variable.c share does what an abstract machine
    -- does to a book, which holds how often each client was seen again and which known client was
    -- looked up last: the loop returns, and its table and `tempnode` agree with the book, or it
    -- is undefined where the machine stops. The machine stops where a counter at 2^31 - 1 is to
    -- count on, and where a client is to be deleted that is not there. At the start the table and
    -- `tempnode` agree with the book, and no stop was asked for. The test for a close, the
    -- greeting and the answer to a disconnect request do what the machine is told of them, and
    -- the build has no frame dump. The dictionary, the string functions and `sscanf` behave as
    -- documented.
    pub session_loop-book :
        (rounds : Rounds W) (b : Book) (s : Server W)
        → Delivers W pull s.z rounds
        → s.shutdown ≡ pos 0
        → Keeps W b s
        → RunsAs
            (λ b' s'. (z : W.Z.State) × KeepsAt z b' s')
            (session_loop W style pull (rounds_of W rounds) s)
            (after W (attend W shuts quit) rounds b)
    session_loop-book rounds b s delivered on keeps =
        loop-RunsAs W pull (attend W shuts quit) (session_loop W style pull) KeepsAt
          (λ s'. unfold session_loop in refl)
          (λ z z₁ heard r rest b' s' k hears none_arrives. (
            round W style pull r s',
            calm_round r rest s' none_arrives k.1,
            round-RunsAs z z₁ heard r b' s' k hears,
          ))
          rounds s.z b s delivered (refl, on, keeps)

  main_after :
      (ends : Ends W.Z) (o : Outcome (Server W)) (next : Option Book)
      → RunsAs (λ b s. (z : W.Z.State) × KeepsAt z b s) o next
      → MainAs
          (o >>= λ s.
            if eqb_ℤ s.shutdown (pos 1)
            then (close_sockets W.Z W.B s.z ends >>= λ r. ret (some r.0, s.sent))
            else ret (none, s.sent))
          next
  main_after ends o none fails = rw fails refl
  main_after ends o (some b) (s, runs, (_, (_, on, keeps))) =
      let off : eqb_ℤ s.shutdown (pos 1) ≡ false = rw on refl in
      rw (runs, off) ((none, s.sent), refl, refl)

  first_server : W.Z.State → Server W
  first_server z = record { z = z; sent = []; dict = W.D.create; tempnode = none; shutdown = pos 0 }

  first_server-Keeps : (z : W.Z.State) → Keeps W blank (first_server z)
  unfolding first_server
  first_server-Keeps z = (λ r. rw L.entries-create refl, refl)

  -- The run of `main` behind the opened sockets, against the machine that starts with a blank
  -- book: still running behind the rounds, or undefined where the machine stops.
  pub session_main-book :
      (identity : Bytes) (z z₁ : W.Z.State) (pull_arg pub_arg : Bytes) (ends : Ends W.Z)
      (rounds : Rounds W)
      → open_sockets W.Z W.B z (pos 1) pull_arg pub_arg (some identity) ≡ ret (ends, z₁)
      → Delivers W ends.pull z₁ rounds
      → MainAs
          (session_main W style identity z (pull_arg ∷ pub_arg ∷ []) (rounds_of W rounds))
          (after W (attend W shuts quit) rounds blank)
  unfolding session_main first_server
  session_main-book identity z z₁ pull_arg pub_arg ends rounds set_up delivered = rw set_up (
      main_after ends (session_loop W style ends.pull (rounds_of W rounds) (first_server z₁))
        (after W (attend W shuts quit) rounds blank)
        (session_loop-book ends.pull rounds blank (first_server z₁) delivered refl
          (first_server-Keeps z₁)))
