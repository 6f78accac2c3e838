-- ===== src/Handlers/HandshakeCpp/Run.antt =====
-- The rounds of the C++ program against the set of its clients.
use libm2handler.Base.{
  refl, ◌≡◌, ◌∙◌, [], ◌∷◌, List, true, some, if◌then◌else◌, Bytes, false, Option, none, pos, eqb_ℤ,
  ◌>>=◌, Outcome, ret, length,
}
use libm2handler.Extern.{IsLawful, IsScanner}
use libm2handler.Framing.Fresh.{frame_size}
use libm2handler.Handlers.SetUp.{Ends, open_sockets, signals}
use libm2handler.Handlers.Handshake.{sender}
use libm2handler.Websocket.Broadcast.{AllAddressed}
use libm2handler.Session.Laws.{present, lock-Idle, unlock_held}
use libm2handler.Session.Interfaces.{IsDict, Pthread, IsMutex}
use libm2handler.Session.{compare_session_id, init}
use libm2handler.Handlers.Incoming.{Incoming, request_of, recv-on_wire}
use libm2handler.Handlers.Sessions.{World, Round}
use libm2handler.Handlers.Sessions.Delivery.{
  Rounds, rounds_of, Hears, Delivers, hear, after, RunsAs, MainAs, loop-RunsAs,
}
use libm2handler.Handlers.HandshakeCpp.{
  long_hello, Hub, handle, hub_round, hub_loop, hub_main, first_sessions,
}
use libm2handler.Handlers.HandshakeCpp.Room.{Room, attend, Stands, Follows, handle-Follows}

module _ (W : World) (P : Pthread) (L : IsDict compare_session_id W.D) (M : IsMutex P)
    (S : IsLawful W.B) (scans : IsScanner W.scan) (no_dump : W.dump ≡ false)
    (memory : W.can_alloc (frame_size false (length long_hello)) ≡ true) where
  -- The variables of `main` and the room, at a state of ZeroMQ.
  abbrev pub StandsAt : W.Z.State → Room → Hub W P → Type 0
  StandsAt z room s = (s.z ≡ z) × (s.shutdown ≡ pos 0) × Stands W P L M room s

  stood :
      (z : W.Z.State) (s : Hub W P) (o : Outcome (Hub W P)) (next : Option Room)
      → s.z ≡ z
      → s.shutdown ≡ pos 0
      → Follows W P L M s o next
      → RunsAs (StandsAt z) o next
  stood z s o none at_z on fails = fails
  stood z s o (some room) at_z on (s', runs, (same_z, same_stop), stands) =
      (s', runs, (same_z ∙ at_z, same_stop ∙ on, stands))

  module _ (pull : W.Z.Handle) where
    calm_round :
        (r : Round W) (rounds : List (Round W)) (s : Hub W P)
        → r.arriving ≡ []
        → s.shutdown ≡ pos 0
        → hub_loop W P pull (r ∷ rounds) s ≡ (hub_round W P pull r s >>= hub_loop W P pull rounds)
    unfolding hub_loop signals
    calm_round r rounds s none_arrives on =
        let off : eqb_ℤ s.shutdown (pos 1) ≡ false = rw on refl in rw (none_arrives, off) refl

    hub_round-RunsAs :
        (z z₁ : W.Z.State) (heard : Option Incoming) (r : Round W) (room : Room) (s : Hub W P)
        → StandsAt z room s
        → Hears W pull z heard z₁
        → RunsAs (StandsAt z₁) (hub_round W P pull r s) (hear W (attend W) heard room)
    unfolding hub_round Hears
    hub_round-RunsAs z z₁ none r room s (at_z, on, stands) (quiet, next) =
        rw (at_z, quiet, next) (record s { z = z₁ }, refl, (refl, on, stands))
    hub_round-RunsAs z z₁ (some m) r room s (at_z, on, stands) (waits, arrived, proper) =
        let s₁ : Hub W P = record s { z = z₁ } in
        rw
          (
            at_z,
            waits,
            recv-on_wire W.Z pull W.B S W.scan scans W.A.Json (W.Z.poll z pull).1 z₁ m r.junk_header
                r.junk_body proper arrived,
          )
          (stood z₁ s₁ (handle W P (some (request_of m)) s₁) (attend W m room) refl on
            (handle-Follows W P L M S no_dump memory room m s₁ stands proper))

    -- When messages as Mongrel2 writes them arrive, one or none in each round, and no signal
    -- does, the loop of ws_handshake.cpp does what an abstract machine does to the set of its
    -- clients, to which a message adds its sender and from which a disconnect request takes its
    -- own: the loop returns with the mutex free and with the clients of the set in its table, or,
    -- where the machine stops, which is at a disconnect request from outside the set, it is
    -- undefined. Before the first round the mutex is free, the table holds the clients of the
    -- set, their requests are ones that Mongrel2 sent, and no stop was asked for. The build has
    -- no frame dump, and the frame of the greeting is allocated. The dictionary, the mutex, the
    -- string functions and `sscanf` behave as documented.
    pub hub_loop-room :
        (rounds : Rounds W) (room : Room) (s : Hub W P)
        → Delivers W pull s.z rounds
        → s.shutdown ≡ pos 0
        → Stands W P L M room s
        → RunsAs
            (λ room' s'. (z : W.Z.State) × StandsAt z room' s')
            (hub_loop W P pull (rounds_of W rounds) s)
            (after W (attend W) rounds room)
    hub_loop-room rounds room s delivered on stands =
        loop-RunsAs W pull (attend W) (hub_loop W P pull) StandsAt (λ s'. unfold hub_loop in refl)
          (λ z z₁ heard r rest room' s' k hears none_arrives. (
            hub_round W P pull r s',
            calm_round r rest s' none_arrives k.1,
            hub_round-RunsAs z z₁ heard r room' s' k hears,
          ))
          rounds s.z room s delivered (refl, on, stands)

  main_after :
      (o : Outcome (Hub W P)) (next : Option Room)
      → RunsAs (λ room s. (z : W.Z.State) × StandsAt z room s) o next
      → MainAs
          (o >>= λ s. ret (if eqb_ℤ s.shutdown (pos 1) then some (pos 0) else none, s.sent))
          next
  main_after o none fails = rw fails refl
  main_after o (some room) (s, runs, (_, (_, on, stands))) =
      let off : eqb_ℤ s.shutdown (pos 1) ≡ false = rw on refl in
      rw (runs, off) ((none, s.sent), refl, refl)

  first_hub : W.Z.State → Hub W P
  first_hub z = record {
    z = z;
    sent = [];
    sessions = record { dict = W.D.create; mutex = P.init };
    shutdown = pos 0;
  }

  first_hub-Stands : (z : W.Z.State) → Stands W P L M (λ i. false) (first_hub z)
  unfolding first_hub present AllAddressed
  first_hub-Stands z = (refl, rw L.entries-create tt, λ r. rw L.entries-create refl)

  first_table : first_sessions W P ≡ ret (record { dict = W.D.create; mutex = P.init })
  unfolding first_sessions init
  first_table = rw (
    lock-Idle W.D L P M (record { dict = W.D.create; mutex = P.init }) refl,
    unlock_held W.D L P M W.D.create,
  )

  -- If `main` of ws_handshake.cpp has opened its sockets, messages as Mongrel2 writes them
  -- arrive, one or none in each round, and no signal does, then `main` is still running behind
  -- the rounds, with some messages sent, or, where the abstract machine on the set of its
  -- clients, empty at first, stops at a disconnect request from outside the set, it is undefined.
  -- The build has no frame dump, and the frame of the greeting is allocated. The dictionary, the
  -- mutex, the string functions and `sscanf` behave as documented.
  pub hub_main-room :
      (z z₁ : W.Z.State) (pull_arg pub_arg : Bytes) (ends : Ends W.Z) (rounds : Rounds W)
      → open_sockets W.Z W.B z (pos 1) pull_arg pub_arg (some sender) ≡ ret (ends, z₁)
      → Delivers W ends.pull z₁ rounds
      → MainAs
          (hub_main W P z (pull_arg ∷ pub_arg ∷ []) (rounds_of W rounds))
          (after W (attend W) rounds (λ i. false))
  unfolding hub_main first_hub
  hub_main-room z z₁ pull_arg pub_arg ends rounds set_up delivered =
      rw (set_up, first_table)
        (main_after (hub_loop W P ends.pull (rounds_of W rounds) (first_hub z₁))
          (after W (attend W) rounds (λ i. false))
          (hub_loop-room ends.pull rounds (λ i. false) (first_hub z₁) delivered refl
            (first_hub-Stands z₁)))
