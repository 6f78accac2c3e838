-- ===== src/Handlers/Books.antt =====
-- The `main` functions of example/handlers/ws_handshake.c and example/handlers/ws_variable.c
-- against the books of their clients.
pub mod Steady
use libm2handler.Base.{
  ℕ, suc, bit_and, ◌+◌, ◌/◌, ◌%◌, ◌^◌, ◌<◌, ◌≤◌, ◌≡◌, refl, ap, [], ◌∷◌, ◌++◌, Bool, Bool-cases,
  inl, inr, true, false, not, Option, Option-cases, none, some, ℤ, pos, eqb_ℤ, if◌then◌else◌, ltb,
  lt→ltb, length, Bytes, bytes_of, Outcome, ret, ◌>>=◌, length-append, ◌∙◌, ◌==◌, arith,
}
use libm2handler.Extern.{IsLawful, IsScanner}
use libm2handler.Framing.Flags.{get_opcode, get_fin, op_close}
use libm2handler.Framing.Fresh.{frame_size}
use libm2handler.Handler.Reply.{Sent}
use libm2handler.Session.Interfaces.{IsDict}
use libm2handler.Session.{compare_session_id}
use libm2handler.Handlers.SetUp.{Ends, open_sockets}
use libm2handler.Handlers.Incoming.{Incoming}
use libm2handler.Handlers.Sessions.{World}
use libm2handler.Handlers.Sessions.Answer.{Behaves, attend}
use libm2handler.Handlers.Sessions.Book.{Book, visit, drop_last, settle, closes, write_seen}
use libm2handler.Handlers.Sessions.Delivery.{
  Rounds, rounds_of, Delivers, leaves, hear, after, MainAs,
}
use libm2handler.Handlers.Sessions.Run.{blank, session_main-book}
use libm2handler.Handlers.Sessions.Visit.{drop_last-Follows}
use libm2handler.Handlers.Handshake.{sender, hello, is_close_frame, handshake, handshake_main}
use libm2handler.Handlers.Variable.{is_final_frame, variable, variable_main, genrandmsg_lem}

-- The first bytes of the frames that close: opcode 8, and the FIN bit.
abbrev pub close_byte : ℕ → Bool
close_byte c = bit_and c 0x0F == op_close

abbrev pub final_byte : ℕ → Bool
final_byte c = not (bit_and c 0x80 / 128 == 0)

abbrev pub handshake_attend : (W : World) → Incoming → Book → Option Book
handshake_attend W = attend W close_byte drop_last

abbrev pub variable_attend : (W : World) → Incoming → Book → Option Book
variable_attend W = attend W final_byte some

is_close_frame_lem :
    (c : ℕ) (cs : Bytes) → is_close_frame (suc (length cs)) (c ∷ cs) ≡ ret (close_byte c)
unfolding is_close_frame get_opcode
is_close_frame_lem c cs = rw (lt→ltb 0 (suc (length cs)) (omega arith)) refl

is_final_frame_lem :
    (c : ℕ) (cs : Bytes) → is_final_frame (suc (length cs)) (c ∷ cs) ≡ ret (final_byte c)
unfolding is_final_frame get_fin
is_final_frame_lem c cs = rw (lt→ltb 0 (suc (length cs)) (omega arith)) refl

module _ (W : World) (L : IsDict compare_session_id W.D) (S : IsLawful W.B)
    (scans : IsScanner W.scan) (no_dump : W.dump ≡ false) where
  module _ (memory : W.can_alloc (frame_size false (length hello)) ≡ true) where
    pub handshake-Behaves : Behaves W (handshake W) close_byte drop_last
    handshake-Behaves = record {
      is_close_lem = is_close_frame_lem;
      greeting_lem = λ rand. (hello, refl, omega arith, omega arith, memory);
      leave-Follows = drop_last-Follows W L;
    }

    -- If `main` of ws_handshake.c has opened its sockets, messages as Mongrel2 writes them
    -- arrive, one or none in each round, and no signal does, then `main` is still running behind
    -- the rounds, with some messages sent, or it is undefined where the abstract machine stops.
    -- The machine keeps a book, at first blank, of how often each client was seen again and of
    -- the known client that was looked up last, whom a close frame deletes, if there is one, and
    -- a disconnect request deletes in any case. It stops where a counter at 2^31 - 1 is to count
    -- on, where the client to be deleted is gone, and at a disconnect request while there is no
    -- last client. The build has no frame dump, and the frame of the greeting is allocated. The
    -- dictionary, the string functions and `sscanf` behave as documented.
    pub handshake_main-book :
        (z z₁ : W.Z.State) (pull_arg pub_arg : Bytes) (ends : Ends W.Z) (rounds : Rounds W)
        → open_sockets W.Z W.B z (pos 1) pull_arg pub_arg (some sender) ≡ ret (ends, z₁)
        → Delivers W ends.pull z₁ rounds
        → MainAs
            (handshake_main W z (pull_arg ∷ pub_arg ∷ []) (rounds_of W rounds))
            (after W (handshake_attend W) rounds blank)
    unfolding handshake_main
    handshake_main-book z z₁ pull_arg pub_arg ends rounds set_up delivered =
        session_main-book W L S scans no_dump (handshake W) close_byte drop_last handshake-Behaves
          sender z z₁ pull_arg pub_arg ends rounds set_up delivered

  -- A frame with `genrandmsg`'s 64553 bytes.
  module _ (memory : W.can_alloc (frame_size false 64553) ≡ true) where
    random_greeting :
        (rand : ℕ → ℕ)
        → (payload : Bytes) × ((variable W).greeting rand ≡ some payload)
          × (0 < length payload)
          × (length payload + 14 < 2 ^ 31)
          × (W.can_alloc (frame_size false (length payload)) ≡ true)
    random_greeting rand =
        let (letters, made, size, _) = genrandmsg_lem W.B S rand in
        let text : Bytes = bytes_of "Len: 64536 Data: " ++ letters in
        let whole : length text ≡ 64553 =
          length-append (bytes_of "Len: 64536 Data: ") letters ∙ ap (λ n. 17 + n) size in
        (text, made, omega arith, omega arith, rw whole memory)

    variable-Behaves : Behaves W (variable W) final_byte some
    variable-Behaves = record {
      is_close_lem = is_final_frame_lem;
      greeting_lem = random_greeting;
      leave-Follows = λ b q s keeps. (s, refl, (refl, refl), keeps);
    }

    -- The same of `main` of ws_variable.c, whose book loses the client that was looked up last at
    -- a frame with the FIN bit, and nobody at a disconnect request.
    pub variable_main-book :
        (z z₁ : W.Z.State) (pull_arg pub_arg : Bytes) (ends : Ends W.Z) (rounds : Rounds W)
        → open_sockets W.Z W.B z (pos 1) pull_arg pub_arg (some sender) ≡ ret (ends, z₁)
        → Delivers W ends.pull z₁ rounds
        → MainAs
            (variable_main W z (pull_arg ∷ pub_arg ∷ []) (rounds_of W rounds))
            (after W (variable_attend W) rounds blank)
    unfolding variable_main
    variable_main-book z z₁ pull_arg pub_arg ends rounds set_up delivered =
        session_main-book W L S scans no_dump (variable W) final_byte some variable-Behaves sender z
          z₁ pull_arg pub_arg ends rounds set_up delivered
