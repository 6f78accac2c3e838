-- ===== src/Handlers/Books/Steady.antt =====
-- Runs of the two C programs that do not come to undefined behaviour.
use libm2handler.Base.{
  ℕ, suc, ◌+◌, ◌^◌, ◌<◌, ◌≡◌, ◌⊎◌, refl, ap, ◌∙◌, [], ◌∷◌, Bool, Bool-cases, inl, inr, true, false,
  Option, Option-cases, none, some, ℤ, pos, eqb_ℤ, eqb_refl, lt→ltb, length, Bytes, Outcome, ret,
  arith,
}
use libm2handler.Extern.{IsLawful, IsScanner}
use libm2handler.Framing.Fresh.{frame_size}
use libm2handler.Handler.Reply.{Sent}
use libm2handler.Session.Interfaces.{IsDict}
use libm2handler.Session.{compare_session_id}
use libm2handler.Handlers.SetUp.{Ends, open_sockets}
use libm2handler.Handlers.Incoming.{Incoming}
use libm2handler.Handlers.Sessions.{World}
use libm2handler.Handlers.Sessions.Answer.{attend}
use libm2handler.Handlers.Sessions.Book.{Book, visit, drop_last, settle, closes, write_seen}
use libm2handler.Handlers.Sessions.Delivery.{
  Rounds, rounds_of, Delivers, leaves, hear, after, MainAs,
}
use libm2handler.Handlers.Sessions.Run.{blank}
use libm2handler.Handlers.Handshake.{sender, hello, handshake_main}
use libm2handler.Handlers.Variable.{variable_main}
use libm2handler.Handlers.Books.{close_byte, final_byte, handshake_main-book, variable_main-book}

-- No client was seen again `k` times.
abbrev Below : ℕ → Book → Type 0
Below k b = (i : ℤ) (t : ℕ) → b.seen i ≡ some t → t < k

-- The client looked up last, if any, is there.
abbrev IsFresh : Book → Type 0
IsFresh b = (b.last ≡ none) ⊎ ((i : ℤ) × (t : ℕ) × (b.last ≡ some i) × (b.seen i ≡ some t))

write_seen-Below :
    (k : ℕ) (i j : ℤ) (t u : ℕ) (b : Book)
    → Below k b
    → t < suc k
    → write_seen i (some t) b.seen j ≡ some u
    → u < suc k
write_seen-Below k i j t u b below small h = elim (Bool-cases (eqb_ℤ j i)) [
  | inl same ↦ let e : some t ≡ some u = rw same at h in ground arith
  | inr other ↦ let e : b.seen j ≡ some u = rw other at h in omega (arith, below j u e)
]

visit-goes :
    (k : ℕ) (i : ℤ) (b : Book)
    → Below k b
    → k < 2 ^ 31
    → (b' : Book) × (visit i b ≡ some b') × Below (suc k) b' × IsFresh b'
unfolding visit
visit-goes k i b below small = elim (Option-cases (b.seen i)) [
  | inl new ↦ (
    record { seen = write_seen i (some 0) b.seen; last = none },
    rw (visit, new) refl,
    λ j u h. write_seen-Below k i j 0 u b below (omega arith) h,
    inl refl,
  )
  | inr (t, again) ↦
      let t_small : t < k = below i t again in
      (
        record { seen = write_seen i (some (t + 1)) b.seen; last = some i },
        rw (visit, again, lt→ltb (t + 1) (2 ^ 31) (omega arith)) refl,
        λ j u h. write_seen-Below k i j (t + 1) u b below (omega arith) h,
        inr (i, t + 1, refl, rw (eqb_refl i) refl),
      )
]

write_none-Below :
    (k : ℕ) (i j : ℤ) (u : ℕ) (b : Book) → Below k b → write_seen i none b.seen j ≡ some u → u < k
write_none-Below k i j u b below h = elim (Bool-cases (eqb_ℤ j i)) [
  | inl same ↦ let e : none ≡ some u = rw same at h in cc
  | inr other ↦ let e : b.seen j ≡ some u = rw other at h in below j u e
]

settle-goes :
    (k : ℕ) (closing : Bool) (b : Book)
    → Below k b
    → IsFresh b
    → (b' : Book) × (settle closing b ≡ some b') × Below k b'
unfolding settle drop_last
settle-goes k false b below fresh = (b, refl, below)
settle-goes k true b below (inl nobody) = (b, rw nobody refl, below)
settle-goes k true b below (inr (i, t, at_i, there)) = (
  record { seen = write_seen i none b.seen; last = some i },
  rw (at_i, there) refl,
  λ j u h. write_none-Below k i j u b below h,
)

module _ (W : World) (shuts : ℕ → Bool) (quit : Book → Option Book) where
  -- A message that is no disconnect request, or one that the program does not answer with a
  -- deletion.
  abbrev IsHarmless : Option Incoming → Type 0
  IsHarmless none = Unit {0}
  IsHarmless (some m) = leaves W m ≡ true → (b : Book) → quit b ≡ some b

  AllHarmless : Rounds W → Type 0
  AllHarmless [] = Unit {0}
  AllHarmless ((heard, r) ∷ rest) = IsHarmless heard × AllHarmless rest

  Below-suc : (k : ℕ) (b : Book) → Below k b → Below (suc k) b
  Below-suc k b below i t h = omega (arith, below i t h)

  attend-goes :
      (k : ℕ) (heard : Option Incoming) (b : Book)
      → Below k b
      → k < 2 ^ 31
      → IsHarmless heard
      → (b' : Book) × (hear W (attend W shuts quit) heard b ≡ some b') × Below (suc k) b'
  unfolding attend
  attend-goes k none b below small harmless = (b, refl, Below-suc k b below)
  attend-goes k (some m) b below small harmless = elim (Bool-cases (leaves W m)) [
    | inl goes ↦ (b, rw goes (harmless goes b), Below-suc k b below)
    | inr stays ↦
        let (b₁, visited, below₁, fresh) = visit-goes k (pos m.id) b below small in
        let (b', settled, below') = settle-goes (suc k) (closes shuts m.body) b₁ below₁ fresh in
        (b', rw (stays, visited, settled) refl, below')
  ]

  after-goes :
      (rounds : Rounds W) (k : ℕ) (b : Book)
      → Below k b
      → k + length rounds < 2 ^ 31
      → AllHarmless rounds
      → (b' : Book) × (after W (attend W shuts quit) rounds b ≡ some b')
  unfolding after AllHarmless
  after-goes [] k b below small harmless = (b, refl)
  after-goes ((heard, r) ∷ rest) k b below small (harmless, later) =
      let (b₁, heeded, below₁) = attend-goes k heard b below (omega arith) harmless in
      let (b', runs) = after-goes rest (suc k) b₁ below₁ (omega arith) later in
      (b', rw (after, heeded, runs) refl)

-- No message is a disconnect request.
unfoldable pub NoneLeaves : (W : World) → Rounds W → Type 0
NoneLeaves W [] = Unit {0}
NoneLeaves W ((none, r) ∷ rest) = NoneLeaves W rest
NoneLeaves W ((some m, r) ∷ rest) = (leaves W m ≡ false) × NoneLeaves W rest

none_harmful :
    (W : World) (shuts : ℕ → Bool) (quit : Book → Option Book) (rounds : Rounds W)
    → NoneLeaves W rounds
    → AllHarmless W shuts quit rounds
unfolding AllHarmless NoneLeaves
none_harmful W shuts quit [] stay = tt
none_harmful W shuts quit ((none, r) ∷ rest) stay = (tt, none_harmful W shuts quit rest stay)
none_harmful W shuts quit ((some m, r) ∷ rest) (stays, stay) =
    (λ goes. cc, none_harmful W shuts quit rest stay)

-- Where a disconnect request is not answered, all messages are harmless.
all_harmless : (W : World) (rounds : Rounds W) → AllHarmless W final_byte some rounds
unfolding AllHarmless
all_harmless W [] = tt
all_harmless W ((none, r) ∷ rest) = (tt, all_harmless W rest)
all_harmless W ((some m, r) ∷ rest) = (λ goes b. refl, all_harmless W rest)

returns_nothing :
    (o : Outcome (Option ℤ × Sent)) (b : Book)
    → MainAs o (some b)
    → (sent : Sent) × (o ≡ ret (none, sent))
returns_nothing o b ((status, sent), runs, nothing) = (sent, runs ∙ ap (λ x. ret (x, sent)) nothing)

blank-Below : Below 0 blank
blank-Below i t h = cc

module _ (W : World) (L : IsDict compare_session_id W.D) (S : IsLawful W.B)
    (scans : IsScanner W.scan) (no_dump : W.dump ≡ false) (z z₁ : W.Z.State)
    (pull_arg pub_arg : Bytes) (ends : Ends W.Z) (rounds : Rounds W)
    (set_up : open_sockets W.Z W.B z (pos 1) pull_arg pub_arg (some sender) ≡ ret (ends, z₁))
    (delivered : Delivers W ends.pull z₁ rounds) (few : length rounds < 2 ^ 31) where
  -- If `main` of ws_handshake.c has opened its sockets, messages as Mongrel2 writes them arrive,
  -- one or none in each round, none of them a disconnect request, and no signal does, then `main`
  -- is still running behind fewer than 2^31 rounds: it does not end, fail, wait for ever or come
  -- to undefined behaviour. The build has no frame dump, and the frame of the greeting is
  -- allocated. The dictionary, the string functions and `sscanf` behave as documented.
  pub handshake_main-steady :
      W.can_alloc (frame_size false (length hello)) ≡ true
      → NoneLeaves W rounds
      → (sent : Sent) × (handshake_main W z (pull_arg ∷ pub_arg ∷ []) (rounds_of W rounds)
          ≡ ret (none, sent))
  handshake_main-steady memory stay =
      let (b, goes_on) =
        after-goes W close_byte drop_last rounds 0 blank blank-Below (omega arith)
          (none_harmful W close_byte drop_last rounds stay) in
      returns_nothing _ b (
        rw goes_on at (
          handshake_main-book W L S scans no_dump memory z z₁ pull_arg pub_arg ends rounds set_up
            delivered))

  -- If `main` of ws_variable.c has opened its sockets, messages as Mongrel2 writes them arrive,
  -- one or none in each round, and no signal does, then `main` is still running behind fewer than
  -- 2^31 rounds, whatever the messages are: it does not end, fail, wait for ever or come to
  -- undefined behaviour. The build has no frame dump, and the frame of the greeting is allocated.
  -- The dictionary, the string functions and `sscanf` behave as documented.
  pub variable_main-steady :
      W.can_alloc (frame_size false 64553) ≡ true
      → (sent : Sent) × (variable_main W z (pull_arg ∷ pub_arg ∷ []) (rounds_of W rounds)
          ≡ ret (none, sent))
  variable_main-steady memory =
      let (b, goes_on) =
        after-goes W final_byte some rounds 0 blank blank-Below (omega arith)
          (all_harmless W rounds) in
      returns_nothing _ b (
        rw goes_on at (
          variable_main-book W L S scans no_dump memory z z₁ pull_arg pub_arg ends rounds set_up
            delivered))
