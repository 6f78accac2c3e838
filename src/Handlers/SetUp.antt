-- ===== src/Handlers/SetUp.antt =====
-- What the `main` functions of example/handlers/ share: addresses, sockets and the signal. The
-- arguments of a program are the strings behind its name.
use libm2handler.Base.{
  ℕ, [], ◌∷◌, List, true, Option, none, some, ℤ, pos, eqb_ℤ, Bytes, if◌then◌else◌, Outcome, ret,
  exits, faults, ◌>>=◌, ◌==◌,
}
use libm2handler.Extern.{Bstrlib, c_string}
use libm2handler.Handler.Headers.{text}
use libm2handler.Handler.Socket.{
  Zmq, init, pull_socket, pub_socket, connect, set_identity, close, deinit,
}

-- What a pointer points to.
abbrev pub target {ℓ} : {A : Type ℓ} → Option A → Outcome A
target none = faults
target (some a) = ret a

-- `bdata(bfromcstr(arg))`
abbrev pub address : Bstrlib → Bytes → Outcome Bytes
address B arg = target (text (B.bfromcstr (some arg)))

-- What `%s` prints: `null_text` is what the C library prints for NULL, if anything.
abbrev pub printed_text : Option Bytes → Option Bytes → Outcome Bytes
printed_text null_text none = target null_text
printed_text null_text (some s) = ret (c_string s)

pub record Ends (Z : Zmq) : Type 0 where
  pub ctx : Z.Context
  pub pull : Z.Handle
  pub pub_end : Z.Handle

module _ (Z : Zmq) (B : Bstrlib) where
  -- The context, the two sockets with their addresses, and the identity if there is one.
  unfoldable pub open_sockets :
      Z.State → ℤ → Bytes → Bytes → Option Bytes → Outcome (Ends Z × Z.State)
  open_sockets z threads pull_arg pub_arg identity = do
    pull_addr ← address B pull_arg
    pub_addr ← address B pub_arg
    (ctx, z₁) ← init Z true z threads
    (pull, z₂) ← pull_socket Z true z₁ ctx
    (r₁, z₃) ← connect Z z₂ pull pull_addr
    (pub_end, z₄) ← pub_socket Z true z₃ ctx
    (r₂, z₅) ← connect Z z₄ pub_end pub_addr
    z₆ ← elim identity [ none ↦ ret z₅ | some name ↦ set_identity Z z₅ pub_end name ]
    ret (record { ctx = ctx; pull = pull; pub_end = pub_end }, z₆)

  -- The end of a `main` that leaves its loop.
  unfoldable pub close_sockets : Z.State → Ends Z → Outcome (ℤ × Z.State)
  close_sockets z ends = do
    (r₁, z₁) ← close Z z (some (some ends.pull))
    (r₂, z₂) ← close Z z₁ (some (some ends.pub_end))
    (r₃, z₃) ← deinit Z z₂ ends.ctx
    ret (pos 0, z₃)

-- `SIGINT`
abbrev pub sigint : ℕ
sigint = 2

-- `shutdown` is 0 or 1. The second SIGINT ends the process.
unfoldable pub call_for_stop : ℕ → ℤ → Outcome ℤ
call_for_stop sig_id shutdown =
    if sig_id == sigint
    then (if eqb_ℤ shutdown (pos 1) then exits else ret (pos 1))
    else ret shutdown

-- The signals that arrive before the next test of `shutdown`.
unfoldable pub signals : List ℕ → ℤ → Outcome ℤ
unfolding call_for_stop
signals [] shutdown = ret shutdown
signals (sig ∷ sigs) shutdown = call_for_stop sig shutdown >>= λ shutdown'. signals sigs shutdown'
