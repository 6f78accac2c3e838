-- ===== src/Handlers/Variable.antt =====
-- example/handlers/ws_variable.c: answers each websocket client with a long random message, and
-- forgets it at a frame with the FIN bit. Its loop and its table are those of Handlers/Sessions.
use libm2handler.Base.{
  ℕ, suc, zero, ◌+◌, ◌<◌, ◌≤◌, ◌≡◌, refl, ap, [], ◌∷◌, ◌++◌, arith, List, Bool, not, ◌==◌, ne→==,
  some, Option, ℤ, pos, length, Bytes, bytes_of, decimal, decimal_ℤ, All, Outcome, ret, ◌>>=◌, ◌+◌,
  append_assoc, append-nil, sym,
}
use Prim.Native.Nat.{◌%◌, ◌-◌}
use libm2handler.Extern.{Bstring, Bstrlib, IsLawful, int_arg, str_arg, blength, c_string}
use libm2handler.Framing.Flags.{get_fin}
use libm2handler.Handler.Reply.{Sent}
use libm2handler.Handlers.Handshake.{sender}
use libm2handler.Handler.Request.{Request}
use libm2handler.Handlers.SetUp.{call_for_stop}
use libm2handler.Handlers.Sessions.{compare_session, World, Round, Style, session_main}

-- The two functions that ws_handshake.c has as well, written again.
abbrev pub variable_call_for_stop : ℕ → ℤ → Outcome ℤ
variable_call_for_stop = call_for_stop

abbrev pub variable_compare : {J : Type 0} → Request J → Request J → ℤ
variable_compare = compare_session

-- `WEBSOCKET_MEDIUM_MAX`: src/websocket.h
abbrev pub websocket_medium_max : ℕ
websocket_medium_max = 65536

-- `'A' + rand()%range`
abbrev pub rand_char : ℕ → ℕ
rand_char r = b'A' + r % (b'Z' - b'A')

module _ (B : Bstrlib) (rand : ℕ → ℕ) where
  -- The loop from `i` on, `left` times. `rand i` is what the call of `rand` gives there.
  unfoldable pub rand_chars : ℕ → ℕ → Bstring → Bstring
  rand_chars i zero randchars = randchars
  rand_chars i (suc left) randchars =
      rand_chars (suc i) left (B.bcatblk randchars (rand_char (rand i) ∷ []) (pos 1)).1

  -- The message for a length `len`, which the code has as a constant.
  unfoldable pub rand_text : ℕ → Bstring
  unfolding rand_chars
  rand_text len =
      let randchars = rand_chars 0 len (B.bfromcstr (some [])) in
      B.bformat (bytes_of "Len: %d Data: %.*s")
        (int_arg (pos len) ∷ int_arg (pos (blength randchars)) ∷ str_arg randchars ∷ [])

  unfoldable pub genrandmsg : Bstring
  genrandmsg = rand_text (websocket_medium_max - 1000)

-- A frame with the FIN bit, which the code takes for a close.
unfoldable pub is_final_frame : ℕ → Bytes → Outcome Bool
is_final_frame len frame = do fin ← get_fin len frame; ret (not (fin == 0))

module _ (W : World) where
  abbrev pub variable : Style W
  variable = record {
    is_close = is_final_frame;
    greeting = genrandmsg W.B;
    leave = λ request s. ret s;
  }

  unfoldable pub variable_main : W.Z.State → List Bytes → List (Round W) → Outcome (Option ℤ × Sent)
  variable_main = session_main W variable sender

-- `A` to `Y`
abbrev pub IsLetter : ℕ → Type 0
IsLetter c = (b'A' ≤ c) × (c < b'Z')

module _ (B : Bstrlib) (S : IsLawful B) (rand : ℕ → ℕ) where
  letters : ℕ → ℕ → Bytes
  letters i zero = []
  letters i (suc left) = rand_char (rand i) ∷ letters (suc i) left

  length-letters : (i left : ℕ) → length (letters i left) ≡ left
  unfolding letters
  length-letters i zero = refl
  length-letters i (suc left) = ap suc (length-letters (suc i) left)

  letters-IsLetter : (i left : ℕ) → All IsLetter (letters i left)
  unfolding letters
  letters-IsLetter i zero = tt
  letters-IsLetter i (suc left) = ((omega arith, omega arith), letters-IsLetter (suc i) left)

  c_string-letters : (i left : ℕ) → c_string (letters i left) ≡ letters i left
  unfolding letters c_string
  c_string-letters i zero = refl
  c_string-letters i (suc left) =
      rw (ne→== (rand_char (rand i)) 0 (omega arith), c_string-letters (suc i) left)

  rand_chars_lem :
      (i left : ℕ) (before : Bytes)
      → rand_chars B rand i left (some before) ≡ some (before ++ letters i left)
  unfolding rand_chars letters
  rand_chars_lem i zero before = ap some (sym (append-nil before))
  rand_chars_lem i (suc left) before =
      let c : ℕ = rand_char (rand i) in
      rw (S.bcatblk_some before (c ∷ []), rand_chars_lem (suc i) left (before ++ (c ∷ [])))
        (ap some (append_assoc before (c ∷ []) (letters (suc i) left)))

  rand_text_lem :
      (len : ℕ)
      → rand_text B rand len
        ≡ some (bytes_of "Len: " ++ (decimal len ++ (bytes_of " Data: " ++ letters 0 len)))
  unfolding rand_text c_string decimal_ℤ
  rand_text_lem len =
      rw (rand_text, S.bfromcstr_some [], rand_chars_lem 0 len [])
        (S.bformat_number (bytes_of "Len: ") (bytes_of " Data: ") (letters 0 len) (pos len)
          (ground arith) (ground arith) (c_string-letters 0 len))

  -- `genrandmsg` makes the text `Len: 64536 Data: ` followed by exactly 64536 letters from A to
  -- Y, whatever numbers `rand` gives. The string functions behave as documented.
  pub genrandmsg_lem :
      (data_part : Bytes) × (genrandmsg B rand ≡ some (bytes_of "Len: 64536 Data: " ++ data_part))
      × (length data_part ≡ 64536)
      × All IsLetter data_part
  unfolding genrandmsg decimal
  genrandmsg_lem =
      (letters 0 64536, rand_text_lem 64536, length-letters 0 64536, letters-IsLetter 0 64536)
