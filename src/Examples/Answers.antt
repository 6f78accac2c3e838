-- ===== src/Examples/Answers.antt =====
-- The handlers of HTTP requests at concrete inputs: example/handlers/.
use libm2handler.Base.{
  ℕ, ◌-◌, ◌++◌, ◌&&◌, ◌≤◌, leb, map, if◌then◌else◌, ◌≡◌, refl, [], ◌∷◌, List, none, some, ℤ, pos,
  replicate, Bytes, ret, faults, ◌>>=◌, ExitsOr, length,
}
use libm2handler.Framing.Debug.{has_nul}
use libm2handler.Handlers.SetUp.{open_sockets, close_sockets}
use libm2handler.Handlers.Shutdown.{close_sockets-open_sockets}
use libm2handler.Handlers.Incoming.{Incoming, Arrive}
use libm2handler.Handlers.Upper.{toupper_loop, toupper_loop_lem, all_responses}
use libm2handler.Handlers.Null.{
  ident_front, ident_back, ident_headers, ident_headers_iff, null_loop, null_loop_lem,
  all_null_responses,
}
use libm2handler.Handlers.Fifo.{fifo_serve, fifo_serve_full}
use libm2handler.Examples.Strings.{scan, scan-IsScanner}
use libm2handler.Examples.Format.{strings, strings-IsLawful}
use libm2handler.Examples.Queue.{queue, queue-IsZmq, opened-nil, question, question-IsProper}

abbrev ok : Bytes
ok = b'o' ∷ b'k' ∷ []

abbrev upper : ℕ → ℕ
upper c = if leb b'a' c && leb c b'z' then c - 32 else c

abbrev twice : List (Incoming × (ℤ × ℤ))
twice = (question, (pos 0, pos 5)) ∷ (question, (pos 7, pos 0)) ∷ []

twice-Arrive : Arrive queue 0 [] (map (λ r. r.0) twice) []
unfolding Arrive
twice-Arrive = ([], refl, (question-IsProper, ([], refl, (question-IsProper, refl))))

toupper_loop_example :
    toupper_loop queue strings scan (map upper) ℕ [] 0 [] (some ok) (map (λ r. r.1) twice)
    ≡ ret (all_responses queue strings scan (map upper) ℕ ok (map (λ r. r.0) twice), [])
toupper_loop_example =
    toupper_loop_lem queue strings scan (map upper) ℕ strings-IsLawful scan-IsScanner 0 ok [] []
      twice [] twice-Arrive

null_loop_example :
    null_loop queue strings scan ℕ [] 0 [] (some ok) (map (λ r. r.1) twice)
    ≡ ret (
      all_null_responses queue strings scan ℕ strings-IsLawful scan-IsScanner 0 ok
          (map (λ r. r.0) twice),
      [],
    )
null_loop_example =
    null_loop_lem queue strings scan ℕ strings-IsLawful scan-IsScanner 0 ok [] [] twice []
      twice-Arrive

ident_headers_example :
    (length ok ≤ 49 → ident_headers ok ≡ ret (ident_front ++ (ok ++ ident_back)))
    × (50 ≤ length ok → ident_headers ok ≡ faults)
ident_headers_example = ident_headers_iff ok

close_sockets-open_sockets_example :
    ExitsOr
      (open_sockets queue strings [] (pos 1) ok ok none >>= λ r.
        close_sockets queue strings r.1 r.0)
      (λ r. r.0 ≡ pos 0)
close_sockets-open_sockets_example =
    close_sockets-open_sockets queue queue-IsZmq strings strings-IsLawful [] (pos 1) ok ok none
      opened-nil

abbrev full_pipe : Bytes
full_pipe = replicate 1024 b'y'

fifo_serve_full_example :
    fifo_serve queue strings scan ℕ [] 0 (some ok) full_pipe (pos 0) (pos 0) ≡ faults
fifo_serve_full_example =
    fifo_serve_full queue strings scan ℕ strings-IsLawful scan-IsScanner 0 ok [] [] question refl
      question-IsProper (pos 0) (pos 0) full_pipe (unfold has_nul in refl) refl
