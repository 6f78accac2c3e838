-- ===== src/Examples/Printing.antt =====
-- A concrete `bformat`, for the formats that the code uses.
use libm2handler.Base.{
  ℕ, ◌-◌, ◌≡◌, ◌≢◌, refl, ap, arith, ◌==◌, ne→==, [], ◌∷◌, ◌++◌, append-nil, List, none, some, ℤ,
  pos, pos_part, length, replicate, take, Bytes, All, decimal_ℤ, if◌then◌else◌,
}
use libm2handler.Extern.{Bstring, Arg, int_arg, str_arg, c_string, response_header}

-- What stands before the place in the format: plain text, `%`, `%*`, `%.` or `%.*`.
pub data Mode : Type 0 where
  plain percent star dot dot_star : Mode

-- At least `w` bytes, filled up with spaces in front.
abbrev padded : ℕ → Bytes → Bytes
padded w s = replicate (w - length s) b' ' ++ s

abbrev text_arg : ℤ → Bstring → Bytes
text_arg w none = []
text_arg w (some s) = padded (pos_part w) (c_string s)

abbrev Output : Type 0
Output = record { mode : Mode; out : Bytes; args : List Arg }

abbrev number_step : List Arg → Output
number_step (int_arg n ∷ args) = record { mode = plain; out = decimal_ℤ n; args = args }
number_step args = record { mode = plain; out = []; args = args }

abbrev string_step : List Arg → Output
string_step (int_arg w ∷ str_arg s ∷ args) = record {
  mode = plain;
  out = text_arg w s;
  args = args;
}
string_step args = record { mode = plain; out = []; args = args }

abbrev cut_arg : ℤ → Bstring → Bytes
cut_arg w none = []
cut_arg w (some s) = take (pos_part w) (c_string s)

abbrev cut_step : List Arg → Output
cut_step (int_arg w ∷ str_arg s ∷ args) = record { mode = plain; out = cut_arg w s; args = args }
cut_step args = record { mode = plain; out = []; args = args }

abbrev format_step : Mode → ℕ → List Arg → Output
format_step plain c args =
    if c == b'%'
    then record { mode = percent; out = []; args = args }
    else record { mode = plain; out = c ∷ []; args = args }
format_step percent c args =
    if c == b'*'
    then record { mode = star; out = []; args = args }
    else if c == b'.'
    then record { mode = dot; out = []; args = args }
    else number_step args
format_step star c args = string_step args
format_step dot c args = record { mode = dot_star; out = []; args = args }
format_step dot_star c args = cut_step args

unfoldable pub print : Mode → Bytes → List Arg → Bytes
print mode [] args = []
print mode (c ∷ cs) args = let r = format_step mode c args in r.out ++ print r.mode cs r.args

print-plain :
    (front back : Bytes) (args : List Arg)
    → All (λ x. x ≢ b'%') front
    → print plain (front ++ back) args ≡ front ++ print plain back args
unfolding print
print-plain [] back args h = refl
print-plain (c ∷ front) back args h = rw (ne→== c b'%' h.0, print-plain front back args h.1)

print-nil : (mode : Mode) (args : List Arg) → print mode [] args ≡ []
unfolding print
print-nil mode args = refl

no_padding : (n : ℕ) → replicate {A = ℕ} (n - n) b' ' ≡ []
no_padding n =
    let none_left : n - n ≡ 0 = omega arith in ap (λ k. replicate {A = ℕ} k b' ') none_left

print-string :
    (s back : Bytes) (args : List Arg)
    → c_string s ≡ s
    → print plain (b'%' ∷ b'*' ∷ b's' ∷ back) (int_arg (pos (length s)) ∷ str_arg (some s) ∷ args)
      ≡ s ++ print plain back args
unfolding print
print-string s back args h = rw (h, no_padding (length s))

print-number :
    (n : ℤ) (back : Bytes) (args : List Arg)
    → print plain (b'%' ∷ b'd' ∷ back) (int_arg n ∷ args) ≡ decimal_ℤ n ++ print plain back args
unfolding print
print-number n back args = refl

print_back : (back : Bytes) → All (λ x. x ≢ b'%') back → print plain back [] ≡ back
print_back back h =
    rw (append-nil back, print-nil plain [], append-nil back) at (print-plain back [] [] h)

pub print-response_header :
    (s : Bytes) (n i : ℤ)
    → c_string s ≡ s
    → print plain response_header
        (int_arg (pos (length s)) ∷ str_arg (some s) ∷ int_arg n ∷ int_arg i ∷ [])
      ≡ s ++ (b' ' ∷ (decimal_ℤ n ++ (b':' ∷ (decimal_ℤ i ++ (b',' ∷ b' ' ∷ [])))))
print-response_header s n i h = rw (
  print-string s (b' ' ∷ b'%' ∷ b'd' ∷ b':' ∷ b'%' ∷ b'd' ∷ b',' ∷ b' ' ∷ [])
      (int_arg n ∷ int_arg i ∷ []) h,
  print-plain (b' ' ∷ []) (b'%' ∷ b'd' ∷ b':' ∷ b'%' ∷ b'd' ∷ b',' ∷ b' ' ∷ [])
      (int_arg n ∷ int_arg i ∷ []) (omega arith),
  print-number n (b':' ∷ b'%' ∷ b'd' ∷ b',' ∷ b' ' ∷ []) (int_arg i ∷ []),
  print-plain (b':' ∷ []) (b'%' ∷ b'd' ∷ b',' ∷ b' ' ∷ []) (int_arg i ∷ []) (omega arith),
  print-number i (b',' ∷ b' ' ∷ []) [],
  print_back (b',' ∷ b' ' ∷ []) (omega arith),
)

pub take_whole : (b : Bytes) → take (length b) b ≡ b
take_whole [] = refl
take_whole (x ∷ xs) = rw (take_whole xs)

print-cut :
    (s back : Bytes) (args : List Arg)
    → c_string s ≡ s
    → print plain
        (b'%' ∷ b'.' ∷ b'*' ∷ b's' ∷ back)
        (int_arg (pos (length s)) ∷ str_arg (some s) ∷ args)
      ≡ s ++ print plain back args
unfolding print
print-cut s back args h = rw (h, take_whole s)

pub print_number :
    (front mid s : Bytes) (n : ℤ)
    → All (λ x. x ≢ b'%') front
    → All (λ x. x ≢ b'%') mid
    → c_string s ≡ s
    → print plain
        (front ++ (b'%' ∷ b'd' ∷ (mid ++ (b'%' ∷ b'.' ∷ b'*' ∷ b's' ∷ []))))
        (int_arg n ∷ int_arg (pos (length s)) ∷ str_arg (some s) ∷ [])
      ≡ front ++ (decimal_ℤ n ++ (mid ++ s))
print_number front mid s n f m h = rw (
  print-plain front (b'%' ∷ b'd' ∷ (mid ++ (b'%' ∷ b'.' ∷ b'*' ∷ b's' ∷ [])))
      (int_arg n ∷ int_arg (pos (length s)) ∷ str_arg (some s) ∷ []) f,
  print-number n (mid ++ (b'%' ∷ b'.' ∷ b'*' ∷ b's' ∷ []))
      (int_arg (pos (length s)) ∷ str_arg (some s) ∷ []),
  print-plain mid (b'%' ∷ b'.' ∷ b'*' ∷ b's' ∷ [])
      (int_arg (pos (length s)) ∷ str_arg (some s) ∷ []) m,
  print-cut s [] [] h,
  print-nil plain [],
  append-nil s,
)

pub print_one :
    (front s back : Bytes)
    → All (λ x. x ≢ b'%') front
    → All (λ x. x ≢ b'%') back
    → c_string s ≡ s
    → print plain
        (front ++ (b'%' ∷ b'*' ∷ b's' ∷ back))
        (int_arg (pos (length s)) ∷ str_arg (some s) ∷ [])
      ≡ front ++ (s ++ back)
print_one front s back f b h = rw (
  print-plain front (b'%' ∷ b'*' ∷ b's' ∷ back) (int_arg (pos (length s)) ∷ str_arg (some s) ∷ [])
      f,
  print-string s back [] h,
  print_back back b,
)
