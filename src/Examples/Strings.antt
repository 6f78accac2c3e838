-- ===== src/Examples/Strings.antt =====
-- Concrete string functions with the documented behaviour of bstrlib and of `sscanf`.
use libm2handler.Base.{
  ℕ, zero, suc, ◌+◌, ◌-◌, ◌≤◌, ◌≡◌, ◌≢◌, ◌↔◌, refl, sym, ap, ◌∙◌, arith, ◌==◌, ne→==, eq→==, leb,
  ◌&&◌, [], ◌∷◌, ◌++◌, Bool, true, false, Option, none, some, ℤ, pos, negsuc, length, take, drop,
  take-length-append, drop-length-append, Bytes, All, IsDigit, decimal_value, if◌then◌else◌, le→leb,
}
use libm2handler.Extern.{Bstring, Scanner, IsScanner}

-- The distance to the first byte `c`.
abbrev distance : ℕ → Bytes → Option ℕ
distance c [] = none
distance c (x ∷ xs) =
    let further = distance c xs in
    if x == c then some 0 else elim further [ none ↦ none | some d ↦ some (suc d) ]

distance-found :
    (c : ℕ) (mid post : Bytes)
    → All (λ x. x ≢ c) mid
    → distance c (mid ++ c ∷ post) ≡ some (length mid)
distance-found c [] post h = rw (eq→== c c refl)
distance-found c (x ∷ mid) post h = rw (ne→== x c h.0, distance-found c mid post h.1)

distance-missing : (c : ℕ) (mid : Bytes) → All (λ x. x ≢ c) mid → distance c mid ≡ none
distance-missing c [] h = refl
distance-missing c (x ∷ mid) h = rw (ne→== x c h.0, distance-missing c mid h.1)

abbrev found_at : ℕ → Option ℕ → ℤ
found_at k none = negsuc 0
found_at k (some d) = pos (k + d)

abbrev pub binchr : Bstring → ℤ → Bytes → ℤ
binchr (some b) (pos k) (c ∷ []) = found_at k (distance c (drop k b))
binchr b k set = negsuc 0

pub binchr-found_lem :
    (pre mid post : Bytes) (c k : ℕ)
    → k ≡ length pre
    → All (λ x. x ≢ c) mid
    → binchr (some (pre ++ (mid ++ c ∷ post))) (pos k) (c ∷ []) ≡ pos (k + length mid)
binchr-found_lem pre mid post c k at clean =
    rw (at, drop-length-append pre (mid ++ c ∷ post), distance-found c mid post clean)

pub binchr-missing_lem :
    (pre mid : Bytes) (c k : ℕ)
    → k ≡ length pre
    → All (λ x. x ≢ c) mid
    → binchr (some (pre ++ mid)) (pos k) (c ∷ []) ≡ negsuc 0
binchr-missing_lem pre mid c k at clean =
    rw (at, drop-length-append pre mid, distance-missing c mid clean)

abbrev pub bmidstr : Bstring → ℤ → ℤ → Bstring
bmidstr none left len = none
bmidstr (some b) left (negsuc n) = some []
bmidstr (some b) (pos k) (pos n) = some (take n (drop k b))
bmidstr (some b) (negsuc m) (pos n) = some (take (n - suc m) b)

pub bmidstr-inside_lem :
    (pre mid post : Bytes) (k n : ℕ)
    → k ≡ length pre
    → n ≡ length mid
    → bmidstr (some (pre ++ (mid ++ post))) (pos k) (pos n) ≡ some mid
bmidstr-inside_lem pre mid post k n at fits =
    rw (at, fits, drop-length-append pre (mid ++ post), take-length-append mid post)

take_all : (n : ℕ) (xs : Bytes) → length xs ≤ n → take n xs ≡ xs
take_all zero [] h = refl
take_all zero (x ∷ xs) h = absurd (omega arith)
take_all (suc n) [] h = refl
take_all (suc n) (x ∷ xs) h = rw (take_all n xs (omega arith))

pub bmidstr_cut_lem :
    (pre mid : Bytes) (k n : ℕ)
    → k ≡ length pre
    → length mid ≤ n
    → bmidstr (some (pre ++ mid)) (pos k) (pos n) ≡ some mid
bmidstr_cut_lem pre mid k n at fits = rw (at, drop-length-append pre mid, take_all n mid fits)

abbrev pub same_bytes : Bytes → Bytes → Bool
same_bytes [] [] = true
same_bytes [] (y ∷ ys) = false
same_bytes (x ∷ xs) [] = false
same_bytes (x ∷ xs) (y ∷ ys) = (x == y) && same_bytes xs ys

same_bytes_refl : (a : Bytes) → same_bytes a a ≡ true
same_bytes_refl [] = refl
same_bytes_refl (x ∷ xs) = rw (eq→== x x refl, same_bytes_refl xs)

same_bytes-eq : (a b : Bytes) → same_bytes a b ≡ true → a ≡ b
same_bytes-eq [] [] h = refl
same_bytes-eq [] (y ∷ ys) h = cc
same_bytes-eq (x ∷ xs) [] h = cc
same_bytes-eq (x ∷ xs) (y ∷ ys) h = ground (arith, same_bytes-eq xs ys)

pub same_bytes_iff : (a b : Bytes) → (same_bytes a b ≡ true) ↔ (a ≡ b)
same_bytes_iff a b = (same_bytes-eq a b, λ h. ap (same_bytes a) (sym h) ∙ same_bytes_refl a)

-- The digits at the front.
abbrev digits_of : Bytes → Bytes
digits_of [] = []
digits_of (c ∷ cs) = let rest = digits_of cs in if leb b'0' c && leb c b'9' then c ∷ rest else []

digits_of-IsDigit : (ds : Bytes) → All IsDigit ds → digits_of ds ≡ ds
digits_of-IsDigit [] h = refl
digits_of-IsDigit (c ∷ cs) h =
    rw (le→leb b'0' c h.0.0, le→leb c b'9' h.0.1, digits_of-IsDigit cs h.1)

abbrev number_of : Bytes → Option ℤ
number_of [] = none
number_of (c ∷ cs) = some (pos (decimal_value (c ∷ cs)))

number_of-digits : (ds : Bytes) → ds ≢ [] → number_of ds ≡ some (pos (decimal_value ds))
number_of-digits [] h = absurd (h refl)
number_of-digits (c ∷ cs) h = refl

-- Neither spaces nor a sign are read.
abbrev pub scan : Scanner
scan s = number_of (digits_of s)

pub scan-IsScanner : IsScanner scan
scan-IsScanner = record {
  scan_digits = λ ds some_digits digits small.
      rw (digits_of-IsDigit ds digits) (number_of-digits ds some_digits);
  scan_nil = refl;
}
