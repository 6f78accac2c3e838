-- ===== src/Extern.antt =====
-- The code that libm2handler calls and does not own: bstrlib (bstr/), the C library's `sscanf`, and
-- jansson. A `bstring` or a `char *` that may be NULL is an `Option Bytes`.
use libm2handler.Base.{
  ℕ, ◌+◌, ◌≤◌, ◌<◌, ◌^◌, ◌≡◌, ◌≢◌, ◌↔◌, refl, arith, ◌==◌, [], ◌∷◌, ◌++◌, List, Bool, Option, none,
  some, ℤ, pos, negsuc, length, Bytes, All, IsDigit, decimal_ℤ, decimal_value, if◌then◌else◌,
}

abbrev pub Bstring : Type 0
Bstring = Option Bytes

-- The macro `blength`.
abbrev pub blength : Bstring → ℕ
blength none = 0
blength (some b) = length b

-- The C string that starts where the bytes do: `bdata(b)` passed as a `char *`.
unfoldable pub c_string : Bytes → Bytes
c_string [] = []
c_string (c ∷ cs) = let rest = c_string cs in if c == 0 then [] else c ∷ rest

pub c_string_twice : (s : Bytes) → c_string (c_string s) ≡ c_string s
unfolding c_string
c_string_twice [] = refl
c_string_twice (c ∷ cs) = ground (arith, c_string_twice cs)

-- An argument of a format.
pub data Arg : Type 0 where
  int_arg : ℤ → Arg
  str_arg : Bstring → Arg

pub record Bstrlib : Type 0 where
  pub binchr : Bstring → ℤ → Bytes → ℤ
  pub bmidstr : Bstring → ℤ → ℤ → Bstring
  pub bfromcstr : Option Bytes → Bstring
  pub blk2bstr : Bytes → ℤ → Bstring
  pub bstrcpy : Bstring → Bstring
  pub bconcat : Bstring → Bstring → ℤ × Bstring
  pub bcatcstr : Bstring → Bytes → ℤ × Bstring
  pub bstrcmp : Bstring → Bstring → ℤ
  pub bformat : Bytes → List Arg → Bstring
  pub base64 : Bstring → Bstring
  pub bcatblk : Bstring → Bytes → ℤ → ℤ × Bstring
  pub bfromcstralloc : ℤ → Option Bytes → Bstring
  pub binstrcaseless : Bstring → ℤ → Bstring → ℤ

-- `%*s %d:%d, `
abbrev pub response_header : Bytes
response_header = b'%' ∷ b'*' ∷ b's' ∷ b' ' ∷ b'%' ∷ b'd' ∷ b':' ∷ b'%' ∷ b'd' ∷ b',' ∷ b' ' ∷ []

-- What bstrlib documents of the calls below, while memory lasts.
pub record IsLawful (B : Bstrlib) : Type 0 where
  -- `binchr` finds the first byte of the set from a position on, or returns BSTR_ERR.
  pub binchr-found :
      (pre mid post : Bytes) (c k : ℕ)
      → k ≡ length pre
      → All (λ x. x ≢ c) mid
      → B.binchr (some (pre ++ (mid ++ c ∷ post))) (pos k) (c ∷ []) ≡ pos (k + length mid)
  pub binchr-missing :
      (pre mid : Bytes) (c k : ℕ)
      → k ≡ length pre
      → All (λ x. x ≢ c) mid
      → B.binchr (some (pre ++ mid)) (pos k) (c ∷ []) ≡ negsuc 0
  -- `bmidstr` copies a range, cut off at the end of the string; a negative length is empty.
  pub bmidstr-inside :
      (pre mid post : Bytes) (k n : ℕ)
      → k ≡ length pre
      → n ≡ length mid
      → B.bmidstr (some (pre ++ (mid ++ post))) (pos k) (pos n) ≡ some mid
  pub bmidstr_cut :
      (pre mid : Bytes) (k n : ℕ)
      → k ≡ length pre
      → length mid ≤ n
      → B.bmidstr (some (pre ++ mid)) (pos k) (pos n) ≡ some mid
  pub bmidstr_negative : (b : Bytes) (k n : ℕ) → B.bmidstr (some b) (pos k) (negsuc n) ≡ some []
  pub bfromcstr_some : (s : Bytes) → B.bfromcstr (some s) ≡ some (c_string s)
  pub bfromcstr_none : B.bfromcstr none ≡ none
  pub blk2bstr_some : (b : Bytes) → B.blk2bstr b (pos (length b)) ≡ some b
  pub bstrcpy_some : (b : Bytes) → B.bstrcpy (some b) ≡ some b
  pub bconcat_some : (a b : Bytes) → B.bconcat (some a) (some b) ≡ (pos 0, some (a ++ b))
  pub bconcat_none : (a : Bytes) → B.bconcat (some a) none ≡ (negsuc 0, some a)
  pub bcatcstr_some :
      (a s : Bytes) → c_string s ≡ s → B.bcatcstr (some a) s ≡ (pos 0, some (a ++ s))
  -- `bstrcmp` is 0 for equal C strings alone; for NULL it is SHRT_MIN.
  pub bstrcmp_iff :
      (a b : Bytes)
      → c_string a ≡ a
      → c_string b ≡ b
      → (B.bstrcmp (some a) (some b) ≡ pos 0) ↔ (a ≡ b)
  pub bstrcmp_none : (b : Bstring) → B.bstrcmp none b ≡ negsuc 32767
  -- A `%*s` whose width is the length of its string, without a NUL inside, prints the string.
  pub bformat-response_header :
      (s : Bytes) (n i : ℤ)
      → c_string s ≡ s
      → B.bformat response_header
          (int_arg (pos (length s)) ∷ str_arg (some s) ∷ int_arg n ∷ int_arg i ∷ [])
        ≡ some (s ++ (b' ' ∷ (decimal_ℤ n ++ (b':' ∷ (decimal_ℤ i ++ (b',' ∷ b' ' ∷ []))))))
  pub bcatblk_some :
      (a blk : Bytes) → B.bcatblk (some a) blk (pos (length blk)) ≡ (pos 0, some (a ++ blk))
  pub bfromcstralloc_some :
      (n : ℕ) (s : Bytes) → B.bfromcstralloc (pos n) (some s) ≡ some (c_string s)
  -- A number, and a string whose precision is its length, without a NUL inside.
  pub bformat_number :
      (front mid s : Bytes) (n : ℤ)
      → All (λ x. x ≢ b'%') front
      → All (λ x. x ≢ b'%') mid
      → c_string s ≡ s
      → B.bformat
          (front ++ (b'%' ∷ b'd' ∷ (mid ++ (b'%' ∷ b'.' ∷ b'*' ∷ b's' ∷ []))))
          (int_arg n ∷ int_arg (pos (length s)) ∷ str_arg (some s) ∷ [])
        ≡ some (front ++ (decimal_ℤ n ++ (mid ++ s)))
  pub bformat_one :
      (front s back : Bytes)
      → All (λ x. x ≢ b'%') front
      → All (λ x. x ≢ b'%') back
      → c_string s ≡ s
      → B.bformat
          (front ++ (b'%' ∷ b'*' ∷ b's' ∷ back))
          (int_arg (pos (length s)) ∷ str_arg (some s) ∷ [])
        ≡ some (front ++ (s ++ back))

-- `sscanf(s, "%d", &x)`: `none` leaves `x` as it was.
abbrev pub Scanner : Type 0
Scanner = Bytes → Option ℤ

pub record IsScanner (scan : Scanner) : Type 0 where
  pub scan_digits :
      (ds : Bytes)
      → ds ≢ []
      → All IsDigit ds
      → decimal_value ds < 2 ^ 31
      → scan ds ≡ some (pos (decimal_value ds))
  pub scan_nil : scan [] ≡ none

-- jansson. `loads` takes the text; a NULL text is an error.
pub record Jansson : Type 1 where
  pub Json : Type 0
  pub loads : Option Bytes → Option Json
  pub is_object : Json → Bool
  pub object_get : Option Json → Bytes → Option Json
  pub string_value : Option Json → Option Bytes
