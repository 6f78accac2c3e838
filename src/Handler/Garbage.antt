-- ===== src/Handler/Garbage.antt =====
-- What the parser makes of a message without any delimiter: src/handler.c, lines 202 to 314.
use libm2handler.Base.{
  ℕ, ◌≡◌, refl, [], ◌∷◌, arith, none, some, pos, negsuc, ◌+ℤ◌, ◌-ℤ◌, -ℤ_pos, Bytes, ret,
}
use libm2handler.Extern.{Bstrlib, IsLawful, Scanner, IsScanner, c_string}
use libm2handler.Handler.Netstring.{Lacks, add_int-pos}
use libm2handler.Handler.Request.{space, colon, netstring, parse_request}

module _ (B : Bstrlib) (L : IsLawful B) (scan : Scanner) (S : IsScanner scan) (x : ℕ) (xs : Bytes)
    (no_space : Lacks b' ' (x ∷ xs)) (no_colon : Lacks b':' (x ∷ xs)) where
  after_missing : negsuc 0 +ℤ pos 1 ≡ pos 0
  unfolding ◌+ℤ◌
  after_missing = ground arith

  no_length : (k : ℕ) → negsuc 0 -ℤ pos k ≡ negsuc k
  unfolding ◌-ℤ◌
  no_length k = ground arith

  no_digits : scan (c_string []) ≡ none
  unfolding c_string
  no_digits = S.scan_nil

  nothing : B.bmidstr (some (x ∷ xs)) (pos 0) (pos 0) ≡ some []
  nothing = L.bmidstr-inside [] [] (x ∷ xs) 0 0 refl refl

  no_space_found : B.binchr (some (x ∷ xs)) (pos 0) space ≡ negsuc 0
  no_space_found = L.binchr-missing [] (x ∷ xs) b' ' 0 refl no_space

  -- From a place where no colon follows, nothing is read, and the next place is the start.
  netstring_garbage :
      (k : ℕ)
      → B.binchr (some (x ∷ xs)) (pos k) colon ≡ negsuc 0
      → netstring B scan (some (x ∷ xs)) (pos k) (pos 0) ≡ ret (some ([], pos 0))
  unfolding netstring
  netstring_garbage k missing =
      rw (missing, no_length k, L.bmidstr_negative (x ∷ xs) k k, no_digits, netstring)
        (rw (missing, after_missing, add_int-pos 0 0 (omega arith), -ℤ_pos 0 0 0 refl, nothing))

  -- A message that is not empty and holds neither a space nor a colon is accepted if the two
  -- uninitialised lengths hold 0: `parse_request` returns a request with connection id 0 whose
  -- strings are all empty. The string functions and `sscanf` behave as documented.
  pub parse_request_garbage :
      {J : Type 0}
      → parse_request B scan {J = J} (some (x ∷ xs)) (pos 0) (pos 0)
        ≡ ret (
            some (record {
              uuid = some [];
              conn_id = pos 0;
              conn_id_bstr = some [];
              path = some [];
              raw_headers = some [];
              headers = none;
              body = some [];
            }))
  unfolding parse_request
  parse_request_garbage =
      rw (no_space_found, no_length 0, L.bmidstr_negative (x ∷ xs) 0 0)
        (rw (after_missing, no_space_found, no_length 0, L.bmidstr_negative (x ∷ xs) 0 0)
          (rw (after_missing, no_space_found, no_length 0, L.bmidstr_negative (x ∷ xs) 0 0)
            (rw (
              after_missing,
              netstring_garbage 0 (L.binchr-missing [] (x ∷ xs) b':' 0 refl no_colon),
              add_int-pos 0 1 (omega arith),
              netstring_garbage 1 (L.binchr-missing (x ∷ []) xs b':' 1 refl no_colon.1),
              no_digits,
            ))))
