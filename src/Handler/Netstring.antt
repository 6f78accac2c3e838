-- ===== src/Handler/Netstring.antt =====
-- Reading one delimited field, and one netstring, of a message.
use libm2handler.Base.{
  ℕ, ◌+◌, ◌<◌, ◌^◌, ◌≡◌, ◌≢◌, ◌⊎◌, inr, none, refl, ◌∙◌, ap, [], ◌∷◌, ◌++◌, append_assoc, arith,
  ne→==, some, ℤ, pos, ◌-ℤ◌, +ℤ_pos, -ℤ_pos, eqb_refl, length, length-append, Bytes, All, ret,
  IsDigit, decimal, decimal_value-decimal, decimal-IsDigit, decimal-ne-nil,
}
use libm2handler.Extern.{Bstrlib, IsLawful, Scanner, IsScanner, c_string}
use libm2handler.Handler.Request.{colon, add_int, netstring}

-- PROTOCOL.markdown: STRINGIFIED_LENGTH_OF_DATA:DATA
unfoldable pub print_netstring : Bytes → Bytes
print_netstring s = decimal (length s) ++ (b':' ∷ s)

abbrev pub Lacks : ℕ → Bytes → Type 0
Lacks c = All (λ x. x ≢ c)

pub digits-Lacks : (c : ℕ) (ds : Bytes) → (c < b'0') ⊎ (b'9' < c) → All IsDigit ds → Lacks c ds
digits-Lacks c [] h d = tt
digits-Lacks c (x ∷ ds) h d = (omega arith, digits-Lacks c ds h d.1)

pub c_string-digits : (ds : Bytes) → All IsDigit ds → c_string ds ≡ ds
unfolding c_string
c_string-digits [] d = refl
c_string-digits (x ∷ ds) d = rw (ne→== x 0 (omega arith), c_string-digits ds d.1)

pub add_int-pos : (a b : ℕ) → a + b < 2 ^ 31 → add_int (pos a) (pos b) ≡ ret (pos (a + b))
unfolding add_int
add_int-pos a b h = ground arith

module _ (B : Bstrlib) (L : IsLawful B) (scan : Scanner) (S : IsScanner scan) where
  -- One field up to its delimiter.
  pub field_lem :
      (raw pre tok post : Bytes) (c k : ℕ)
      → raw ≡ pre ++ (tok ++ c ∷ post)
      → k ≡ length pre
      → Lacks c tok
      → (B.binchr (some raw) (pos k) (c ∷ []) ≡ pos (k + length tok))
        × (B.bmidstr (some raw) (pos k) (pos (k + length tok) -ℤ pos k) ≡ some tok)
  field_lem raw pre tok post c k e at clean = (
    rw e (L.binchr-found pre tok post c k at clean),
    rw (e, -ℤ_pos (k + length tok) k (length tok) (omega arith))
        (L.bmidstr-inside pre tok (c ∷ post) k (length tok) at refl),
  )

  pub scan-decimal : (n : ℕ) → n < 2 ^ 31 → scan (c_string (decimal n)) ≡ some (pos n)
  scan-decimal n h = rw (
    c_string-digits (decimal n) (decimal-IsDigit n),
    S.scan_digits (decimal n) (decimal-ne-nil n) (decimal-IsDigit n)
        (rw (decimal_value-decimal n) h),
    decimal_value-decimal n,
  )

  -- A netstring that stands anywhere in a message shorter than 2^31 bytes is read back, with the
  -- position behind it, whatever the uninitialised length holds. The string functions and
  -- `sscanf` behave as documented.
  pub netstring-print_netstring :
      (raw pre s post : Bytes) (k : ℕ) (junk : ℤ)
      → raw ≡ pre ++ (print_netstring s ++ post)
      → k ≡ length pre
      → length raw < 2 ^ 31
      → netstring B scan (some raw) (pos k) junk
        ≡ ret (some (s, pos (k + length (print_netstring s))))
  unfolding netstring print_netstring
  netstring-print_netstring raw pre s post k junk e at fits =
      rw (found.0, found.1, scan-decimal (length s) (omega (arith, total)), netstring)
        (rw
          (
            found.0,
            +ℤ_pos (k + d) 1,
            add_int-pos (k + d + 1) (length s) (omega (arith, total)),
            -ℤ_pos (k + d + 1 + length s) (k + d + 1) (length s) (omega arith),
            content,
            eqb_refl (pos (length s)),
          )
          (ap (λ n. ret (some (s, pos n))) (omega (arith, length-append dec (b':' ∷ s)))))
    where
      dec : Bytes
      dec = decimal (length s)

      d : ℕ
      d = length dec

      cut : raw ≡ pre ++ (dec ++ b':' ∷ (s ++ post))
      cut = e ∙ ap (λ t. pre ++ t) (append_assoc dec (b':' ∷ s) post)

      total : length raw ≡ k + d + 1 + length s + length post
      total =
          ap length cut
          ∙ omega (
            arith,
            length-append pre (dec ++ b':' ∷ (s ++ post)),
            length-append dec (b':' ∷ (s ++ post)),
            length-append s post,
          )

      found :
          (B.binchr (some raw) (pos k) colon ≡ pos (k + d))
          × (B.bmidstr (some raw) (pos k) (pos (k + d) -ℤ pos k) ≡ some dec)
      found =
          field_lem raw pre dec (s ++ post) b':' k cut at
            (digits-Lacks b':' dec (inr (omega arith)) (decimal-IsDigit (length s)))

      content : B.bmidstr (some raw) (pos (k + d + 1)) (pos (length s)) ≡ some s
      content =
          rw
            (
              cut,
              ← append_assoc dec (b':' ∷ []) (s ++ post),
              ← append_assoc pre (dec ++ (b':' ∷ [])) (s ++ post),
            )
            (L.bmidstr-inside (pre ++ (dec ++ (b':' ∷ []))) s post (k + d + 1) (length s)
              (omega (arith, length-append pre (dec ++ (b':' ∷ [])), length-append dec (b':' ∷ [])))
              refl)

  -- A netstring whose length announces more bytes than are left in the message is refused, if the
  -- message's length and the announced length together stay below 2^31. The string functions and
  -- `sscanf` behave as documented.
  pub netstring_short :
      (raw pre rest : Bytes) (k n : ℕ) (junk : ℤ)
      → raw ≡ pre ++ (decimal n ++ b':' ∷ rest)
      → k ≡ length pre
      → length raw + n < 2 ^ 31
      → length rest < n
      → netstring B scan (some raw) (pos k) junk ≡ ret none
  unfolding netstring
  netstring_short raw pre rest k n junk e at fits short =
      rw (found.0, found.1, scan-decimal n (omega arith), netstring)
        (rw
          (
            found.0,
            +ℤ_pos (k + d) 1,
            add_int-pos (k + d + 1) n (omega (arith, total)),
            -ℤ_pos (k + d + 1 + n) (k + d + 1) n (omega arith),
            content,
          )
          (ground arith))
    where
      d : ℕ
      d = length (decimal n)

      front : Bytes
      front = pre ++ (decimal n ++ (b':' ∷ []))

      cut : raw ≡ front ++ rest
      cut =
          rw
            (
              append_assoc pre (decimal n ++ (b':' ∷ [])) rest,
              append_assoc (decimal n) (b':' ∷ []) rest,
            )
            e

      at_rest : k + d + 1 ≡ length front
      at_rest = omega (
        arith,
        length-append pre (decimal n ++ (b':' ∷ [])),
        length-append (decimal n) (b':' ∷ []),
      )

      total : length raw ≡ k + d + 1 + length rest
      total = ap length cut ∙ omega (arith, at_rest, length-append front rest)

      found :
          (B.binchr (some raw) (pos k) colon ≡ pos (k + d))
          × (B.bmidstr (some raw) (pos k) (pos (k + d) -ℤ pos k) ≡ some (decimal n))
      found =
          field_lem raw pre (decimal n) rest b':' k e at
            (digits-Lacks b':' (decimal n) (inr (omega arith)) (decimal-IsDigit n))

      content : B.bmidstr (some raw) (pos (k + d + 1)) (pos n) ≡ some rest
      content = rw cut (L.bmidstr_cut front rest (k + d + 1) n at_rest (omega arith))
