-- ===== src/Handler/Cut.antt =====
-- Messages that end too early.
use libm2handler.Base.{
  ℕ, ◌+◌, ◌<◌, ◌^◌, ◌≡◌, ◌≢◌, refl, ap, [], ◌∷◌, ◌++◌, arith, none, some, ℤ, length, length-append,
  Bytes, All, ret, IsDigit, decimal, decimal_value,
}
use libm2handler.Extern.{Bstrlib, IsLawful, Scanner, IsScanner}
use libm2handler.Handler.Front.{extend, length-extend, front, raw-front, parse_request-front}
use libm2handler.Handler.Netstring.{
  print_netstring, Lacks, add_int-pos, netstring-print_netstring, netstring_short,
}
use libm2handler.Handler.Request.{parse_request}

-- The fields in front of the netstrings, and what is there of these.
unfoldable pub opening : Bytes → Bytes → Bytes → Bytes → Bytes
opening uuid conn_id path tail = uuid ++ (b' ' ∷ (conn_id ++ (b' ' ∷ (path ++ (b' ' ∷ tail)))))

length-opening :
    (uuid conn_id path tail : Bytes)
    → length (opening uuid conn_id path tail)
      ≡ length uuid + length conn_id + length path + 3 + length tail
unfolding opening
length-opening uuid conn_id path tail = omega (
  arith,
  length-append uuid (b' ' ∷ (conn_id ++ (b' ' ∷ (path ++ (b' ' ∷ tail))))),
  length-append conn_id (b' ' ∷ (path ++ (b' ' ∷ tail))),
  length-append path (b' ' ∷ tail),
)

-- The headers, one byte, and a netstring that announces `n` bytes.
abbrev pub cut_body : Bytes → ℕ → ℕ → Bytes → Bytes
cut_body headers c n part = print_netstring headers ++ (c ∷ (decimal n ++ (b':' ∷ part)))

abbrev pub cut_headers : ℕ → Bytes → Bytes
cut_headers n part = decimal n ++ (b':' ∷ part)

module _ (B : Bstrlib) (L : IsLawful B) (scan : Scanner) (S : IsScanner scan) (J : Type 0)
    (uuid conn_id path : Bytes) (clean_uuid : Lacks b' ' uuid) (digits : All IsDigit conn_id)
    (some_digits : conn_id ≢ []) (small : decimal_value conn_id < 2 ^ 31)
    (clean_path : Lacks b' ' path) (junk_header junk_body : ℤ) (n : ℕ) (part : Bytes)
    (short : length part < n) where
  cut_in_headers :
      length (opening uuid conn_id path (cut_headers n part)) + n < 2 ^ 31
      → parse_request B scan {J = J}
          (some (opening uuid conn_id path (cut_headers n part)))
          junk_header
          junk_body
        ≡ ret none
  cut_in_headers fits =
      rw
        (
          parse_request-front B L scan S J uuid conn_id path clean_uuid digits some_digits small
              clean_path raw (cut_headers n part) starts junk_header junk_body,
          netstring_short B L scan S raw pre part (length pre) n junk_header
              (raw-front B L scan S J uuid conn_id path clean_uuid digits some_digits small
                clean_path raw (cut_headers n part) starts)
              refl fits short,
        )
        refl
    where
      raw : Bytes
      raw = opening uuid conn_id path (cut_headers n part)

      pre : Bytes
      pre = front B L scan S J uuid conn_id path

      starts : raw ≡ uuid ++ (b' ' ∷ (conn_id ++ (b' ' ∷ (path ++ (b' ' ∷ cut_headers n part)))))
      starts = unfold opening in refl

  cut_in_body :
      (headers : Bytes) (c : ℕ)
      → length (opening uuid conn_id path (cut_body headers c n part)) + n < 2 ^ 31
      → parse_request B scan {J = J}
          (some (opening uuid conn_id path (cut_body headers c n part)))
          junk_header
          junk_body
        ≡ ret none
  cut_in_body headers c fits =
      rw
        (
          parse_request-front B L scan S J uuid conn_id path clean_uuid digits some_digits small
              clean_path raw tail starts junk_header junk_body,
          netstring-print_netstring B L scan S raw pre headers _ k junk_header behind_front refl
              (omega arith),
          add_int-pos (k + h) 1 (omega (arith, total)),
          netstring_short B L scan S raw (pre ++ (print_netstring headers ++ (c ∷ []))) part
              (k + h + 1) n junk_body behind_headers
              (omega (arith, length-extend pre (print_netstring headers) c)) fits short,
        )
        refl
    where
      tail : Bytes
      tail = cut_body headers c n part

      raw : Bytes
      raw = opening uuid conn_id path tail

      pre : Bytes
      pre = front B L scan S J uuid conn_id path

      k : ℕ
      k = length pre

      h : ℕ
      h = length (print_netstring headers)

      starts : raw ≡ uuid ++ (b' ' ∷ (conn_id ++ (b' ' ∷ (path ++ (b' ' ∷ tail)))))
      starts = unfold opening in refl

      behind_front : raw ≡ pre ++ tail
      behind_front =
          raw-front B L scan S J uuid conn_id path clean_uuid digits some_digits small clean_path
            raw tail starts

      behind_headers :
          raw ≡ (pre ++ (print_netstring headers ++ (c ∷ []))) ++ (decimal n ++ (b':' ∷ part))
      behind_headers =
          extend raw pre (print_netstring headers) (decimal n ++ (b':' ∷ part)) c behind_front

      total : k + h + 1 < 2 ^ 31
      total = omega (
        arith,
        fits,
        ap length behind_headers,
        length-append (pre ++ (print_netstring headers ++ (c ∷ []))) (decimal n ++ (b':' ∷ part)),
        length-extend pre (print_netstring headers) c,
      )

  -- A message that ends before as many bytes follow as one of its two lengths announces is
  -- refused, whether the length is that of the headers or, behind whole headers and any one byte,
  -- that of the body, and whatever the uninitialised lengths hold. Its UUID and path hold no
  -- space, its connection id is a non-empty row of digits below 2^31, and the length of the
  -- message and the announced one are together below 2^31. The string functions and `sscanf`
  -- behave as documented.
  pub parse_request_cut :
      (headers : Bytes) (c : ℕ)
      → length (opening uuid conn_id path (cut_body headers c n part)) + n < 2 ^ 31
      → (parse_request B scan {J = J}
            (some (opening uuid conn_id path (cut_headers n part)))
            junk_header
            junk_body
          ≡ ret none)
        × (parse_request B scan {J = J}
              (some (opening uuid conn_id path (cut_body headers c n part)))
              junk_header
              junk_body
            ≡ ret none)
  parse_request_cut headers c fits = (
    cut_in_headers (
        omega (
          arith,
          length-opening uuid conn_id path (cut_headers n part),
          length-opening uuid conn_id path (cut_body headers c n part),
          length-append (print_netstring headers) (c ∷ cut_headers n part),
        )),
    cut_in_body headers c fits,
  )
