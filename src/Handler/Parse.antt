-- ===== src/Handler/Parse.antt =====
-- The parser reads every message of Mongrel2's format.
use libm2handler.Base.{
  ℕ, ◌+◌, ◌<◌, ◌^◌, ◌≡◌, ◌≢◌, refl, ap, [], ◌∷◌, ◌++◌, arith, none, some, ℤ, pos, length,
  length-append, Bytes, All, ret, IsDigit, decimal_value,
}
use libm2handler.Extern.{Bstrlib, IsLawful, Scanner, IsScanner}
use libm2handler.Handler.Netstring.{print_netstring, Lacks, add_int-pos, netstring-print_netstring}
use libm2handler.Handler.Front.{extend, length-extend, front, raw-front, parse_request-front}
use libm2handler.Handler.Request.{netstring, parse_request}

-- The format with any byte `c` in the place of the comma between the netstrings, and any bytes
-- behind the second one.
unfoldable pub wire : Bytes → Bytes → Bytes → Bytes → ℕ → Bytes → Bytes → Bytes
wire uuid conn_id path headers c body rest =
    uuid
    ++ (b' '
        ∷ (conn_id
            ++ (b' '
                ∷ (path
                    ++ (b' '
                        ∷ (print_netstring headers ++ (c ∷ (print_netstring body ++ rest))))))))

-- PROTOCOL.markdown: UUID CONN_ID PATH HEADER_NETSTRING,BODY_NETSTRING,
unfoldable pub message : Bytes → Bytes → Bytes → Bytes → Bytes → Bytes
unfolding wire
message uuid conn_id path headers body = wire uuid conn_id path headers b',' body (b',' ∷ [])

module _ (B : Bstrlib) (L : IsLawful B) (scan : Scanner) (S : IsScanner scan) (J : Type 0)
    (uuid conn_id path headers body rest : Bytes) (c : ℕ) (junk_header junk_body : ℤ) where
  -- `parse_request` reads back the fields of every message UUID CONN_ID PATH HEADER_NETSTRING
  -- BODY_NETSTRING that is shorter than 2^31 bytes, whose UUID and path hold no space, and whose
  -- connection id is a non-empty row of digits below 2^31. It does so whatever one byte stands
  -- between the netstrings, whatever bytes follow the second, and whatever the uninitialised
  -- lengths hold. The string functions and `sscanf` behave as documented.
  pub parse_request-wire :
      Lacks b' ' uuid
      → All IsDigit conn_id
      → conn_id ≢ []
      → decimal_value conn_id < 2 ^ 31
      → Lacks b' ' path
      → length (wire uuid conn_id path headers c body rest) < 2 ^ 31
      → parse_request B scan {J = J}
          (some (wire uuid conn_id path headers c body rest))
          junk_header
          junk_body
        ≡ ret (
            some (record {
              uuid = some uuid;
              conn_id = pos (decimal_value conn_id);
              conn_id_bstr = some conn_id;
              path = some path;
              raw_headers = some headers;
              headers = none;
              body = some body;
            }))
  parse_request-wire clean_uuid digits some_digits small clean_path fits =
      rw
        (
          parse_request-front B L scan S J uuid conn_id path clean_uuid digits some_digits small
              clean_path raw tail starts junk_header junk_body,
          headers_read,
          add_int-pos (k + h) 1 (omega (arith, total)),
          body_read,
        )
        refl
    where
      raw : Bytes
      raw = wire uuid conn_id path headers c body rest

      tail : Bytes
      tail = print_netstring headers ++ (c ∷ (print_netstring body ++ rest))

      starts : raw ≡ uuid ++ (b' ' ∷ (conn_id ++ (b' ' ∷ (path ++ (b' ' ∷ tail)))))
      starts = unfold wire in refl

      pre : Bytes
      pre = front B L scan S J uuid conn_id path

      k : ℕ
      k = length pre

      h : ℕ
      h = length (print_netstring headers)

      behind_front : raw ≡ pre ++ tail
      behind_front =
          raw-front B L scan S J uuid conn_id path clean_uuid digits some_digits small clean_path
            raw tail starts

      behind_headers :
          raw ≡ (pre ++ (print_netstring headers ++ (c ∷ []))) ++ (print_netstring body ++ rest)
      behind_headers =
          extend raw pre (print_netstring headers) (print_netstring body ++ rest) c behind_front

      total : k + h + 1 < 2 ^ 31
      total = omega (
        arith,
        ap length behind_headers,
        length-append (pre ++ (print_netstring headers ++ (c ∷ []))) (print_netstring body ++ rest),
        length-extend pre (print_netstring headers) c,
      )

      headers_read :
          netstring B scan (some raw) (pos k) junk_header ≡ ret (some (headers, pos (k + h)))
      headers_read =
          netstring-print_netstring B L scan S raw pre headers _ k junk_header behind_front refl
            fits

      body_read :
          netstring B scan (some raw) (pos (k + h + 1)) junk_body
          ≡ ret (some (body, pos (k + h + 1 + length (print_netstring body))))
      body_read =
          netstring-print_netstring B L scan S raw (pre ++ (print_netstring headers ++ (c ∷ [])))
            body rest (k + h + 1) junk_body behind_headers
            (omega (arith, length-extend pre (print_netstring headers) c)) fits
