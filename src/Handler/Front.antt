-- ===== src/Handler/Front.antt =====
-- The three fields that stand before the netstrings of a message.
use libm2handler.Base.{
  ℕ, ◌+◌, ◌<◌, ◌^◌, ◌≡◌, ◌≢◌, inl, refl, ap, [], ◌∷◌, ◌++◌, append_assoc, arith, Option, none, some,
  ℤ, pos, ◌-ℤ◌, +ℤ_pos, length, length-append, Bytes, All, Outcome, ret, ◌>>=◌, IsDigit,
  decimal_value,
}
use libm2handler.Extern.{Bstrlib, IsLawful, Scanner, IsScanner, c_string}
use libm2handler.Handler.Netstring.{Lacks, digits-Lacks, c_string-digits, field_lem}
use libm2handler.Handler.Request.{Request, space, add_int, and_then, netstring, parse_request}

-- The bytes before and up to a delimiter, as one prefix.
pub extend :
    (raw pre tok post : Bytes) (c : ℕ)
    → raw ≡ pre ++ (tok ++ c ∷ post)
    → raw ≡ (pre ++ (tok ++ (c ∷ []))) ++ post
extend raw pre tok post c e =
    rw (append_assoc pre (tok ++ (c ∷ [])) post, append_assoc tok (c ∷ []) post) e

pub length-extend :
    (pre tok : Bytes) (c : ℕ) → length (pre ++ (tok ++ (c ∷ []))) ≡ length pre + length tok + 1
length-extend pre tok c =
    omega (arith, length-append pre (tok ++ (c ∷ [])), length-append tok (c ∷ []))

module _ (B : Bstrlib) (L : IsLawful B) (scan : Scanner) (S : IsScanner scan) (J : Type 0)
    (uuid conn_id path : Bytes) where
  -- UUID CONN_ID PATH, with a space behind each.
  pub front : Bytes
  front = ((uuid ++ (b' ' ∷ [])) ++ (conn_id ++ (b' ' ∷ []))) ++ (path ++ (b' ' ∷ []))

  -- The request whose fields were all read.
  abbrev pub read_in : Bytes → Bytes → Request J
  read_in headers body = record {
    uuid = some uuid;
    conn_id = pos (decimal_value conn_id);
    conn_id_bstr = some conn_id;
    path = some path;
    raw_headers = some headers;
    headers = none;
    body = some body;
  }

  -- What the parser does behind the three fields.
  abbrev pub netstrings : Bytes → ℤ → ℤ → ℤ → Outcome (Option (Request J))
  netstrings raw start junk_header junk_body = do
    headers ← netstring B scan (some raw) start junk_header
    and_then headers λ (raw_headers, eheader). (do
      sbody ← add_int eheader (pos 1)
      content ← netstring B scan (some raw) sbody junk_body
      and_then content λ (body, ebody). ret (some (read_in raw_headers body)))

  module _ (clean_uuid : Lacks b' ' uuid) (digits : All IsDigit conn_id)
      (some_digits : conn_id ≢ []) (small : decimal_value conn_id < 2 ^ 31)
      (clean_path : Lacks b' ' path) (raw tail : Bytes)
      (starts : raw ≡ uuid ++ (b' ' ∷ (conn_id ++ (b' ' ∷ (path ++ (b' ' ∷ tail)))))) where
    pub raw-front : raw ≡ front ++ tail
    unfolding front
    raw-front = extend raw ((uuid ++ (b' ' ∷ [])) ++ (conn_id ++ (b' ' ∷ []))) path tail b' ' (
        extend raw (uuid ++ (b' ' ∷ [])) conn_id (path ++ (b' ' ∷ tail)) b' '
          (extend raw [] uuid (conn_id ++ (b' ' ∷ (path ++ (b' ' ∷ tail)))) b' ' starts))

    pub parse_request-front :
        (junk_header junk_body : ℤ)
        → parse_request B scan {J = J} (some raw) junk_header junk_body
          ≡ netstrings raw (pos (length front)) junk_header junk_body
    unfolding parse_request front
    parse_request-front junk_header junk_body =
        rw (f₁.0, f₁.1)
          (rw (+ℤ_pos (0 + length uuid) 1, f₂.0, f₂.1)
            (rw (+ℤ_pos (k₁ + length conn_id) 1, f₃.0, f₃.1)
              (rw (+ℤ_pos (k₂ + length path) 1, conn_is)
                (ap (λ k. netstrings raw (pos k) junk_header junk_body) at_end))))
      where
        r₂ : Bytes
        r₂ = path ++ (b' ' ∷ tail)

        r₁ : Bytes
        r₁ = conn_id ++ (b' ' ∷ r₂)

        p₁ : Bytes
        p₁ = uuid ++ (b' ' ∷ [])

        e₂ : raw ≡ p₁ ++ (conn_id ++ b' ' ∷ r₂)
        e₂ = extend raw [] uuid r₁ b' ' starts

        p₂ : Bytes
        p₂ = p₁ ++ (conn_id ++ (b' ' ∷ []))

        e₃ : raw ≡ p₂ ++ (path ++ b' ' ∷ tail)
        e₃ = extend raw p₁ conn_id r₂ b' ' e₂

        k₁ : ℕ
        k₁ = 0 + length uuid + 1

        k₂ : ℕ
        k₂ = k₁ + length conn_id + 1

        f₁ :
            (B.binchr (some raw) (pos 0) space ≡ pos (0 + length uuid))
            × (B.bmidstr (some raw) (pos 0) (pos (0 + length uuid) -ℤ pos 0) ≡ some uuid)
        f₁ = field_lem B L scan S raw [] uuid r₁ b' ' 0 starts refl clean_uuid

        f₂ :
            (B.binchr (some raw) (pos k₁) space ≡ pos (k₁ + length conn_id))
            × (B.bmidstr (some raw) (pos k₁) (pos (k₁ + length conn_id) -ℤ pos k₁) ≡ some conn_id)
        f₂ =
            field_lem B L scan S raw p₁ conn_id r₂ b' ' k₁ e₂
              (omega (arith, length-extend [] uuid b' '))
              (digits-Lacks b' ' conn_id (inl (omega arith)) digits)

        f₃ :
            (B.binchr (some raw) (pos k₂) space ≡ pos (k₂ + length path))
            × (B.bmidstr (some raw) (pos k₂) (pos (k₂ + length path) -ℤ pos k₂) ≡ some path)
        f₃ =
            field_lem B L scan S raw p₂ path tail b' ' k₂ e₃
              (omega (arith, length-extend [] uuid b' ', length-extend p₁ conn_id b' ')) clean_path

        at_end : k₂ + length path + 1 ≡ length front
        at_end = omega (
          arith,
          length-extend [] uuid b' ',
          length-extend p₁ conn_id b' ',
          length-extend p₂ path b' ',
        )

        conn_is : scan (c_string conn_id) ≡ some (pos (decimal_value conn_id))
        conn_is =
            rw (c_string-digits conn_id digits) (S.scan_digits conn_id some_digits digits small)
