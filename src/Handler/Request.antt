-- ===== src/Handler/Request.antt =====
-- `mongrel2_request` and the parser of Mongrel2's request format: src/handler.c, lines 202 to 314.
-- Positions in the message are C `int`s. The sums with a length that the message announces are
-- checked for overflow, which C leaves undefined; the other positions lie within the message.
use libm2handler.Base.{
  [], ◌∷◌, Option, none, some, ℤ, pos, ◌+ℤ◌, ◌-ℤ◌, eqb_ℤ, fits_int, length, Bytes, Outcome, ret,
  faults, ◌>>=◌, if◌then◌else◌,
}
use mathlib.Core.Option.{get_or}
use libm2handler.Extern.{Bstring, Bstrlib, Scanner, c_string}

-- `struct mongrel2_request_t`, over the type of jansson's values.
pub record Request (J : Type 0) : Type 0 where
  pub uuid : Bstring
  pub conn_id : ℤ
  pub conn_id_bstr : Bstring
  pub path : Bstring
  pub raw_headers : Bstring
  pub headers : Option J
  pub body : Bstring

-- `mongrel2_request_finalize`; what is freed is not used again.
unfoldable pub finalize : {J : Type 0} → Option (Request J) → Outcome ℤ
finalize none = faults
finalize (some req) = ret (pos 0)

abbrev pub space : Bytes
space = b' ' ∷ []

abbrev pub colon : Bytes
colon = b':' ∷ []

unfoldable pub add_int : ℤ → ℤ → Outcome ℤ
unfolding ◌+ℤ◌
add_int a b = if fits_int (a +ℤ b) then ret (a +ℤ b) else faults

-- `if(p == NULL) goto error;`
abbrev pub or_error {ℓ} : {A : Type ℓ} → Bstring → (Bytes → Outcome (Option A)) → Outcome (Option A)
or_error none k = ret none
or_error (some b) k = k b

abbrev pub and_then {ℓ κ} :
    {A : Type ℓ} {B : Type κ} → Option A → (A → Outcome (Option B)) → Outcome (Option B)
and_then none k = ret none
and_then (some a) k = k a

module _ (B : Bstrlib) (scan : Scanner) where
  -- Lines 252 to 269, and again 274 to 291: the digits from `start` to the colon, then as many
  -- bytes. `junk` is what the uninitialised length holds if `sscanf` assigns nothing. The bytes
  -- and the position behind them, or `none` for `goto error`.
  unfoldable pub netstring : Bstring → ℤ → ℤ → Outcome (Option (Bytes × ℤ))
  netstring raw start junk =
      let stop = B.binchr raw start colon in
      elim (B.bmidstr raw start (stop -ℤ start)) [
        | none ↦ faults
        | some digits ↦
            let len = get_or (scan (c_string digits)) junk in
            let start' = stop +ℤ pos 1 in
            (do
              stop' ← add_int start' len
              or_error (B.bmidstr raw start' (stop' -ℤ start')) λ content.
                  if eqb_ℤ (pos (length content)) len
                  then ret (some (content, stop'))
                  else ret none)
      ]

  unfoldable pub parse_request : {J : Type 0} → Bstring → ℤ → ℤ → Outcome (Option (Request J))
  parse_request raw junk_header junk_body =
      let suuid = pos 0 in
      let euuid = B.binchr raw suuid space in
      or_error (B.bmidstr raw suuid (euuid -ℤ suuid)) λ uuid.
        let sconnid = euuid +ℤ pos 1 in
        let econnid = B.binchr raw sconnid space in
        or_error (B.bmidstr raw sconnid (econnid -ℤ sconnid)) λ conn_id_bstr.
          let conn_id = get_or (scan (c_string conn_id_bstr)) (pos 0) in
          let spath = econnid +ℤ pos 1 in
          let epath = B.binchr raw spath space in
          or_error (B.bmidstr raw spath (epath -ℤ spath)) λ path. (do
            headers ← netstring raw (epath +ℤ pos 1) junk_header
            and_then headers λ (raw_headers, eheader). (do
              sbody ← add_int eheader (pos 1)
              content ← netstring raw sbody junk_body
              and_then content λ (body, ebody). ret (
                  some (record {
                    uuid = some uuid;
                    conn_id = conn_id;
                    conn_id_bstr = some conn_id_bstr;
                    path = some path;
                    raw_headers = some raw_headers;
                    headers = none;
                    body = some body;
                  }))))
