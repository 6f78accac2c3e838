-- ===== src/Handlers/Incoming.antt =====
-- Messages that wait for a handler, and what `recv` makes of them.
use libm2handler.Base.{
  ℕ, ◌<◌, ◌^◌, ◌≡◌, refl, [], ◌∷◌, List, none, some, ℤ, pos, length, Bytes, decimal,
  decimal-IsDigit, decimal-ne-nil, decimal_value-decimal, ret,
}
use libm2handler.Extern.{Bstrlib, IsLawful, Scanner, IsScanner, c_string}
use libm2handler.Handler.Request.{Request}
use libm2handler.Handler.Netstring.{Lacks}
use libm2handler.Handler.Parse.{message}
use libm2handler.Handler.Reply.{Addressed}
use libm2handler.Handler.Socket.{Zmq, recv}
use libm2handler.Handler.Life.{recv-message}

pub record Incoming : Type 0 where
  pub uuid : Bytes
  pub id : ℕ
  pub path : Bytes
  pub raw_headers : Bytes
  pub body : Bytes

abbrev pub on_wire : Incoming → Bytes
on_wire m = message m.uuid (decimal m.id) m.path m.raw_headers m.body

-- A message as Mongrel2 writes them.
pub record IsProper (m : Incoming) : Type 0 where
  pub clean_uuid : Lacks b' ' m.uuid
  pub uuid_text : c_string m.uuid ≡ m.uuid
  pub small : m.id < 2 ^ 31
  pub clean_path : Lacks b' ' m.path
  pub fits : length (on_wire m) < 2 ^ 31

abbrev pub request_of : {Value : Type 0} → Incoming → Request Value
request_of m = record {
  uuid = some m.uuid;
  conn_id = pos m.id;
  conn_id_bstr = some (decimal m.id);
  path = some m.path;
  raw_headers = some m.raw_headers;
  headers = none;
  body = some m.body;
}

pub request_of-Addressed :
    {Value : Type 0} (m : Incoming)
    → c_string m.uuid ≡ m.uuid
    → Addressed (request_of {Value = Value} m) m.uuid m.id
request_of-Addressed m clean = record {
  uuid_is = refl;
  uuid_text = clean;
  conn_id_is = refl;
  conn_id_bstr_is = refl;
}

module _ (Z : Zmq) (h : Z.Handle) where
  -- The messages arrive one after the other, and leave ZeroMQ in the last state.
  unfoldable pub Arrive : Z.State → List Incoming → Z.State → Type 0
  Arrive z [] z' = z ≡ z'
  Arrive z (m ∷ ms) z' =
      (z₁ : Z.State) × (Z.recvmsg z h ≡ ret (on_wire m, z₁)) × (IsProper m × Arrive z₁ ms z')

  pub recv-on_wire :
      (B : Bstrlib) (L : IsLawful B) (scan : Scanner) (S : IsScanner scan) (Value : Type 0)
      (z z' : Z.State) (m : Incoming) (junk_header junk_body : ℤ)
      → IsProper m
      → Z.recvmsg z h ≡ ret (on_wire m, z')
      → recv Z B scan {J = Value} z h junk_header junk_body ≡ ret (some (request_of m), z')
  recv-on_wire B L scan S Value z z' m junk_header junk_body proper arrived =
      rw (decimal_value-decimal m.id) at (
        recv-message B L scan S Value Z z z' h m.uuid (decimal m.id) m.path m.raw_headers m.body
          junk_header junk_body arrived proper.clean_uuid (decimal-IsDigit m.id)
          (decimal-ne-nil m.id) (rw (decimal_value-decimal m.id) proper.small) proper.clean_path
          proper.fits)
