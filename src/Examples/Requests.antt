-- ===== src/Examples/Requests.antt =====
-- Requests and replies at concrete inputs: src/handler.c.
use libm2handler.Base.{
  ℕ, ◌+◌, ◌≡◌, ◌↔◌, refl, arith, [], ◌∷◌, ◌++◌, true, Option, none, some, pos, negsuc, length,
  Bytes, ret, decimal, decimal_value,
}
use libm2handler.Extern.{Jansson, c_string}
use libm2handler.Handler.Request.{Request, netstring, parse_request}
use libm2handler.Handler.Netstring.{print_netstring, netstring-print_netstring}
use libm2handler.Handler.Garbage.{parse_request_garbage}
use libm2handler.Handler.Cut.{opening, cut_headers, cut_body, parse_request_cut}
use libm2handler.Handler.Parse.{wire, parse_request-wire}
use libm2handler.Handler.Reply.{Addressed}
use libm2handler.Handler.Headers.{
  text, disconnect_text, request_for_disconnect, type_of, request_for_disconnect_iff,
}
use libm2handler.Examples.Strings.{scan, scan-IsScanner}
use libm2handler.Examples.Format.{strings, strings-IsLawful}

abbrev pub uuid_abc : Bytes
uuid_abc = b'a' ∷ b'b' ∷ b'c' ∷ []

abbrev root_path : Bytes
root_path = b'/' ∷ []

abbrev empty_object : Bytes
empty_object = b'{' ∷ b'}' ∷ []

abbrev hi : Bytes
hi = b'h' ∷ b'i' ∷ []

parse_request-wire_example :
    parse_request strings scan {J = ℕ}
      (some (wire uuid_abc (b'4' ∷ b'2' ∷ []) root_path empty_object b',' hi (b',' ∷ [])))
      (pos 0)
      (pos 0)
    ≡ ret (
        some (record {
          uuid = some uuid_abc;
          conn_id = pos (decimal_value (b'4' ∷ b'2' ∷ []));
          conn_id_bstr = some (b'4' ∷ b'2' ∷ []);
          path = some root_path;
          raw_headers = some empty_object;
          headers = none;
          body = some hi;
        }))
parse_request-wire_example =
    parse_request-wire strings strings-IsLawful scan scan-IsScanner ℕ uuid_abc (b'4' ∷ b'2' ∷ [])
      root_path empty_object hi (b',' ∷ []) b',' (pos 0) (pos 0) (omega arith) (omega arith) (cc)
      (omega arith) (omega arith) (unfold wire print_netstring decimal in omega arith)

netstring-print_netstring_example :
    netstring strings scan (some (b'x' ∷ (print_netstring hi ++ (b',' ∷ [])))) (pos 1) (negsuc 6)
    ≡ ret (some (hi, pos (1 + length (print_netstring hi))))
netstring-print_netstring_example =
    netstring-print_netstring strings strings-IsLawful scan scan-IsScanner
      (b'x' ∷ (print_netstring hi ++ (b',' ∷ []))) (b'x' ∷ []) hi (b',' ∷ []) 1 (negsuc 6) refl refl
      (unfold print_netstring decimal in omega arith)

parse_request_garbage_example :
    parse_request strings scan {J = ℕ} (some hi) (pos 0) (pos 0)
    ≡ ret (
        some (record {
          uuid = some [];
          conn_id = pos 0;
          conn_id_bstr = some [];
          path = some [];
          raw_headers = some [];
          headers = none;
          body = some [];
        }))
parse_request_garbage_example =
    parse_request_garbage strings strings-IsLawful scan scan-IsScanner b'h' (b'i' ∷ [])
      (omega arith) (omega arith)

-- A client of Mongrel2, with its body and its parsed headers.
abbrev pub client : {J : Type 0} → Option J → Bytes → Request J
client headers body = record {
  uuid = some uuid_abc;
  conn_id = pos 42;
  conn_id_bstr = some (b'4' ∷ b'2' ∷ []);
  path = some root_path;
  raw_headers = some empty_object;
  headers = headers;
  body = some body;
}

pub client-Addressed :
    {J : Type 0} (headers : Option J) (body : Bytes) → Addressed (client headers body) uuid_abc 42
unfolding c_string decimal
client-Addressed headers body = record {
  uuid_is = refl;
  uuid_text = refl;
  conn_id_is = refl;
  conn_id_bstr_is = refl;
}

-- JSON reduced to strings: a text is an object with that text under every key.
abbrev pub json : Jansson
json = record {
  Json = Bytes;
  loads = λ t. t;
  is_object = λ j. true;
  object_get = λ o key. o;
  string_value = λ o. o;
}

request_for_disconnect_example :
    (request_for_disconnect strings json (client none disconnect_text) ≡ pos 1)
    ↔ (type_of strings json (json.loads (text (some disconnect_text))) ≡ some disconnect_text)
request_for_disconnect_example =
    request_for_disconnect_iff strings json strings-IsLawful (client none disconnect_text)

parse_request_cut_example :
    (parse_request strings scan {J = ℕ}
        (some (opening uuid_abc (b'4' ∷ b'2' ∷ []) root_path (cut_headers 5 hi)))
        (pos 0)
        (pos 0)
      ≡ ret none)
    × (parse_request strings scan {J = ℕ}
          (some (opening uuid_abc (b'4' ∷ b'2' ∷ []) root_path (cut_body empty_object b',' 5 hi)))
          (pos 0)
          (pos 0)
        ≡ ret none)
parse_request_cut_example =
    parse_request_cut strings strings-IsLawful scan scan-IsScanner ℕ uuid_abc (b'4' ∷ b'2' ∷ [])
      root_path (omega arith) (omega arith) (cc) (omega arith) (omega arith) (pos 0) (pos 0) 5 hi
      (omega arith) empty_object b',' (unfold opening print_netstring decimal in omega arith)
