-- ===== src/Handler/Headers.antt =====
-- The JSON in a request: src/handler.c, lines 178 to 192, 401 to 437 and 463 to 479.
use libm2handler.Base.{
  ◌≡◌, ◌↔◌, refl, [], ◌∷◌, true, not, Option, none, some, ℤ, pos, negsuc, eqb_ℤ, eqb_ℤ_iff, Bytes,
  if◌then◌else◌, arith,
}
use mathlib.Core.Option
use libm2handler.Extern.{Bstring, Bstrlib, IsLawful, Jansson, c_string, c_string_twice}
use libm2handler.Handler.Request.{Request}

-- `bdata(b)` as a C string.
abbrev pub text : Bstring → Option Bytes
text = Option.map c_string

-- `disconnect`
abbrev pub disconnect_text : Bytes
disconnect_text = b'd' ∷ b'i' ∷ b's' ∷ b'c' ∷ b'o' ∷ b'n' ∷ b'n' ∷ b'e' ∷ b'c' ∷ b't' ∷ []

-- `type`
abbrev pub type_text : Bytes
type_text = b't' ∷ b'y' ∷ b'p' ∷ b'e' ∷ []

module _ (B : Bstrlib) (A : Jansson) where
  unfoldable pub parse_headers : Request A.Json → ℤ × Request A.Json
  parse_headers req = elim (A.loads (text req.raw_headers)) [
    | none ↦ (negsuc 0, record req { headers = none })
    | some j ↦
        if not (A.is_object j)
        then (negsuc 0, record req { headers = none })
        else (pos 0, record req { headers = some j })
  ]

  -- The lookup after the headers are at hand.
  abbrev pub header_value : Request A.Json → Bytes → Bstring
  header_value req key = B.bfromcstr (A.string_value (A.object_get req.headers key))

  -- The header's value, and the request, which keeps the parsed headers.
  unfoldable pub get_header : Request A.Json → Bytes → Bstring × Request A.Json
  unfolding parse_headers
  get_header req key = elim req.headers [
    | some j ↦ (header_value req key, req)
    | none ↦
        let (rc, req') = parse_headers req in
        if not (eqb_ℤ rc (pos 0)) then (none, req') else (header_value req' key, req')
  ]

  -- Lines 423 to 436: the test on the value of "type".
  method_answer : Option A.Json → ℤ
  method_answer none = pos 0
  method_answer (some method_obj) =
      let method_bstr = B.bfromcstr (A.string_value (some method_obj)) in
      if not (eqb_ℤ (B.bstrcmp method_bstr (some disconnect_text)) (pos 0)) then pos 0 else pos 1

  -- Lines 410 to 421.
  body_answer : Option A.Json → ℤ
  body_answer none = pos 0
  body_answer (some json_body) =
      if not (A.is_object json_body)
      then pos 0
      else method_answer (A.object_get (some json_body) type_text)

  unfoldable pub request_for_disconnect : Request A.Json → ℤ
  unfolding body_answer method_answer
  request_for_disconnect req = body_answer (A.loads (text req.body))

  -- Looking up one header, which may parse the headers of the request, does not change what the
  -- lookup of any header answers.
  pub get_header-get_header :
      (req : Request A.Json) (key key' : Bytes)
      → (get_header (get_header req key).1 key').0 ≡ (get_header req key').0
  unfolding get_header
  get_header-get_header req key key' = ground arith

  -- The string under "type" of a value that is a JSON object.
  method_of : Option A.Json → Option Bytes
  method_of none = none
  method_of (some v) = text (A.string_value (some v))

  unfoldable pub type_of : Option A.Json → Option Bytes
  unfolding method_of
  type_of none = none
  type_of (some j) = if A.is_object j then method_of (A.object_get (some j) type_text) else none

  module _ (L : IsLawful B) where
    text_answer :
        (s : Option Bytes)
        → (eqb_ℤ (B.bstrcmp (B.bfromcstr s) (some disconnect_text)) (pos 0) ≡ true)
          ↔ (text s ≡ some disconnect_text)
    text_answer none = rw (L.bfromcstr_none, L.bstrcmp_none) (ground arith)
    text_answer (some s) = rw L.bfromcstr_some (
        ground (
          arith,
          eqb_ℤ_iff (B.bstrcmp (some (c_string s)) (some disconnect_text)) (pos 0),
          L.bstrcmp_iff (c_string s) disconnect_text (c_string_twice s) (unfold c_string in refl),
        ))

    method_answer_iff :
        (o : Option A.Json) → (method_answer o ≡ pos 1) ↔ (method_of o ≡ some disconnect_text)
    unfolding method_answer method_of
    method_answer_iff none = ground arith
    method_answer_iff (some v) = ground (arith, text_answer (A.string_value (some v)))

    body_answer_iff :
        (o : Option A.Json) → (body_answer o ≡ pos 1) ↔ (type_of o ≡ some disconnect_text)
    unfolding body_answer type_of
    body_answer_iff none = ground arith
    body_answer_iff (some j) = ground (arith, method_answer_iff (A.object_get (some j) type_text))

    -- `request_for_disconnect` returns 1 exactly if the body is a JSON object whose member "type"
    -- is a string that reads "disconnect" as a C string. The string functions behave as
    -- documented.
    pub request_for_disconnect_iff :
        (req : Request A.Json)
        → (request_for_disconnect req ≡ pos 1)
          ↔ (type_of (A.loads (text req.body)) ≡ some disconnect_text)
    unfolding request_for_disconnect
    request_for_disconnect_iff req = body_answer_iff (A.loads (text req.body))
