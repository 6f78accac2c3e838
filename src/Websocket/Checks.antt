-- ===== src/Websocket/Checks.antt =====
-- test/ws_accept.c and test/ws_headers.c: the example of RFC 6455, section 1.3. What is printed is
-- left out.
use libm2handler.Base.{
  ℕ, ◌≡◌, ◌↔◌, refl, ap, ◌∙◌, [], ◌++◌, Bool, true, none, some, ℤ, pos, negsuc, eqb_ℤ, eqb_ℤ_iff,
  if◌then◌else◌, length, Bytes, bytes_of, Outcome, ret, ◌>>=◌, arith,
}
use libm2handler.Extern.{Bstring, Bstrlib, IsLawful, Jansson, c_string}
use libm2handler.Handler.Request.{Request, finalize}
use libm2handler.Handler.Headers.{text}
use libm2handler.Websocket.Handshake.{guid, key_name, calculate_accept}
use libm2handler.Websocket.Accept.{calculate_accept_lem}

-- `headers`
abbrev example_headers : Bytes
example_headers =
    bytes_of
      "{\"PATH\":\"/dds_stream\",\"host\":\"localhost:6767\",\"sec-websocket-key\":\"dGhlIHNhbXBsZSBub25jZQ==\",\"sec-websocket-origin\":\"http://example.com\",\"x-forwarded-for\":\"::1\",\"upgrade\":\"WebSocket\",\"connection\":\"Upgrade\",\"sec-websocket-version\":\"8\",\"METHOD\":\"GET\",\"VERSION\":\"HTTP/1.1\",\"URI\":\"/dds_stream\",\"PATTERN\":\"/dds_stream\"}"

abbrev example_accept : Bytes
example_accept = bytes_of "s3pPLMBiTxaQ9kYGzzhZRbK+xOo="

headers_text : c_string example_headers ≡ example_headers
unfolding c_string
headers_text = refl

-- `biseqcstr` of bstrlib is an argument.
module _ (can_alloc : ℕ → Bool) (sha1 : Bytes → Bytes) (B : Bstrlib) (A : Jansson)
    (biseqcstr : Bstring → Bytes → ℤ) where
  -- `req`, with the zeroes of `calloc` in the other fields.
  abbrev example_request : Request A.Json
  example_request =
      let raw = B.bfromcstr (some example_headers) in
      record {
        uuid = none;
        conn_id = pos 0;
        conn_id_bstr = none;
        path = none;
        raw_headers = raw;
        headers = A.loads (text raw);
        body = none;
      }

  -- `main` of ws_accept.c.
  accept_main : Outcome ℤ
  accept_main =
      let r = calculate_accept can_alloc sha1 B A example_request (B.bfromcstr (some [])) in
      (do
        status ← finalize (some r.req)
        ret (if eqb_ℤ (biseqcstr r.ptr example_accept) (pos 1) then pos 0 else negsuc 0))

  -- `main` of ws_headers.c, which is the same but for what it prints.
  headers_main : Outcome ℤ
  headers_main = accept_main

  returns_zero :
      (answer : ℤ) (code : Bytes)
      → (answer ≡ pos 1) ↔ (code ≡ example_accept)
      → ◌≡◌ {A = Outcome ℤ} (ret (if eqb_ℤ answer (pos 1) then pos 0 else negsuc 0)) (ret (pos 0))
        ↔ (code ≡ example_accept)
  returns_zero answer code equals = ground (arith, eqb_ℤ_iff answer (pos 1), equals)

  -- The test succeeds exactly if the base64 form of the digest is the one of the RFC: jansson
  -- finds the key, the allocation succeeds, the digest has 20 bytes, and the string functions
  -- behave as documented.
  accept_main_lem :
      (L : IsLawful B) (j : A.Json) (key code : Bytes)
      → ((a : Bytes) → (biseqcstr (some a) example_accept ≡ pos 1) ↔ (a ≡ example_accept))
      → A.loads (some example_headers) ≡ some j
      → A.string_value (A.object_get (some j) key_name) ≡ some key
      → c_string key ≡ key
      → can_alloc 20 ≡ true
      → length (sha1 (key ++ guid)) ≡ 20
      → B.base64 (some (sha1 (key ++ guid))) ≡ some code
      → (accept_main ≡ ret (pos 0)) ↔ (code ≡ example_accept)
  unfolding accept_main finalize
  accept_main_lem L j key code equals parsed has_key key_text memory digest encoded =
      let raw : B.bfromcstr (some example_headers) ≡ some example_headers =
        L.bfromcstr_some example_headers ∙ ap some headers_text in
      let headers_are : example_request.headers ≡ some j = rw (raw, headers_text) parsed in
      rw
        (calculate_accept_lem can_alloc sha1 B L A example_request j headers_are key code
          (B.bfromcstr (some [])) memory has_key key_text digest encoded)
        (returns_zero (biseqcstr (some code) example_accept) code (equals code))
