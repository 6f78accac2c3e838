-- ===== src/Websocket/Accept.antt =====
-- The handshake against RFC 6455, section 4.2.2.
use libm2handler.Base.{
  ℕ, ◌≡◌, ◌≢◌, refl, ap, [], ◌∷◌, ◌++◌, Bool, true, none, some, pos, length, Bytes, All, arith,
  decimal,
}
use libm2handler.Extern.{Bstring, Bstrlib, IsLawful, Jansson, c_string}
use libm2handler.Handler.Request.{Request}
use libm2handler.Handler.Headers.{get_header}
use libm2handler.Handler.Reply.{Sent, reply_lem, reply_null, Addressed, print_response}
use libm2handler.Websocket.Handshake.{
  guid, key_name, accept_of, upgrade_front, upgrade_back, calculate_accept, upgrade_headers,
  reply_upgrade,
}

guid_text : c_string guid ≡ guid
unfolding c_string
guid_text = refl

front_plain : All (λ x. x ≢ b'%') upgrade_front
front_plain = omega arith

back_plain : All (λ x. x ≢ b'%') upgrade_back
back_plain = omega arith

-- A request whose parsed headers are `j`.
module _ (can_alloc : ℕ → Bool) (sha1 : Bytes → Bytes) (B : Bstrlib) (L : IsLawful B) (A : Jansson)
    (req : Request A.Json) (j : A.Json) (parsed : req.headers ≡ some j) where
  get_header-parsed :
      (key : Bytes)
      → get_header B A req key ≡ (B.bfromcstr (A.string_value (A.object_get (some j) key)), req)
  unfolding get_header
  get_header-parsed key = ground arith

  pub calculate_accept_lem :
      (key code : Bytes) (ptr : Bstring)
      → can_alloc 20 ≡ true
      → A.string_value (A.object_get (some j) key_name) ≡ some key
      → c_string key ≡ key
      → length (sha1 (key ++ guid)) ≡ 20
      → B.base64 (some (sha1 (key ++ guid))) ≡ some code
      → calculate_accept can_alloc sha1 B A req ptr
        ≡ record { status = pos 0; ptr = some code; req = req }
  unfolding calculate_accept accept_of
  calculate_accept_lem key code ptr memory has_key key_text digest encoded = rw (
    get_header-parsed key_name,
    has_key,
    L.bfromcstr_some key,
    key_text,
    L.bcatcstr_some key guid guid_text,
    memory,
    digest_string,
    encoded,
  )
    where
      digest_string : B.blk2bstr (sha1 (key ++ guid)) (pos 20) ≡ some (sha1 (key ++ guid))
      digest_string = rw (ap pos digest) at (L.blk2bstr_some (sha1 (key ++ guid)))

  upgrade_headers_lem :
      (key code : Bytes)
      → can_alloc 20 ≡ true
      → A.string_value (A.object_get (some j) key_name) ≡ some key
      → c_string key ≡ key
      → length (sha1 (key ++ guid)) ≡ 20
      → B.base64 (some (sha1 (key ++ guid))) ≡ some code
      → c_string code ≡ code
      → upgrade_headers can_alloc sha1 B A req
        ≡ (some (upgrade_front ++ (code ++ upgrade_back)), req)
  unfolding upgrade_headers
  upgrade_headers_lem key code memory has_key key_text digest encoded code_text = rw (
    calculate_accept_lem key code (B.bfromcstr (some [])) memory has_key key_text digest encoded,
    L.bformat_one upgrade_front code upgrade_back front_plain back_plain code_text,
  )

  upgrade_headers_null :
      A.string_value (A.object_get (some j) key_name) ≡ none
      → upgrade_headers can_alloc sha1 B A req ≡ (none, req)
  unfolding upgrade_headers calculate_accept accept_of
  upgrade_headers_null no_key = rw (get_header-parsed key_name, no_key, L.bfromcstr_none)

  module _ (uuid : Bytes) (id : ℕ) (to_client : Addressed req uuid id) (sent : Sent) where
    -- For a request with parsed headers that hold the key as a C string, `reply_upgrade` sends
    -- the client one response: the 101 response with the base64 form of the digest of the key
    -- followed by the GUID. It returns 0. The client is one that Mongrel2 addresses, the digest
    -- has 20 bytes, its base64 form is a C string, the allocation succeeds, and the string
    -- functions behave as documented.
    pub reply_upgrade_lem :
        (key code : Bytes)
        → can_alloc 20 ≡ true
        → A.string_value (A.object_get (some j) key_name) ≡ some key
        → c_string key ≡ key
        → length (sha1 (key ++ guid)) ≡ 20
        → B.base64 (some (sha1 (key ++ guid))) ≡ some code
        → c_string code ≡ code
        → reply_upgrade can_alloc sha1 B A req sent ≡ (
          pos 0,
          sent ++ (print_response uuid (decimal id) (upgrade_front ++ (code ++ upgrade_back)) ∷ []),
          req,
        )
    unfolding reply_upgrade
    reply_upgrade_lem key code memory has_key key_text digest encoded code_text = rw (
      upgrade_headers_lem key code memory has_key key_text digest encoded code_text,
      reply_lem B L req uuid id to_client sent (upgrade_front ++ (code ++ upgrade_back)),
    )

    -- For a request with parsed headers that hold no key, `reply_upgrade` sends nothing and
    -- returns 0 all the same. The client is one that Mongrel2 addresses, and the string functions
    -- behave as documented.
    pub reply_upgrade_without_key :
        A.string_value (A.object_get (some j) key_name) ≡ none
        → reply_upgrade can_alloc sha1 B A req sent ≡ (pos 0, sent, req)
    unfolding reply_upgrade
    reply_upgrade_without_key no_key =
        rw (upgrade_headers_null no_key, reply_null B L req uuid id to_client sent)
