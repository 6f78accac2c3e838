-- ===== src/Handlers/Sessions/Greeting.antt =====
-- A message without a body: the greeting, in a build without the frame dump.
use libm2handler.Base.{
  ℕ, ◌+◌, ◌^◌, ◌<◌, ◌≡◌, refl, [], ◌∷◌, ◌++◌, true, false, some, pos, eqb_ℤ, length, Bytes, decimal,
  ret,
}
use libm2handler.Extern.{blength, IsLawful}
use libm2handler.Framing.Fresh.{frame_size}
use libm2handler.Handler.Request.{add_int}
use libm2handler.Handler.Reply.{Addressed, print_response}
use libm2handler.Handler.Headers.{request_for_disconnect}
use libm2handler.Websocket.Send.{ws_reply_lem, text_frame}
use libm2handler.Session.Interfaces.{IsDict}
use libm2handler.Session.{compare_session_id}
use libm2handler.Handlers.Sessions.{World, Client, Node, Server, Style, answer, on_request}
use libm2handler.Handlers.Sessions.Laws.{lookup_in, knows, meet_known, revisited}

module _ (W : World) (L : IsDict compare_session_id W.D) (S : IsLawful W.B) (style : Style W)
    (no_dump : W.dump ≡ false) where
  -- A message without a body from a client in the table is answered with one response, the text
  -- frame of the greeting, and the table knows the same clients as before. The greeting is not
  -- empty and shorter than 2^31 - 14 bytes, its frame is allocated, the counter does not
  -- overflow, the message is not a disconnect request, and the build has no frame dump. The
  -- client is one that Mongrel2 addresses. The dictionary and the string functions behave as
  -- documented.
  pub greeting_lem :
      (rand : ℕ → ℕ) (q : Client W) (s : Server W) (n : Node W) (times id : ℕ)
      (uuid payload : Bytes)
      → eqb_ℤ (request_for_disconnect W.B W.A q) (pos 1) ≡ false
      → blength q.body ≡ 0
      → Addressed q uuid id
      → lookup_in W q s.dict ≡ some n
      → add_int n.1.times_seen (pos 1) ≡ ret (pos times)
      → style.greeting rand ≡ some payload
      → 0 < length payload
      → length payload + 14 < 2 ^ 31
      → W.can_alloc (frame_size false (length payload)) ≡ true
      → (s' : Server W) × (on_request W style rand (some q) s ≡ ret s')
        × (s'.sent ≡ s.sent ++ (print_response uuid (decimal id) (text_frame W.e payload) ∷ []))
        × ((r : Client W) → knows W s' r ≡ knows W s r)
  unfolding on_request answer
  greeting_lem rand q s n times id uuid payload stays empty A there counted greets filled small
        memory =
      let (met, _, _, known) = meet_known W L q s n (pos times) there counted in
      let s' : Server W = revisited W L s n (pos times) in
      let response : Bytes = print_response uuid (decimal id) (text_frame W.e payload) in
      (
        record s' { sent = s'.sent ++ (response ∷ []) },
        rw (
          stays,
          met,
          empty,
          greets,
          no_dump,
          ws_reply_lem W.e W.can_alloc W.B S q uuid id A s'.sent payload small,
          memory,
        ),
        refl,
        known,
      )
