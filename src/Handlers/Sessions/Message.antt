-- ===== src/Handlers/Sessions/Message.antt =====
-- A message with a body, from one end of `on_request` to the other.
use libm2handler.Base.{
  ap, ℕ, ◌≡◌, refl, Bool, true, false, not, ◌&&◌, ◌||◌, some, none, ℤ, pos, eqb_ℤ, ltb, ret,
}
use libm2handler.Extern.{blength}
use libm2handler.Handler.Request.{add_int}
use libm2handler.Handler.Reply.{Sent, contents}
use libm2handler.Handler.Headers.{request_for_disconnect}
use libm2handler.Session.Interfaces.{IsDict}
use libm2handler.Session.{compare_session_id}
use libm2handler.Session.Entries.{find-without, find-conn_id}
use libm2handler.Handlers.Sessions.{World, Client, Node, Server, Style, answer, on_request}
use libm2handler.Handlers.Sessions.Laws.{
  lookup_in, knows, farewell, drop_client_live, meet_new, meet_known, recount, revisited,
}

module _ (W : World) (L : IsDict compare_session_id W.D) (style : Style W) (rand : ℕ → ℕ)
    (q : Client W) (s : Server W) (stays : eqb_ℤ (request_for_disconnect W.B W.A q) (pos 1) ≡ false)
    (filled : ltb 0 (blength q.body) ≡ true) where
  -- A message with a body from a client that is not in the table adds that client to the table
  -- and no other, and leaves `tempnode` NULL, whatever the body holds, if it is not a disconnect
  -- request. The dictionary behaves as documented.
  pub first_message :
      knows W s q ≡ false
      → (s' : Server W) × (on_request W style rand (some q) s ≡ ret s')
        × (s'.tempnode ≡ none)
        × ((r : Client W) → knows W s' r ≡ (eqb_ℤ r.conn_id q.conn_id || knows W s r))
  unfolding on_request answer
  first_message unknown =
      let (q', s', met, null, same_body, known) = meet_new W L q s unknown in
      (s', rw (stays, met, same_body, filled, null), null, known)

  -- What the table knows after a message.
  abbrev pub known_after : Bool → Client W → Bool
  known_after true r = not (eqb_ℤ r.conn_id q.conn_id) && knows W s r
  known_after false r = knows W s r

  -- What has been sent after a message.
  abbrev pub said_after : Bool → Sent
  said_after true = farewell W L q s
  said_after false = s.sent

  -- A message with a body from a client in the table counts it and points `tempnode` to its node.
  -- If the handler takes the body for a close, it sends the client a farewell, and the client and
  -- no other leaves the table; otherwise nothing is sent, and the table knows the same clients as
  -- before. The body is not a disconnect request, the test for a close returns, and the counter
  -- does not overflow. The dictionary behaves as documented.
  pub later_message :
      (n : Node W) (times : ℤ) (closing : Bool)
      → lookup_in W q s.dict ≡ some n
      → add_int n.1.times_seen (pos 1) ≡ ret times
      → style.is_close (blength q.body) (contents q.body) ≡ ret closing
      → (s' : Server W) × (on_request W style rand (some q) s ≡ ret s')
        × (s'.tempnode ≡ some (n.0, record n.1 { times_seen = times }))
        × (s'.sent ≡ said_after closing)
        × ((r : Client W) → knows W s' r ≡ known_after closing r)
  unfolding on_request answer
  later_message n times false there counted goes_on =
      let (met, _, _, known) = meet_known W L q s n times there counted in
      (revisited W L s n times, rw (stays, met, filled, goes_on), refl, refl, known)
  later_message n times true there counted closes =
      let (met, _, live, known) = meet_known W L q s n times there counted in
      let s₁ : Server W = revisited W L s n times in
      let (d, dropped, cut) = drop_client_live W L q s₁ (recount W L n times) refl live in
      (
        record s₁ { dict = d; sent = farewell W L q s₁ },
        rw (stays, met, filled, closes, dropped),
        refl,
        refl,
        λ r.
            rw (cut, find-without r n.0 (W.D.entries s₁.dict), known r)
              (ap (λ c. not (eqb_ℤ r.conn_id c) && knows W s r)
                (find-conn_id q n (W.D.entries s.dict) there)),
      )
