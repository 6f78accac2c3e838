-- ===== src/Handlers/Sessions/Laws.antt =====
-- The table of clients, and the node that `tempnode` points to.
use libm2handler.Base.{
  ◌≡◌, ◌⊎◌, inl, inr, refl, ◌∙◌, ap, [], List, Bool, Bool-cases, false, ◌||◌, Option, none, some, ℤ,
  pos, ◌+ℤ◌, fits_int, eqb_ℤ, eqb_ℤ_iff, arith, ret, faults,
}
use libm2handler.Handler.Request.{add_int}
use libm2handler.Handler.Reply.{Sent, reply, disconnect}
use libm2handler.Handler.Headers.{get_header, parse_headers}
use libm2handler.Session.Interfaces.{IsDict, find, place, without}
use libm2handler.Session.Entries.{
  found, not_found, find-place, find-without, find-with_data, find-with_data_self, find-conn_id,
  find_cong,
}
use libm2handler.Session.{SessionData, compare_session_id}
use libm2handler.Session.Laws.{fresh_data}
use libm2handler.Websocket.Handshake.{reply_upgrade, upgrade_headers, calculate_accept, accept_of}
use libm2handler.Handlers.Sessions.{World, Client, Node, Server, meet, drop_client}

pub add_int-cases : (a b : ℤ) → ((c : ℤ) × (add_int a b ≡ ret c)) ⊎ (add_int a b ≡ faults)
unfolding add_int
add_int-cases a b = elim (Bool-cases (fits_int (a +ℤ b))) [
  | inl fits ↦ inl (a +ℤ b, rw fits)
  | inr over ↦ inr (rw over)
]

module _ (W : World) where
  abbrev pub lookup_in : Client W → W.D.T → Option (Node W)
  lookup_in q t = find compare_session_id q (W.D.entries t)

  -- Whether the table has a session with the connection id.
  abbrev pub knows : Server W → Client W → Bool
  knows s q = found (lookup_in q s.dict)

  -- The upgrade changes no more than the parsed headers of the request.
  pub reply_upgrade-fields :
      (q : Client W) (sent : Sent)
      → ((reply_upgrade W.can_alloc W.sha1 W.B W.A q sent).2.conn_id ≡ q.conn_id)
        × ((reply_upgrade W.can_alloc W.sha1 W.B W.A q sent).2.body ≡ q.body)
        × ((reply_upgrade W.can_alloc W.sha1 W.B W.A q sent).2.uuid ≡ q.uuid)
        × ((reply_upgrade W.can_alloc W.sha1 W.B W.A q sent).2.conn_id_bstr ≡ q.conn_id_bstr)
  unfolding reply_upgrade upgrade_headers calculate_accept accept_of get_header parse_headers
  reply_upgrade-fields q sent = ground arith

  module _ (L : IsDict compare_session_id W.D) where
    -- What is sent to a client that is dropped.
    abbrev pub farewell : Client W → Server W → Sent
    farewell q s = (reply W.B s.sent q (W.B.bfromcstr (some []))).1

    pub drop_client_live :
        (q : Client W) (s : Server W) (n : Node W)
        → s.tempnode ≡ some n
        → lookup_in n.0 s.dict ≡ some n
        → (d : W.D.T) × (drop_client W q s ≡ ret (record s { dict = d; sent = farewell q s }))
          × (W.D.entries d ≡ without compare_session_id n.0 (W.D.entries s.dict))
    unfolding drop_client disconnect
    drop_client_live q s n points live =
        let (d, deleted, cut) = L.delete_found s.dict n.0 n live in (d, rw (points, deleted), cut)

    -- With NULL, or a node that was deleted, the dictionary is misused.
    pub drop_client_dead :
        (q : Client W) (s : Server W)
        → (s.tempnode ≡ none)
          ⊎ ((n : Node W) × (s.tempnode ≡ some n) × (lookup_in n.0 s.dict ≡ none))
        → drop_client W q s ≡ faults
    unfolding drop_client
    drop_client_dead q s (inl null) = rw (null, L.delete_null)
    drop_client_dead q s (inr (n, points, gone)) = rw (points, L.delete_stale s.dict n gone)

    not_there-without :
        (q : Client W) (m : List (Node W))
        → find compare_session_id q (without compare_session_id q m) ≡ none
    not_there-without q m =
        not_found (find compare_session_id q (without compare_session_id q m))
          (rw (find-without q q m) (ground (arith, eqb_ℤ_iff q.conn_id q.conn_id)))

    -- After a node is deleted, `tempnode` still points to it.
    pub drop_client_dangles :
        (q : Client W) (s : Server W) (n : Node W)
        → s.tempnode ≡ some n
        → lookup_in n.0 s.dict ≡ some n
        → (s' : Server W) × (drop_client W q s ≡ ret s')
          × (s'.tempnode ≡ some n)
          × (lookup_in n.0 s'.dict ≡ none)
    drop_client_dangles q s n points live =
        let (d, done, cut) = drop_client_live q s n points live in
        (
          record s { dict = d; sent = farewell q s },
          done,
          points,
          rw cut (not_there-without n.0 (W.D.entries s.dict)),
        )

    -- What a lookup that finds no one makes of the request and of the table.
    abbrev pub upgraded : Client W → Server W → Client W
    upgraded q s = (reply_upgrade W.can_alloc W.sha1 W.B W.A q s.sent).2

    pub meet_absent :
        (q : Client W) (s : Server W)
        → lookup_in q s.dict ≡ none
        → (d : W.D.T) × (meet W q s
            ≡ ret (
              upgraded q s,
              record s {
                sent = (reply_upgrade W.can_alloc W.sha1 W.B W.A q s.sent).1;
                dict = d;
                tempnode = none;
              },
            ))
          × (lookup_in (upgraded q s) s.dict ≡ none)
          × (W.D.entries d
              ≡ place compare_session_id (upgraded q s) fresh_data (W.D.entries s.dict))
    unfolding meet
    meet_absent q s absent =
        let still_absent : lookup_in (upgraded q s) s.dict ≡ none =
          find_cong (upgraded q s) q (W.D.entries s.dict) (reply_upgrade-fields q s.sent).0
          ∙ absent in
        let (d, inserted, placed) = L.insert_new s.dict (upgraded q s) fresh_data still_absent in
        (d, rw (L.lookup_lem s.dict q, absent, inserted, meet), still_absent, placed)

    -- A lookup that finds no one adds the client, and clears `tempnode`.
    pub meet_new :
        (q : Client W) (s : Server W)
        → knows s q ≡ false
        → (q' : Client W) × (s' : Server W) × (meet W q s ≡ ret (q', s'))
          × (s'.tempnode ≡ none)
          × (q'.body ≡ q.body)
          × ((r : Client W) → knows s' r ≡ (eqb_ℤ r.conn_id q.conn_id || knows s r))
    meet_new q s unknown =
        let (same_id, same_body, _, _) = reply_upgrade-fields q s.sent in
        let (d, met, _, placed) = meet_absent q s (not_found _ unknown) in
        (
          upgraded q s,
          record s {
            sent = (reply_upgrade W.can_alloc W.sha1 W.B W.A q s.sent).1;
            dict = d;
            tempnode = none;
          },
          met,
          refl,
          same_body,
          λ r.
              rw placed (find-place r (upgraded q s) fresh_data (W.D.entries s.dict))
              ∙ ap (λ c. eqb_ℤ r.conn_id c || knows s r) same_id,
        )

    -- A node after a visit, and what a lookup that finds it makes of the variables of `main`.
    abbrev pub recount : Node W → ℤ → Node W
    recount n times = (n.0, record n.1 { times_seen = times })

    abbrev pub revisited : Server W → Node W → ℤ → Server W
    revisited s n times = record s {
      dict = W.D.set_data s.dict n.0 (record n.1 { times_seen = times });
      tempnode = some (recount n times);
    }

    -- A lookup that finds a client counts it, changes no one else, and points `tempnode` to it.
    pub meet_known :
        (q : Client W) (s : Server W) (n : Node W) (times : ℤ)
        → lookup_in q s.dict ≡ some n
        → add_int n.1.times_seen (pos 1) ≡ ret times
        → (meet W q s ≡ ret (q, revisited s n times))
          × (lookup_in n.0 s.dict ≡ some n)
          × (lookup_in n.0 (revisited s n times).dict ≡ some (recount n times))
          × ((r : Client W) → knows (revisited s n times) r ≡ knows s r)
    unfolding meet
    meet_known q s n times there counted =
        let counter : SessionData = record n.1 { times_seen = times } in
        let at_node : lookup_in n.0 s.dict ≡ some n =
          find_cong n.0 q (W.D.entries s.dict) (find-conn_id q n (W.D.entries s.dict) there)
          ∙ there in
        (
          rw (L.lookup_lem s.dict q, there, counted, meet),
          at_node,
          rw (L.set_data_lem s.dict n.0 counter)
              (find-with_data_self n.0 n counter (W.D.entries s.dict) at_node),
          λ r.
              rw (L.set_data_lem s.dict n.0 counter)
                (find-with_data r n.0 counter (W.D.entries s.dict)),
        )

    -- A client that was seen 2^31 - 1 times overflows its counter.
    pub meet_overflow :
        (q : Client W) (s : Server W) (n : Node W)
        → lookup_in q s.dict ≡ some n
        → add_int n.1.times_seen (pos 1) ≡ faults
        → meet W q s ≡ faults
    unfolding meet
    meet_overflow q s n there over = rw (L.lookup_lem s.dict q, there, over, meet)
