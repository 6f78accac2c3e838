-- ===== src/Handlers/Sessions/Visit.antt =====
-- The table of the C handlers follows the book at a lookup, and when a client leaves.
use libm2handler.Base.{
  ℕ, ◌+◌, ◌^◌, ◌<◌, ltb, lt→ltb, ltb→lt, inl, inr, refl, ◌≡◌, ◌∙◌, ap, Bool, Bool-cases, true,
  false, Option, none, some, Option-cases, ℤ, pos, eqb_ℤ, eqb_ℤ_iff, eqb_refl, if◌then◌else◌, ret,
  faults, arith, ◌+ℤ◌,
}
use libm2handler.Handler.Request.{Request, add_int}
use libm2handler.Session.Interfaces.{IsDict}
use libm2handler.Session.{SessionData, compare_session_id}
use libm2handler.Session.Entries.{
  find_cong, find-conn_id, find-place_node, find-without_node, find-with_data_other,
  find-with_data_self,
}
use libm2handler.Session.Laws.{fresh_data}
use libm2handler.Websocket.Broadcast.{SelfAddressed, SelfAddressed-cong}
use libm2handler.Websocket.Handshake.{reply_upgrade}
use libm2handler.Handlers.Sessions.{World, Client, Node, Server, meet, drop_client}
use libm2handler.Handlers.Sessions.Laws.{
  lookup_in, farewell, drop_client_live, drop_client_dead, meet_absent, meet_known, meet_overflow,
  upgraded, recount, revisited, reply_upgrade-fields,
}
use libm2handler.Handlers.Sessions.Book.{
  Book, write_seen, visit, drop_last, times_of, counted, Points, Keeps, Follows, Visits,
}

counted_if :
    {J : Type 0} (c : Bool) (o o' : Option (Request J × SessionData)) (t t' : Option ℕ)
    → times_of o ≡ counted t
    → times_of o' ≡ counted t'
    → times_of (if c then o else o') ≡ counted (if c then t else t')
counted_if true o o' t t' first second = first
counted_if false o o' t t' first second = second

times_of-none : {J : Type 0} (o : Option (Request J × SessionData)) → times_of o ≡ none → o ≡ none
times_of-none none h = refl
times_of-none (some n) h = cc

times_of-some :
    {J : Type 0} (o : Option (Request J × SessionData)) (t : ℕ)
    → times_of o ≡ some (pos t)
    → (n : Request J × SessionData) × (o ≡ some n) × (n.1.times_seen ≡ pos t)
times_of-some none t h = cc
times_of-some (some (req, seen)) t h = ((req, seen), refl, cc)

add_one :
    (t : ℕ) → add_int (pos t) (pos 1) ≡ (if ltb (t + 1) (2 ^ 31) then ret (pos (t + 1)) else faults)
unfolding add_int ◌+ℤ◌
add_one t = ground arith

module _ (W : World) (L : IsDict compare_session_id W.D) where
  visit_new :
      (b : Book) (q : Client W) (s : Server W)
      → Keeps W b s
      → SelfAddressed q
      → b.seen q.conn_id ≡ none
      → Visits W q s
          (meet W q s)
          (some (record { seen = write_seen q.conn_id (some 0) b.seen; last = none }))
  visit_new b q s (times, points) A new =
      let absent : lookup_in W q s.dict ≡ none =
        times_of-none (lookup_in W q s.dict) (times q ∙ ap counted new) in
      let (same_id, same_body, same_uuid, same_bstr) = reply_upgrade-fields W q s.sent in
      let q' : Client W = upgraded W L q s in
      let (d, met, still_absent, placed) = meet_absent W L q s absent in
      (
        q',
        record s {
          sent = (reply_upgrade W.can_alloc W.sha1 W.B W.A q s.sent).1;
          dict = d;
          tempnode = none;
        },
        met,
        same_body,
        SelfAddressed-cong q q' same_uuid same_id same_bstr A,
        (refl, refl),
        (
          λ r.
              rw
                (placed, find-place_node r q' fresh_data (W.D.entries s.dict) still_absent, same_id)
                (counted_if (eqb_ℤ r.conn_id q.conn_id) (some (q', fresh_data))
                  (lookup_in W r s.dict) (some 0) (b.seen r.conn_id) refl (times r)),
          refl,
        ),
      )

  recounted :
      (n : Node W) (t : ℕ) (b : Book) (s : Server W) (r : Client W)
      → lookup_in W n.0 s.dict ≡ some n
      → times_of (lookup_in W r s.dict) ≡ counted (b.seen r.conn_id)
      → times_of (lookup_in W r (revisited W L s n (pos t)).dict)
        ≡ counted (write_seen n.0.conn_id (some t) b.seen r.conn_id)
  recounted n t b s r live same =
      let counter : SessionData = record n.1 { times_seen = pos t } in
      rw (L.set_data_lem s.dict n.0 counter) (elim (Bool-cases (eqb_ℤ r.conn_id n.0.conn_id)) [
        | inl own ↦
            rw
              (
                own,
                find_cong r n.0 _ ((eqb_ℤ_iff r.conn_id n.0.conn_id).0 own),
                find-with_data_self n.0 n counter (W.D.entries s.dict) live,
              )
              refl
        | inr other ↦ rw (other, find-with_data_other r n.0 counter (W.D.entries s.dict) other) same
      ])

  visit_again :
      (b : Book) (q : Client W) (s : Server W) (t : ℕ)
      → Keeps W b s
      → SelfAddressed q
      → b.seen q.conn_id ≡ some t
      → t + 1 < 2 ^ 31
      → Visits W q s (meet W q s) (
          some
            (record { seen = write_seen q.conn_id (some (t + 1)) b.seen; last = some q.conn_id }))
  visit_again b q s t (times, points) A again small =
      let (n, there, times_seen) =
        times_of-some (lookup_in W q s.dict) t (times q ∙ ap counted again) in
      let same_id : n.0.conn_id ≡ q.conn_id = find-conn_id q n (W.D.entries s.dict) there in
      let (met, live, still, _) =
        meet_known W L q s n (pos (t + 1)) there
          (rw (times_seen, add_one t, lt→ltb (t + 1) (2 ^ 31) small) refl) in
      (
        q,
        revisited W L s n (pos (t + 1)),
        met,
        refl,
        A,
        (refl, refl),
        (
          λ r. rw same_id at (recounted n (t + 1) b s r live (times r)),
          (recount W L n (pos (t + 1)), refl, same_id, λ t' h. still),
        ),
      )

  visit_full :
      (b : Book) (q : Client W) (s : Server W) (t : ℕ)
      → Keeps W b s
      → b.seen q.conn_id ≡ some t
      → ltb (t + 1) (2 ^ 31) ≡ false
      → meet W q s ≡ faults
  visit_full b q s t (times, points) again full =
      let (n, there, times_seen) =
        times_of-some (lookup_in W q s.dict) t (times q ∙ ap counted again) in
      meet_overflow W L q s n there (rw (times_seen, add_one t, full) refl)

  pub visit-Keeps :
      (b : Book) (q : Client W) (s : Server W)
      → Keeps W b s
      → SelfAddressed q
      → Visits W q s (meet W q s) (visit q.conn_id b)
  unfolding visit
  visit-Keeps b q s keeps A = elim (Option-cases (b.seen q.conn_id)) [
    | inl new ↦ rw (Visits, new) (visit_new b q s keeps A new)
    | inr (t, again) ↦ elim (Bool-cases (ltb (t + 1) (2 ^ 31))) [
      | inl small ↦
          rw (Visits, again, small)
            (visit_again b q s t keeps A again (ltb→lt (t + 1) (2 ^ 31) small))
      | inr full ↦ rw (Visits, again, full) (visit_full b q s t keeps again full)
    ]
  ]

  leave_known :
      (b : Book) (i : ℤ) (t : ℕ) (q : Client W) (s : Server W)
      → Keeps W b s
      → Points W (some i) b s
      → b.seen i ≡ some t
      → Follows W s
          (drop_client W q s)
          (some (record { seen = write_seen i none b.seen; last = some i }))
  leave_known b i t q s (times, _) (n, points, same_id, live) there =
      let (d, dropped, cut) = drop_client_live W L q s n points (live t there) in
      (
        record s { dict = d; sent = farewell W L q s },
        dropped,
        (refl, refl),
        (
          λ r.
              rw (cut, find-without_node r n.0 (W.D.entries s.dict), same_id)
                (counted_if (eqb_ℤ r.conn_id i) none (lookup_in W r s.dict) none (b.seen r.conn_id)
                  refl (times r)),
          (n, points, same_id, λ t' h. let e : none ≡ some t' = rw (eqb_refl i) at h in cc),
        ),
      )

  pub drop_last-Follows :
      (b : Book) (q : Client W) (s : Server W)
      → Keeps W b s
      → Follows W s (drop_client W q s) (drop_last b)
  unfolding drop_last
  drop_last-Follows b q s (times, points) = elim (Option-cases b.last) [
    | inl nobody ↦
        let null : s.tempnode ≡ none = rw nobody at points in
        rw nobody (drop_client_dead W L q s (inl null))
    | inr (i, at_i) ↦
        let points_i : Points W (some i) b s = rw at_i at points in
        elim (Option-cases (b.seen i)) [
          | inl gone ↦
              let (n, points_n, same_id, _) = points_i in
              rw (at_i, gone)
                (drop_client_dead W L q s (
                  inr (
                    n,
                    points_n,
                    times_of-none (lookup_in W n.0 s.dict)
                        (times n.0 ∙ ap (λ j. counted (b.seen j)) same_id ∙ ap counted gone),
                  )))
          | inr (t, there) ↦ rw (at_i, there) (leave_known b i t q s (times, points) points_i there)
        ]
  ]
