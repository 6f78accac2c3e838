-- ===== src/Handlers/Sessions/Book.antt =====
-- The C handlers against a book of their clients: how often each was seen, and who was last.
use libm2handler.Base.{
  ℕ, ◌+◌, ◌^◌, ltb, ◌≡◌, [], ◌∷◌, Bool, true, false, Option, none, some, ℤ, pos, eqb_ℤ,
  if◌then◌else◌, Outcome, ret, faults, Bytes,
}
use libm2handler.Handler.Request.{Request}
use libm2handler.Handler.Reply.{Sent}
use libm2handler.Session.{SessionData}
use libm2handler.Websocket.Broadcast.{SelfAddressed}
use libm2handler.Handlers.Sessions.{World, Client, Node, Server}
use libm2handler.Handlers.Sessions.Laws.{lookup_in}

pub record Book : Type 0 where
  -- How often each connection id was seen again, if it is known.
  pub seen : ℤ → Option ℕ
  -- The known client that was looked up last.
  pub last : Option ℤ

abbrev pub write_seen : ℤ → Option ℕ → (ℤ → Option ℕ) → ℤ → Option ℕ
write_seen i t seen = λ j. if eqb_ℤ j i then t else seen j

-- The lookup. A counter at 2^31 - 1 has no successor.
unfoldable pub visit : ℤ → Book → Option Book
visit i b = elim (b.seen i) [
  | none ↦ some (record { seen = write_seen i (some 0) b.seen; last = none })
  | some t ↦
      if ltb (t + 1) (2 ^ 31)
      then some (record { seen = write_seen i (some (t + 1)) b.seen; last = some i })
      else none
]

-- The client that was looked up last leaves. It must be there.
unfoldable pub drop_last : Book → Option Book
drop_last b = elim b.last [
  | none ↦ none
  | some i ↦ elim (b.seen i) [
    | none ↦ none
    | some t ↦ some (record { seen = write_seen i none b.seen; last = some i })
  ]
]

-- Whether a body closes, by its first byte.
abbrev pub closes : (ℕ → Bool) → Bytes → Bool
closes shuts [] = false
closes shuts (c ∷ cs) = shuts c

-- What follows a lookup.
unfoldable pub settle : Bool → Book → Option Book
unfolding drop_last
settle false b = some b
settle true b = elim b.last [ none ↦ some b | some i ↦ drop_last b ]

-- The counter of a node, and of a book.
abbrev pub times_of : {J : Type 0} → Option (Request J × SessionData) → Option ℤ
times_of none = none
times_of (some (req, seen)) = some seen.times_seen

abbrev pub counted : Option ℕ → Option ℤ
counted none = none
counted (some t) = some (pos t)

module _ (W : World) where
  -- Where `tempnode` points.
  abbrev pub Points : Option ℤ → Book → Server W → Type 0
  Points none b s = s.tempnode ≡ none
  Points (some i) b s =
      (n : Node W) × (s.tempnode ≡ some n)
      × (n.0.conn_id ≡ i)
      × ((t : ℕ) → b.seen i ≡ some t → lookup_in W n.0 s.dict ≡ some n)

  -- The table holds the clients of the book, and `tempnode` points to the last, if it is there.
  abbrev pub Keeps : Book → Server W → Type 0
  Keeps b s =
      ((r : Client W) → times_of (lookup_in W r s.dict) ≡ counted (b.seen r.conn_id))
      × Points b.last b s

  Points-cong :
      (i : Option ℤ) (b : Book) (s : Server W) (z : W.Z.State) (sent : Sent)
      → Points i b s
      → Points i b (record s { z = z; sent = sent })
  Points-cong none b s z sent points = points
  Points-cong (some i) b s z sent points = points

  -- The book does not speak of ZeroMQ and of what was sent.
  pub Keeps-cong :
      (b : Book) (s : Server W) (z : W.Z.State) (sent : Sent)
      → Keeps b s
      → Keeps b (record s { z = z; sent = sent })
  Keeps-cong b s z sent (times, points) = (times, Points-cong b.last b s z sent points)

  -- The second comes from the first by a message.
  abbrev pub Within : Server W → Server W → Type 0
  Within s s' = (s'.z ≡ s.z) × (s'.shutdown ≡ s.shutdown)

  abbrev pub Follows : Server W → Outcome (Server W) → Option Book → Type 0
  Follows s o none = o ≡ faults
  Follows s o (some b) = (s' : Server W) × (o ≡ ret s') × Within s s' × Keeps b s'

  abbrev pub Visits : Client W → Server W → Outcome (Client W × Server W) → Option Book → Type 0
  Visits q s o none = o ≡ faults
  Visits q s o (some b) =
      (q' : Client W) × (s' : Server W) × (o ≡ ret (q', s'))
      × (q'.body ≡ q.body)
      × SelfAddressed q'
      × Within s s'
      × Keeps b s'
