-- ===== src/Handlers/Sessions/Answer.antt =====
-- A message to a C handler against the book of its clients.
use libm2handler.Base.{
  ℕ, suc, ◌+◌, ◌^◌, ◌<◌, ltb, lt→ltb, Option-cases, inl, inr, refl, ◌≡◌, ◌∙◌, [], ◌∷◌, ◌++◌, Bool,
  Bool-cases, true, false, Option, none, some, ℤ, pos, if◌then◌else◌, Outcome, ret, ◌>>=◌, arith,
  length, Bytes, decimal, pos_part,
}
use libm2handler.Extern.{IsLawful, blength}
use libm2handler.Framing.Fresh.{frame_size}
use libm2handler.Handler.Reply.{contents, print_response}
use libm2handler.Session.Interfaces.{IsDict}
use libm2handler.Session.{compare_session_id}
use libm2handler.Websocket.Send.{text_frame, ws_reply_lem}
use libm2handler.Websocket.Broadcast.{SelfAddressed}
use libm2handler.Handlers.Incoming.{Incoming, IsProper, request_of, request_of-Addressed}
use libm2handler.Handlers.Sessions.{
  World, Client, Node, Server, Style, meet, drop_client, answer, on_request,
}
use libm2handler.Handlers.Sessions.Book.{
  Book, visit, drop_last, settle, closes, Points, Keeps, Keeps-cong, Follows, Visits,
}
use libm2handler.Handlers.Sessions.Delivery.{leaves}
use libm2handler.Handlers.Sessions.Visit.{visit-Keeps, drop_last-Follows}

-- What one of the two programs does, as the book needs it: which first bytes close, and what a
-- disconnect request makes of the book.
pub record Behaves (W : World) (style : Style W) (shuts : ℕ → Bool) (quit : Book → Option Book)
    : Type 0 where
  pub is_close_lem :
      (c : ℕ) (cs : Bytes) → style.is_close (suc (length cs)) (c ∷ cs) ≡ ret (shuts c)
  -- A greeting that is sent.
  pub greeting_lem :
      (rand : ℕ → ℕ)
      → (payload : Bytes) × (style.greeting rand ≡ some payload)
        × (0 < length payload)
        × (length payload + 14 < 2 ^ 31)
        × (W.can_alloc (frame_size false (length payload)) ≡ true)
  pub leave-Follows :
      (b : Book) (q : Client W) (s : Server W)
      → Keeps W b s
      → Follows W s (style.leave q s) (quit b)

-- The abstract machine.
unfoldable pub attend :
    (W : World) → (ℕ → Bool) → (Book → Option Book) → Incoming → Book → Option Book
attend W shuts quit m b =
    if leaves W m
    then quit b
    else elim (visit (pos m.id) b) [ none ↦ none | some b' ↦ settle (closes shuts m.body) b' ]

module _ (W : World) (L : IsDict compare_session_id W.D) (S : IsLawful W.B)
    (no_dump : W.dump ≡ false) (style : Style W) (shuts : ℕ → Bool) (quit : Book → Option Book)
    (does : Behaves W style shuts quit) where
  stays_put : (b : Book) (s : Server W) → Keeps W b s → Follows W s (ret s) (some b)
  stays_put b s keeps = (s, refl, (refl, refl), keeps)

  Follows-Within :
      (s s₁ : Server W) (o : Outcome (Server W)) (next : Option Book)
      → s₁.z ≡ s.z
      → s₁.shutdown ≡ s.shutdown
      → Follows W s₁ o next
      → Follows W s o next
  Follows-Within s s₁ o none same_z same_stop fails = fails
  Follows-Within s s₁ o (some b) same_z same_stop (s', ends, (z', stop'), keeps) =
      (s', ends, (z' ∙ same_z, stop' ∙ same_stop), keeps)

  answer_empty :
      (rand : ℕ → ℕ) (b : Book) (q : Client W) (s : Server W)
      → Keeps W b s
      → SelfAddressed q
      → q.body ≡ some []
      → Follows W s (answer W style rand q s) (some b)
  unfolding answer
  answer_empty rand b q s keeps A empty =
      let no_body : blength q.body ≡ 0 = rw empty refl in
      let (payload, greets, filled, small, memory) = does.greeting_lem rand in
      let response : Bytes =
        print_response (contents q.uuid) (decimal (pos_part q.conn_id)) (text_frame W.e payload) in
      (
        record s { sent = s.sent ++ (response ∷ []) },
        rw (
          no_body,
          greets,
          no_dump,
          ws_reply_lem W.e W.can_alloc W.B S q _ _ A s.sent payload small,
          memory,
        ),
        (refl, refl),
        Keeps-cong W b s s.z (s.sent ++ (response ∷ [])) keeps,
      )

  answer_null :
      (rand : ℕ → ℕ) (q : Client W) (s : Server W) (c : ℕ) (cs : Bytes)
      → q.body ≡ some (c ∷ cs)
      → s.tempnode ≡ none
      → answer W style rand q s ≡ ret s
  unfolding answer
  answer_null rand q s c cs filled null =
      let there : ltb 0 (blength q.body) ≡ true =
        rw filled (lt→ltb 0 (suc (length cs)) (omega arith)) in
      simp (there, null)

  answer_node :
      (rand : ℕ → ℕ) (q : Client W) (s : Server W) (c : ℕ) (cs : Bytes) (n : Node W)
      → q.body ≡ some (c ∷ cs)
      → s.tempnode ≡ some n
      → answer W style rand q s ≡ (if shuts c then drop_client W q s else ret s)
  unfolding answer
  answer_node rand q s c cs n filled points =
      let there : ltb 0 (blength q.body) ≡ true =
        rw filled (lt→ltb 0 (suc (length cs)) (omega arith)) in
      let closing : style.is_close (blength q.body) (contents q.body) ≡ ret (shuts c) =
        rw filled (does.is_close_lem c cs) in
      simp (there, points, closing)

  closing-Follows :
      (shut : Bool) (b : Book) (q : Client W) (s : Server W)
      → Keeps W b s
      → Follows W s
          (if shut then drop_client W q s else ret s)
          (if shut then drop_last b else some b)
  closing-Follows true b q s keeps = drop_last-Follows W L b q s keeps
  closing-Follows false b q s keeps = stays_put b s keeps

  settle_nobody : (shut : Bool) (b : Book) → b.last ≡ none → settle shut b ≡ some b
  unfolding settle
  settle_nobody true b nobody = rw nobody refl
  settle_nobody false b nobody = refl

  settle_someone :
      (shut : Bool) (b : Book) (i : ℤ)
      → b.last ≡ some i
      → settle shut b ≡ (if shut then drop_last b else some b)
  unfolding settle
  settle_someone true b i at_i = rw at_i refl
  settle_someone false b i at_i = refl

  answer_filled :
      (rand : ℕ → ℕ) (b : Book) (q : Client W) (s : Server W) (c : ℕ) (cs : Bytes)
      → Keeps W b s
      → q.body ≡ some (c ∷ cs)
      → Follows W s (answer W style rand q s) (settle (shuts c) b)
  answer_filled rand b q s c cs (times, points) filled = elim (Option-cases b.last) [
    | inl nobody ↦
        rw
          (answer_null rand q s c cs filled (rw nobody at points), settle_nobody (shuts c) b nobody)
          (stays_put b s (times, points))
    | inr (i, at_i) ↦
        let (n, points_n, _, _) : Points W (some i) b s = rw at_i at points in
        rw (answer_node rand q s c cs n filled points_n, settle_someone (shuts c) b i at_i)
          (closing-Follows (shuts c) b q s (times, points))
  ]

  answer-Follows :
      (rand : ℕ → ℕ) (b : Book) (q : Client W) (s : Server W) (body : Bytes)
      → Keeps W b s
      → SelfAddressed q
      → q.body ≡ some body
      → Follows W s (answer W style rand q s) (settle (closes shuts body) b)
  answer-Follows rand b q s [] keeps A empty =
      unfold settle in answer_empty rand b q s keeps A empty
  answer-Follows rand b q s (c ∷ cs) keeps A filled = answer_filled rand b q s c cs keeps filled

  met-Follows :
      (rand : ℕ → ℕ) (m : Incoming) (s : Server W) (met : Option Book)
      (o : Outcome (Client W × Server W))
      → Visits W (request_of m) s o met
      → Follows W s
          (o >>= λ r. answer W style rand r.0 r.1)
          (elim met [ none ↦ none | some b ↦ settle (closes shuts m.body) b ])
  met-Follows rand m s none o fails = rw fails refl
  met-Follows rand m s (some b) o (q', s₁, met, same_body, A, (same_z, same_stop), keeps) = rw met (
      Follows-Within s s₁ (answer W style rand q' s₁) (settle (closes shuts m.body) b) same_z
        same_stop (answer-Follows rand b q' s₁ m.body keeps A same_body))

  -- One message makes of the handler what it makes of the book.
  pub on_request-Follows :
      (rand : ℕ → ℕ) (b : Book) (m : Incoming) (s : Server W)
      → Keeps W b s
      → IsProper m
      → Follows W s (on_request W style rand (some (request_of m)) s) (attend W shuts quit m b)
  unfolding on_request attend
  on_request-Follows rand b m s keeps proper = elim (Bool-cases (leaves W m)) [
    | inl goes ↦ rw goes (does.leave-Follows b (request_of m) s keeps)
    | inr stays ↦ rw stays (
        met-Follows rand m s (visit (pos m.id) b) (meet W (request_of m) s)
          (visit-Keeps W L b (request_of m) s keeps (request_of-Addressed m proper.uuid_text)))
  ]
