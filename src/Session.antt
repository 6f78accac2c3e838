-- ===== src/Session.antt =====
-- src/websocket_session.c: the table of websocket connections, by connection id, under a mutex.
-- The allocations of keys and values are taken to succeed; the code does not test them.
pub mod Interfaces
pub mod Entries
pub mod Laws
pub mod Threads
pub mod Checks
use libm2handler.Base.{
  ◌≡◌, Option, none, some, ℤ, pos, negsuc, eqb_ℤ, ltb_ℤ, Bool, if◌then◌else◌, Outcome, ret, ◌>>=◌,
  ◌>>◌, blocks, check, ℕ,
}
use libm2handler.Handler.Request.{Request}
use Interfaces.{Dict, Pthread}

-- `m2_ws_session_data`
pub record SessionData : Type 0 where
  pub times_seen : ℤ
  pub user : Option ℕ

-- `m2_ws_session_id` holds the request alone, so that a key is a request.
unfoldable pub compare_session_id : {J : Type 0} → Request J → Request J → ℤ
compare_session_id ses1 ses2 =
    if ltb_ℤ ses2.conn_id ses1.conn_id
    then pos 1
    else if ltb_ℤ ses1.conn_id ses2.conn_id
    then negsuc 0
    else pos 0

abbrev pub Table : Type 0 → Type 1
Table J = Dict (Request J) SessionData compare_session_id

-- `m2_ws_sessions_state`
pub record Sessions {J : Type 0} (D : Table J) (P : Pthread) : Type 0 where
  pub dict : D.T
  pub mutex : P.Mutex

-- The steps of a call on the table, one lock, dictionary operation, assertion or unlock each.
pub data Code (J : Type 0) : Type 0 where
  answers : ℤ → Code J
  locks unlocks : Code J → Code J
  inserts : Request J → SessionData → (ℤ → Code J) → Code J
  asserts : Bool → Code J → Code J
  looks_up : Request J → (Option (Request J × SessionData) → Code J) → Code J
  deletes : Option (Request J × SessionData) → Code J → Code J

abbrev pub add_code : {J : Type 0} → Request J → Code J
add_code req = locks (
    inserts req (record { times_seen = pos 0; user = none })
      λ retval. asserts (eqb_ℤ retval (pos 1)) (unlocks (answers (pos 0))))

abbrev pub remove_code : {J : Type 0} → Request J → Code J
remove_code req = locks (looks_up req λ tempnode. deletes tempnode (unlocks (answers (pos 0))))

abbrev pub contains_code : {J : Type 0} → Request J → Code J
contains_code req =
    locks
      (looks_up req λ tempnode. unlocks (answers (elim tempnode [ none ↦ pos 0 | some n ↦ pos 1 ])))

module _ {J : Type 0} (D : Table J) (P : Pthread) where
  unfoldable pub lock : Sessions D P → Outcome (Sessions D P)
  lock s = do
    (retval, m) ← P.lock s.mutex
    check (eqb_ℤ retval (pos 0))
    ret (record s { mutex = m })

  unfoldable pub unlock : Sessions D P → Outcome (Sessions D P)
  unlock s = do
    (retval, m) ← P.unlock s.mutex
    check (eqb_ℤ retval (pos 0))
    ret (record s { mutex = m })

  unfoldable pub init : Outcome (ℤ × Sessions D P)
  init = do s ← lock (record { dict = D.create; mutex = P.init }); ret (pos 0, s)

  -- Nothing is freed.
  abbrev pub destroy : Sessions D P → ℤ × Sessions D P
  destroy state = (pos 0, state)

  abbrev pub get_dict : Sessions D P → D.T
  get_dict container = container.dict

  -- What a thread does with the table when it takes the first step of a call, and what is left.
  unfoldable pub exec : Code J → Sessions D P → Outcome (Code J × Sessions D P)
  exec (answers a) s = blocks
  exec (locks k) s = do s' ← lock s; ret (k, s')
  exec (inserts req seen k) s = do
    (retval, d) ← D.alloc_insert s.dict req seen
    ret (k retval, record s { dict = d })
  exec (asserts b k) s = do check b; ret (k, s)
  exec (looks_up req k) s = ret (k (D.lookup s.dict req), s)
  exec (deletes tempnode k) s = do d ← D.delete_free s.dict tempnode; ret (k, record s { dict = d })
  exec (unlocks k) s = do s' ← unlock s; ret (k, s')

  -- A call that nothing interrupts.
  abbrev pub run : Code J → Sessions D P → Outcome (ℤ × Sessions D P)
  run (answers a) s = ret (a, s)
  run (locks k) s = do s' ← lock s; run k s'
  run (inserts req seen k) s = do
    (retval, d) ← D.alloc_insert s.dict req seen
    run (k retval) (record s { dict = d })
  run (asserts b k) s = do check b; run k s
  run (looks_up req k) s = run (k (D.lookup s.dict req)) s
  run (deletes tempnode k) s = do d ← D.delete_free s.dict tempnode; run k (record s { dict = d })
  run (unlocks k) s = do s' ← unlock s; run k s'

  unfoldable pub add : Sessions D P → Request J → Outcome (ℤ × Sessions D P)
  add container req = run (add_code req) container

  unfoldable pub remove : Sessions D P → Request J → Outcome (ℤ × Sessions D P)
  remove container req = run (remove_code req) container

  unfoldable pub contains : Sessions D P → Request J → Outcome (ℤ × Sessions D P)
  contains container req = run (contains_code req) container
