-- ===== src/Session/Laws.antt =====
-- The session table as a set of connection ids.
use libm2handler.Base.{
  ◌≡◌, refl, sym, Bool, true, false, not, ◌&&◌, ◌||◌, none, pos, eqb_ℤ, if◌then◌else◌, ret, aborts,
  faults, blocks, ◌>>=◌,
}
use libm2handler.Handler.Request.{Request}
use libm2handler.Session.Interfaces.{IsDict, Pthread, IsMutex, find, place, without}
use libm2handler.Session.Entries.{
  found, answer_found, not_found, is_found, found-ne-none, find-place, find-without,
}
use libm2handler.Session.{
  SessionData, compare_session_id, Table, Sessions, lock, unlock, init, add, remove, contains,
}

-- The data of a session that was added just now.
abbrev pub fresh_data : SessionData
fresh_data = record { times_seen = pos 0; user = none }

module _ {J : Type 0} (D : Table J) (L : IsDict compare_session_id D) (P : Pthread)
    (M : IsMutex P) where
  -- Whether the table holds a session with the request's connection id.
  unfoldable pub present : Sessions D P → Request J → Bool
  present s q = found (find compare_session_id q (D.entries s.dict))

  abbrev pub Idle : Sessions D P → Type 0
  Idle s = s.mutex ≡ P.init

  pub lock-Idle : (s : Sessions D P) → Idle s → lock D P s ≡ ret (record s { mutex = M.held })
  unfolding lock
  lock-Idle s idle = rw (idle, M.lock-init)

  lock_held : (d : D.T) → lock D P (record { dict = d; mutex = M.held }) ≡ blocks
  unfolding lock
  lock_held d = rw M.lock-held

  pub unlock_held :
      (d : D.T)
      → unlock D P (record { dict = d; mutex = M.held }) ≡ ret (record { dict = d; mutex = P.init })
  unfolding unlock
  unlock_held d = rw M.unlock-held

  pub restored :
      (s : Sessions D P)
      → Idle s
      → ◌≡◌ {A = Sessions D P} (record { dict = s.dict; mutex = P.init }) s
  restored s idle = λ i. record { dict = s.dict; mutex = sym idle i }

  -- On a table whose mutex is free, `contains` returns 1 if a session with the request's
  -- connection id is present and 0 otherwise, and leaves the table and its mutex as they were.
  -- The dictionary and the mutex behave as documented.
  pub contains_lem :
      (s : Sessions D P) (req : Request J)
      → Idle s
      → contains D P s req ≡ ret (if present s req then pos 1 else pos 0, s)
  unfolding contains present
  contains_lem s req idle = rw (
    lock-Idle s idle,
    unlock_held s.dict,
    L.lookup_lem s.dict req,
    answer_found (find compare_session_id req (D.entries s.dict)),
    restored s idle,
  )

  -- What `add` and `remove` make of the nodes.
  pub add_absent :
      (s : Sessions D P) (req : Request J)
      → Idle s
      → present s req ≡ false
      → (s' : Sessions D P) × (add D P s req ≡ ret (pos 0, s'))
        × Idle s'
        × (D.entries s'.dict ≡ place compare_session_id req fresh_data (D.entries s.dict))
  unfolding add present
  add_absent s req idle fresh =
      let (d, inserted, placed) = L.insert_new s.dict req fresh_data (not_found _ fresh) in
      (
        record { dict = d; mutex = P.init },
        rw (lock-Idle s idle, inserted, unlock_held d),
        refl,
        placed,
      )

  pub remove-present :
      (s : Sessions D P) (req : Request J)
      → Idle s
      → present s req ≡ true
      → (s' : Sessions D P) × (remove D P s req ≡ ret (pos 0, s'))
        × Idle s'
        × (D.entries s'.dict ≡ without compare_session_id req (D.entries s.dict))
  unfolding remove present
  remove-present s req idle there =
      let (n, is_n) = is_found _ there in
      let (d, deleted, cut) = L.delete_found s.dict req n is_n in
      (
        record { dict = d; mutex = P.init },
        rw (lock-Idle s idle, L.lookup_lem s.dict req, is_n, deleted, unlock_held d),
        refl,
        cut,
      )

  -- On a table whose mutex is free, `add` of a request whose connection id is absent returns 0,
  -- leaves the mutex free, and makes that id present and no other. The dictionary and the mutex
  -- behave as documented.
  pub present-add :
      (s : Sessions D P) (req : Request J)
      → Idle s
      → present s req ≡ false
      → (s' : Sessions D P) × (add D P s req ≡ ret (pos 0, s'))
        × Idle s'
        × ((q : Request J) → present s' q ≡ (eqb_ℤ q.conn_id req.conn_id || present s q))
  unfolding present
  present-add s req idle fresh =
      let (s', added, idle', placed) = add_absent s req idle fresh in
      (s', added, idle', λ q. rw placed (find-place q req fresh_data (D.entries s.dict)))

  -- On a table whose mutex is free, `remove` of a request whose connection id is present returns
  -- 0, leaves the mutex free, and makes that id absent and changes no other. The dictionary and
  -- the mutex behave as documented.
  pub present-remove :
      (s : Sessions D P) (req : Request J)
      → Idle s
      → present s req ≡ true
      → (s' : Sessions D P) × (remove D P s req ≡ ret (pos 0, s'))
        × Idle s'
        × ((q : Request J) → present s' q ≡ (not (eqb_ℤ q.conn_id req.conn_id) && present s q))
  unfolding present
  present-remove s req idle there =
      let (s', removed, idle', cut) = remove-present s req idle there in
      (s', removed, idle', λ q. rw cut (find-without q req (D.entries s.dict)))

  -- On a table whose mutex is free, `add` of a connection id that is present fails an assertion,
  -- and `remove` of one that is absent hands a NULL node to the dictionary, which is undefined.
  -- The dictionary and the mutex behave as documented.
  pub misuse :
      (s : Sessions D P) (req : Request J)
      → Idle s
      → (present s req ≡ true → add D P s req ≡ aborts)
        × (present s req ≡ false → remove D P s req ≡ faults)
  unfolding add remove present
  misuse s req idle = (
    λ there. rw (lock-Idle s idle, L.insert_again s.dict req _ (found-ne-none _ there)),
    λ fresh. rw (lock-Idle s idle, L.lookup_lem s.dict req, not_found _ fresh, L.delete_null),
  )

  -- After `init` alone, each of `add`, `remove` and `contains` waits for ever, since `init`
  -- returns with the mutex held. The dictionary and the mutex behave as documented.
  pub init_blocks :
      (req : Request J)
      → ((init D P >>= λ r. add D P r.1 req) ≡ blocks)
        × ((init D P >>= λ r. remove D P r.1 req) ≡ blocks)
        × ((init D P >>= λ r. contains D P r.1 req) ≡ blocks)
  unfolding init add remove contains
  init_blocks req = (rw (started, lock_held), rw (started, lock_held), rw (started, lock_held))
    where
      started :
          lock D P (record { dict = D.create; mutex = P.init })
          ≡ ret (record { dict = D.create; mutex = M.held })
      started = lock-Idle (record { dict = D.create; mutex = P.init }) refl
