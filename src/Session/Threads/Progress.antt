-- ===== src/Session/Threads/Progress.antt =====
-- The threads do not wait for each other for ever.
use libm2handler.Base.{
  ◌<◌, ◌≡◌, ◌⊎◌, inl, inr, refl, arith, [], ◌∷◌, List, Bool, Bool-cases, true, false, not, ℤ, pos,
  ret, check, returned, ◌∙◌,
}
use mathlib.Core.List.{Perm}
use libm2handler.Session.Interfaces.{IsDict, Pthread, IsMutex}
use libm2handler.Session.{
  Code, answers, locks, unlocks, inserts, asserts, looks_up, deletes, compare_session_id, Table,
  Sessions, exec, run,
}
use libm2handler.Session.Laws.{Idle, present, lock-Idle, add_absent, remove-present, contains_lem}
use libm2handler.Session.Threads.{
  Call, adding, removing, asking, Thread, Turns, here, there, perform, Scene, Step, goes, Reach,
  Replay,
}
use libm2handler.Session.Threads.Critical.{weight, inside, answered, IsAnswer}
use libm2handler.Session.Threads.Serial.{
  IsHeld, unlock_frees, Fits-Continues, picked, IsSerial, Reach-Serial,
}

module _ {J : Type 0} where
  -- A thread of the list stands before some code, and may go on to any.
  abbrev pub Stands : Call J → Code J → List (Thread J) → Type 0
  Stands op k ts = (k' : Code J) → (us : List (Thread J)) × Turns (op, k) (op, k') ts us

  Stands-there :
      (x : Thread J) (op : Call J) (k : Code J) (ts : List (Thread J))
      → Stands op k ts
      → Stands op k (x ∷ ts)
  Stands-there x op k ts stands k' = let (us, t) = stands k' in (x ∷ us, there t)

  Stands-here : (op : Call J) (k : Code J) (ts : List (Thread J)) → Stands op k ((op, k) ∷ ts)
  Stands-here op k ts k' = ((op, k') ∷ ts, here)

  abbrev pub AllFinished : List (Thread J) → Type 0
  AllFinished [] = Unit
  AllFinished ((op, k) ∷ ts) = IsAnswer k × AllFinished ts

  abbrev SomeWaits : List (Thread J) → Type 0
  SomeWaits ts = (op : Call J) × (k : Code J) × Stands op (locks k) ts

  SomeWaits-there : (x : Thread J) (ts : List (Thread J)) → SomeWaits ts → SomeWaits (x ∷ ts)
  SomeWaits-there x ts (op, k, stands) = (op, k, Stands-there x op (locks k) ts stands)

  someone_waits : (ts : List (Thread J)) → inside ts ≡ 0 → AllFinished ts ⊎ SomeWaits ts
  someone_waits [] out = inl tt
  someone_waits ((op, answers a) ∷ ts) out = elim (someone_waits ts (omega arith)) [
    | inl all ↦ inl ((a, refl), all)
    | inr waits ↦ inr (SomeWaits-there (op, answers a) ts waits)
  ]
  someone_waits ((op, locks k) ∷ ts) out = inr (op, k, Stands-here op (locks k) ts)
  someone_waits ((op, unlocks k) ∷ ts) out = absurd (omega arith)
  someone_waits ((op, inserts req seen k) ∷ ts) out = absurd (omega arith)
  someone_waits ((op, asserts b k) ∷ ts) out = absurd (omega arith)
  someone_waits ((op, looks_up req k) ∷ ts) out = absurd (omega arith)
  someone_waits ((op, deletes tempnode k) ∷ ts) out = absurd (omega arith)

  -- A thread between its lock and its unlock.
  abbrev pub IsInside : Call J → Code J → List (Thread J) → Type 0
  IsInside op k ts = (weight k ≡ 1) × Stands op k ts

  weight-cases : (k : Code J) → (weight k ≡ 0) ⊎ (weight k ≡ 1)
  weight-cases (answers a) = inl refl
  weight-cases (locks k) = inl refl
  weight-cases (unlocks k) = inr refl
  weight-cases (inserts req seen k) = inr refl
  weight-cases (asserts b k) = inr refl
  weight-cases (looks_up req k) = inr refl
  weight-cases (deletes tempnode k) = inr refl

  someone_inside :
      (ts : List (Thread J)) → 0 < inside ts → (op : Call J) × (k : Code J) × IsInside op k ts
  someone_inside [] some_inside = absurd (omega arith)
  someone_inside ((op, k) ∷ ts) some_inside = elim (weight-cases k) [
    | inr one ↦ (op, k, (one, Stands-here op k ts))
    | inl out ↦
        let (o, k₁, (one, stands)) = someone_inside ts (omega arith) in
        (o, k₁, (one, Stands-there (op, k) o k₁ ts stands))
  ]

module _ {J : Type 0} (D : Table J) (P : Pthread) (L : IsDict compare_session_id D)
    (M : IsMutex P) where
  -- A call that the table does not allow: a second key, or one that is not there.
  abbrev pub misuses : Call J → Sessions D P → Bool
  misuses (adding req) s = present D L P M s req
  misuses (removing req) s = not (present D L P M s req)
  misuses (asking req) s = false

  perform-returns :
      (op : Call J) (s : Sessions D P)
      → Idle D L P M s
      → misuses op s ≡ false
      → (r : ℤ × Sessions D P) × (perform D P op s ≡ ret r)
  unfolding perform
  perform-returns (adding req) s idle allowed =
      let (s', added, _, _) = add_absent D L P M s req idle allowed in ((pos 0, s'), added)
  perform-returns (removing req) s idle allowed =
      let (s', removed, _, _) = remove-present D L P M s req idle (ground arith) in
      ((pos 0, s'), removed)
  perform-returns (asking req) s idle allowed = (_, contains_lem D L P M s req idle)

  -- Code inside that would come to its answer can take its next step.
  exec-returns :
      (k : Code J) (s : Sessions D P) (r : ℤ × Sessions D P)
      → weight k ≡ 1
      → IsHeld D L P M s
      → run D P k s ≡ ret r
      → (k' : Code J) × (s' : Sessions D P) × (exec D P k s ≡ ret (k', s'))
  unfolding exec
  exec-returns (unlocks k) s r one held e =
      (k, record s { mutex = P.init }, rw (unlock_frees D L P M s held) refl)
  exec-returns (inserts req seen k) s r one held e =
      let (x, inserted, _) = returned (D.alloc_insert s.dict req seen) _ r e in
      (k x.0, record s { dict = x.1 }, rw inserted refl)
  exec-returns (asserts b k) s r one held e =
      let (u, holds, _) = returned (check b) _ r e in (k, s, rw holds refl)
  exec-returns (looks_up req k) s r one held e = (k (D.lookup s.dict req), s, refl)
  exec-returns (deletes tempnode k) s r one held e =
      let (d, deleted, _) = returned (D.delete_free s.dict tempnode) _ r e in
      (k, record s { dict = d }, rw deleted refl)
  exec-returns (answers a) s r one held e = absurd (omega arith)
  exec-returns (locks k) s r one held e = absurd (omega arith)

  abbrev pub CanStep : Scene D P → Type 0
  CanStep c = (c' : Scene D P) × Step D P c c'

  -- The thread inside makes a call that the table `s₁` does not allow to which the finished calls
  -- lead.
  abbrev pub IsMisused : Sessions D P → Scene D P → Type 0
  IsMisused s c =
      (op : Call J) × (k : Code J) × IsInside op k c.threads
      × (history : List (Call J × ℤ)) × (s₁ : Sessions D P) × Perm history (answered c.threads)
      × Replay D P history s s₁
      × (misuses op s₁ ≡ true)

  inside_goes :
      (s : Sessions D P) (c : Scene D P) (op : Call J) (k : Code J)
      → IsHeld D L P M c.shared
      → IsInside op k c.threads
      → IsSerial D L P M s c
      → CanStep c ⊎ IsMisused s c
  inside_goes s c op k held (one, stands) (h, s₁, p, r, idle₁, agrees, fits) =
      elim (Bool-cases (misuses op s₁)) [
        | inl misused ↦ inr (op, k, (one, stands), h, s₁, p, r, misused)
        | inr allowed ↦
            let (us, t) = stands k in
            let (critical, continues) =
              Fits-Continues D L P M s₁ c.shared op k one (picked D L P M s₁ c.shared t fits) in
            let (answer, done) = perform-returns op s₁ idle₁ allowed in
            let (k', s', did) = exec-returns k c.shared answer one held (continues ∙ done) in
            let (ts, t') = stands k' in
            inl (record { shared = s'; threads = ts }, goes op k k' did t')
      ]

  outside_goes :
      (c : Scene D P)
      → Idle D L P M c.shared
      → inside c.threads ≡ 0
      → AllFinished c.threads ⊎ CanStep c
  unfolding exec
  outside_goes c idle out = elim (someone_waits c.threads out) [
    | inl all ↦ inl all
    | inr (op, k, stands) ↦
        let (ts, t) = stands k in
        inr (
          record { shared = record c.shared { mutex = M.held }; threads = ts },
          goes op (locks k) k (rw (lock-Idle D L P M c.shared idle) refl) t,
        )
  ]

  -- However the single steps of threads interleave that each make one call of `add`, `remove` or
  -- `contains` on one table, they do not all wait for ever: all calls are finished, or some
  -- thread can take a step, or a thread between its lock and its unlock adds a client that is
  -- there or removes one that is not, in the table to which the finished calls lead. The mutex is
  -- free at the start. The dictionary and the mutex behave as documented.
  pub Reach-progress :
      (s : Sessions D P) (ops : List (Call J)) {c : Scene D P}
      → Idle D L P M s
      → Reach D P s ops c
      → AllFinished c.threads ⊎ (CanStep c ⊎ IsMisused s c)
  Reach-progress s ops {c = c} idle run =
      let (exclusive, serial) = Reach-Serial D L P M s ops idle run in
      elim exclusive [
        | inl (free, out) ↦ elim (outside_goes c free out) [
          | inl all ↦ inl all
          | inr on ↦ inr (inl on)
        ]
        | inr (held, one) ↦
            let (op, k, within) = someone_inside c.threads (omega arith) in
            inr (inside_goes s c op k held within serial)
      ]
