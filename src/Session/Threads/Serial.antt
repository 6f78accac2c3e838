-- ===== src/Session/Threads/Serial.antt =====
-- The mutex of src/websocket_session.c makes the calls of several threads one after the other.
use libm2handler.Base.{
  ◌≡◌, ◌⊎◌, inl, inr, refl, sym, ap, ◌∙◌, arith, [], ◌∷◌, ◌++◌, append-nil, List, map, ℤ, pos, ret,
  blocks, check, returned, ret-injective,
}
use mathlib.Core.Path.{subst}
use mathlib.Core.List.{Perm, perm_middle}
use mathlib.Core.List.Perm
use libm2handler.Session.Interfaces.{IsDict, Pthread, IsMutex}
use libm2handler.Session.{
  Code, answers, locks, unlocks, inserts, asserts, looks_up, deletes, compare_session_id, Table,
  Sessions, lock, unlock, exec, run, add, remove, contains,
}
use libm2handler.Session.Laws.{Idle, lock-Idle}
use libm2handler.Session.Threads.{
  Call, adding, removing, asking, Thread, at_start, Turns, here, there, perform, Scene, Step, goes,
  Reach, start, later, Replay,
}
use libm2handler.Session.Threads.Critical.{
  weight, inside, answered, IsCritical, IsCritical-weight, inside-Turns, weight-Turns, inside-start,
  answered-start, answered-goes, answered-ends, silent_critical,
}

module _ {J : Type 0} (D : Table J) (L : IsDict compare_session_id D) (P : Pthread)
    (M : IsMutex P) where
  abbrev pub IsHeld : Sessions D P → Type 0
  IsHeld s = s.mutex ≡ M.held

  lock_waits : (s : Sessions D P) → IsHeld s → lock D P s ≡ blocks
  unfolding lock
  lock_waits s held = rw (held, M.lock-held)

  pub unlock_frees :
      (s : Sessions D P) → IsHeld s → unlock D P s ≡ ret (record s { mutex = P.init })
  unfolding unlock
  unlock_frees s held = rw (held, M.unlock-held)

  -- What a thread inside has before it comes to what its call comes to, made alone at `s₁`.
  abbrev pub Continues : Sessions D P → Sessions D P → Call J → Code J → Type 0
  Continues s₁ s op k = IsCritical k × (run D P k s ≡ perform D P op s₁)

  abbrev pub Fits : Sessions D P → Sessions D P → Call J → Code J → Type 0
  Fits s₁ s op (answers a) = Unit
  Fits s₁ s op (locks k) =
      IsCritical k × ((r : Sessions D P) → run D P (locks k) r ≡ perform D P op r)
  Fits s₁ s op (unlocks k) = Continues s₁ s op (unlocks k)
  Fits s₁ s op (inserts req seen k) = Continues s₁ s op (inserts req seen k)
  Fits s₁ s op (asserts b k) = Continues s₁ s op (asserts b k)
  Fits s₁ s op (looks_up req k) = Continues s₁ s op (looks_up req k)
  Fits s₁ s op (deletes tempnode k) = Continues s₁ s op (deletes tempnode k)

  abbrev pub AllFit : Sessions D P → Sessions D P → List (Thread J) → Type 0
  AllFit s₁ s [] = Unit
  AllFit s₁ s ((op, k) ∷ ts) = Fits s₁ s op k × AllFit s₁ s ts

  Continues-Fits :
      (s₁ s : Sessions D P) (op : Call J) (k : Code J) → Continues s₁ s op k → Fits s₁ s op k
  Continues-Fits s₁ s op (unlocks k) c = c
  Continues-Fits s₁ s op (inserts req seen k) c = c
  Continues-Fits s₁ s op (asserts b k) c = c
  Continues-Fits s₁ s op (looks_up req k) c = c
  Continues-Fits s₁ s op (deletes tempnode k) c = c
  Continues-Fits s₁ s op (answers a) c = tt
  Continues-Fits s₁ s op (locks k) c = absurd c.0

  pub Fits-Continues :
      (s₁ s : Sessions D P) (op : Call J) (k : Code J)
      → weight k ≡ 1
      → Fits s₁ s op k
      → Continues s₁ s op k
  Fits-Continues s₁ s op (unlocks k) one fits = fits
  Fits-Continues s₁ s op (inserts req seen k) one fits = fits
  Fits-Continues s₁ s op (asserts b k) one fits = fits
  Fits-Continues s₁ s op (looks_up req k) one fits = fits
  Fits-Continues s₁ s op (deletes tempnode k) one fits = fits
  Fits-Continues s₁ s op (answers a) one fits = absurd (omega arith)
  Fits-Continues s₁ s op (locks k) one fits = absurd (omega arith)

  -- The threads outside do not depend on the table.
  outside_Fits :
      (s₁ s s₂ s' : Sessions D P) (op : Call J) (k : Code J)
      → weight k ≡ 0
      → Fits s₁ s op k
      → Fits s₂ s' op k
  outside_Fits s₁ s s₂ s' op (answers a) out fits = tt
  outside_Fits s₁ s s₂ s' op (locks k) out fits = fits
  outside_Fits s₁ s s₂ s' op (unlocks k) out fits = absurd (omega arith)
  outside_Fits s₁ s s₂ s' op (inserts req seen k) out fits = absurd (omega arith)
  outside_Fits s₁ s s₂ s' op (asserts b k) out fits = absurd (omega arith)
  outside_Fits s₁ s s₂ s' op (looks_up req k) out fits = absurd (omega arith)
  outside_Fits s₁ s s₂ s' op (deletes tempnode k) out fits = absurd (omega arith)

  outside_AllFit :
      (s₁ s s₂ s' : Sessions D P) (ts : List (Thread J))
      → inside ts ≡ 0
      → AllFit s₁ s ts
      → AllFit s₂ s' ts
  outside_AllFit s₁ s s₂ s' [] out fits = tt
  outside_AllFit s₁ s s₂ s' ((op, k) ∷ ts) out fits = (
    outside_Fits s₁ s s₂ s' op k (omega arith) fits.0,
    outside_AllFit s₁ s s₂ s' ts (omega arith) fits.1,
  )

  pub picked :
      (s₁ s : Sessions D P) {op : Call J} {k k' : Code J} {ts us : List (Thread J)}
      → Turns (op, k) (op, k') ts us
      → AllFit s₁ s ts
      → Fits s₁ s op k
  picked s₁ s here fits = fits.0
  picked s₁ s (there {x = (o, k₁)} t) fits = picked s₁ s t fits.1

  -- One thread goes on, and all others are outside.
  AllFit-Turns :
      (s₁ s s₂ s' : Sessions D P) {op : Call J} {k k' : Code J} {ts us : List (Thread J)}
      → Turns (op, k) (op, k') ts us
      → inside ts ≡ weight k
      → AllFit s₁ s ts
      → Fits s₂ s' op k'
      → AllFit s₂ s' us
  AllFit-Turns s₁ s s₂ s' (here {ps = ts}) alone fits new =
      (new, outside_AllFit s₁ s s₂ s' ts (omega arith) fits.1)
  AllFit-Turns s₁ s s₂ s' (there {x = (o, k₁)} t) alone fits new = (
    outside_Fits s₁ s s₂ s' o k₁ (omega (arith, weight-Turns t)) fits.0,
    AllFit-Turns s₁ s s₂ s' t (omega (arith, weight-Turns t)) fits.1 new,
  )

  -- A step of the code inside leaves it inside, with the mutex held, or brings it to its answer,
  -- with the mutex free.
  abbrev Goes : Code J → Sessions D P → Type 0
  Goes k' s' = (IsCritical k' × IsHeld s') ⊎ ((a : ℤ) × (k' ≡ answers a) × Idle D L P M s')

  arrives :
      (k : Code J) (s : Sessions D P) {x y : Code J × Sessions D P}
      → x ≡ y
      → Goes y.0 y.1
      → run D P k s ≡ run D P y.0 y.1
      → Goes x.0 x.1 × (run D P k s ≡ run D P x.0 x.1)
  arrives k s same lands runs =
      subst (λ z. Goes z.0 z.1 × (run D P k s ≡ run D P z.0 z.1)) (sym same) (lands, runs)

  critical_step :
      (k k' : Code J) (s s' : Sessions D P)
      → IsCritical k
      → IsHeld s
      → exec D P k s ≡ ret (k', s')
      → Goes k' s' × (run D P k s ≡ run D P k' s')
  unfolding exec
  critical_step (inserts req seen k) k' s s' c held e =
      let (r, inserted, e₂) = returned (D.alloc_insert s.dict req seen) _ (k', s') e in
      arrives (inserts req seen k) s (ret-injective e₂) (inl (c r.0, held)) (rw inserted refl)
  critical_step (asserts b k) k' s s' c held e =
      let (u, holds, e₂) = returned (check b) _ (k', s') e in
      arrives (asserts b k) s (ret-injective e₂) (inl (c, held)) (rw holds refl)
  critical_step (looks_up req k) k' s s' c held e =
      arrives (looks_up req k) s (ret-injective e) (inl (c (D.lookup s.dict req), held)) refl
  critical_step (deletes tempnode k) k' s s' c held e =
      let (d, deleted, e₂) = returned (D.delete_free s.dict tempnode) _ (k', s') e in
      arrives (deletes tempnode k) s (ret-injective e₂) (inl (c, held)) (rw deleted refl)
  critical_step (unlocks k) k' s s' c held e =
      let (u, freed, e₂) = returned (unlock D P s) _ (k', s') e in
      let idle : Idle D L P M u =
        ap (λ x. x.mutex) (ret-injective (sym (unlock_frees s held) ∙ freed)) in
      arrives (unlocks k) s (ret-injective e₂) (inr (c.0, c.1, idle)) (rw freed refl)
  critical_step (answers a) k' s s' c held e = absurd c
  critical_step (locks k) k' s s' c held e = absurd c

  -- The mutex is held exactly while one thread is between its lock and its unlock.
  abbrev pub IsExclusive : Scene D P → Type 0
  IsExclusive c =
      ((c.shared.mutex ≡ P.init) × (inside c.threads ≡ 0))
      ⊎ (IsHeld c.shared × (inside c.threads ≡ 1))

  -- The finished calls, made alone one after the other in some order with the same answers, give
  -- a table `s₁`. It is the shared one as long as no thread is inside, and what a thread inside
  -- has before it comes to what its call comes to at `s₁`.
  abbrev pub IsSerial : Sessions D P → Scene D P → Type 0
  IsSerial s c =
      (history : List (Call J × ℤ)) × (s₁ : Sessions D P) × Perm history (answered c.threads)
      × Replay D P history s s₁
      × Idle D L P M s₁
      × (inside c.threads ≡ 0 → c.shared ≡ s₁)
      × AllFit s₁ c.shared c.threads

  Replay-append :
      (history : List (Call J × ℤ)) (s s₁ s₂ : Sessions D P) (op : Call J) (answer : ℤ)
      → Replay D P history s s₁
      → perform D P op s₁ ≡ ret (answer, s₂)
      → Replay D P (history ++ ((op, answer) ∷ [])) s s₂
  unfolding Replay
  Replay-append [] s s₁ s₂ op answer same done = (s₂, rw same done, refl)
  Replay-append ((o, a) ∷ history) s s₁ s₂ op answer (s', did, rest) done =
      (s', did, Replay-append history s' s₁ s₂ op answer rest done)

  perm-snoc :
      {A : Type 0} (x : A) (xs ys zs : List A)
      → Perm xs ys
      → Perm zs (x ∷ ys)
      → Perm (xs ++ (x ∷ [])) zs
  perm-snoc x xs ys zs p q =
      Perm.trans (perm_middle xs []) (Perm.trans (Perm.cons x (rw (append-nil xs) p)) (Perm.symm q))

  -- A thread takes the mutex.
  enters_Serial :
      (s : Sessions D P) {c c' : Scene D P} (op : Call J) (k : Code J)
      → (c'.shared ≡ record c.shared { mutex = M.held })
      → Turns (op, locks k) (op, k) c.threads c'.threads
      → Idle D L P M c.shared
      → inside c.threads ≡ 0
      → IsSerial s c
      → IsExclusive c' × IsSerial s c'
  enters_Serial s {c = c} {c' = c'} op k same t idle empty (h, s₁, p, r, idle₁, agrees, fits) =
      let (critical, begins) = picked s₁ c.shared t fits in
      let one : weight k ≡ 1 = IsCritical-weight k critical in
      let continues : run D P k c'.shared ≡ perform D P op s₁ =
        rw same (rw (← agrees empty) (rw (lock-Idle D L P M c.shared idle) at (begins c.shared))) in
      (
        inr (ap (λ x. x.mutex) same, omega (arith, inside-Turns t)),
        (
          h,
          s₁,
          rw (answered-goes (λ xs. sym (silent_critical op k critical xs)) t) p,
          r,
          idle₁,
          λ none_inside. absurd (omega (arith, inside-Turns t)),
          AllFit-Turns s₁ c.shared s₁ c'.shared t (omega arith) fits
              (Continues-Fits s₁ c'.shared op k (critical, continues)),
        ),
      )

  -- The thread inside takes a step: it stays inside, or it comes to its answer.
  inside_Serial :
      (s : Sessions D P) {c c' : Scene D P} (op : Call J) (k k' : Code J)
      → exec D P k c.shared ≡ ret (k', c'.shared)
      → Turns (op, k) (op, k') c.threads c'.threads
      → IsHeld c.shared
      → inside c.threads ≡ 1
      → ((s₁ : Sessions D P) → AllFit s₁ c.shared c.threads → Continues s₁ c.shared op k)
      → IsSerial s c
      → IsExclusive c' × IsSerial s c'
  inside_Serial s {c = c} {c' = c'} op k k' did t held one inner
        (h, s₁, p, r, idle₁, agrees, fits) =
      let (critical, continues) = inner s₁ fits in
      let weighs : weight k ≡ 1 = IsCritical-weight k critical in
      let (lands, runs) = critical_step k k' c.shared c'.shared critical held did in
      elim lands [
        | inl (critical', held') ↦
            let weighs' : weight k' ≡ 1 = IsCritical-weight k' critical' in
            (
              inr (held', omega (arith, inside-Turns t)),
              (
                h,
                s₁,
                rw
                    (answered-goes
                      (λ xs.
                        silent_critical op k critical xs ∙ sym (silent_critical op k' critical' xs))
                      t)
                    p,
                r,
                idle₁,
                λ none_inside. absurd (omega (arith, inside-Turns t)),
                AllFit-Turns s₁ c.shared s₁ c'.shared t (omega arith) fits
                    (Continues-Fits s₁ c'.shared op k' (critical', sym runs ∙ continues)),
              ),
            )
        | inr (a, ends, idle') ↦
            let t' : Turns (op, k) (op, answers a) c.threads c'.threads =
              subst (λ x. Turns (op, k) (op, x) c.threads c'.threads) ends t in
            let done : perform D P op s₁ ≡ ret (a, c'.shared) =
              sym continues ∙ runs ∙ ap (λ x. run D P x c'.shared) ends in
            let out : inside c'.threads ≡ 0 = omega (arith, inside-Turns t') in
            (
              inl (idle', out),
              (
                h ++ ((op, a) ∷ []),
                c'.shared,
                perm-snoc (op, a) h _ _ p (answered-ends a (silent_critical op k critical) t'),
                Replay-append h s s₁ c'.shared op a r done,
                idle',
                λ none_inside. refl,
                AllFit-Turns s₁ c.shared c'.shared c'.shared t' (omega arith) fits tt,
              ),
            )
      ]

  -- A step of a thread that is between its lock and its unlock.
  between_Serial :
      (s : Sessions D P) {c c' : Scene D P} (op : Call J) (k k' : Code J)
      → weight k ≡ 1
      → exec D P k c.shared ≡ ret (k', c'.shared)
      → Turns (op, k) (op, k') c.threads c'.threads
      → IsExclusive c
      → IsSerial s c
      → IsExclusive c' × IsSerial s c'
  between_Serial s op k k' weighs did t (inl (idle, empty)) serial =
      absurd (omega (arith, weight-Turns t))
  between_Serial s {c = c} {c' = c'} op k k' weighs did t (inr (held, one)) serial =
      inside_Serial s {c = c} {c' = c'} op k k' did t held one
        (λ s₁ fits. Fits-Continues s₁ c.shared op k weighs (picked s₁ c.shared t fits)) serial

  Step-Serial :
      (s : Sessions D P) {c c' : Scene D P}
      → Step D P c c'
      → IsExclusive c
      → IsSerial s c
      → IsExclusive c' × IsSerial s c'
  unfolding exec
  Step-Serial s (goes op (answers a) k' did t) exclusive serial = absurd (cc did)
  Step-Serial s {c = c} (goes op (locks k) k' {s = s'} {ts = ts} did t) (inl (idle, empty)) serial =
      let same : (k', s') ≡ (k, record c.shared { mutex = M.held }) =
        ret-injective (rw (lock-Idle D L P M c.shared idle) at did) in
      enters_Serial s {c = c} {c' = record { shared = s'; threads = ts }} op k (ap (λ x. x.1) same)
        (subst (λ x. Turns (op, locks k) (op, x) c.threads ts) (ap (λ x. x.0) same) t) idle empty
        serial
  Step-Serial s {c = c} (goes op (locks k) k' did t) (inr (held, one)) serial =
      absurd (cc (rw (lock_waits c.shared held) at did))
  Step-Serial s (goes op (unlocks k) k' did t) exclusive serial =
      between_Serial s op (unlocks k) k' refl did t exclusive serial
  Step-Serial s (goes op (inserts req seen k) k' did t) exclusive serial =
      between_Serial s op (inserts req seen k) k' refl did t exclusive serial
  Step-Serial s (goes op (asserts b k) k' did t) exclusive serial =
      between_Serial s op (asserts b k) k' refl did t exclusive serial
  Step-Serial s (goes op (looks_up req k) k' did t) exclusive serial =
      between_Serial s op (looks_up req k) k' refl did t exclusive serial
  Step-Serial s (goes op (deletes tempnode k) k' did t) exclusive serial =
      between_Serial s op (deletes tempnode k) k' refl did t exclusive serial

  -- Every call has its lock first, and its unlock before its answer.
  start-AllFit : (s₁ s : Sessions D P) (ops : List (Call J)) → AllFit s₁ s (map at_start ops)
  unfolding perform add remove contains
  start-AllFit s₁ s [] = tt
  start-AllFit s₁ s (adding req ∷ ops) = ((λ r. (pos 0, refl), λ r. refl), start-AllFit s₁ s ops)
  start-AllFit s₁ s (removing req ∷ ops) = ((λ n. (pos 0, refl), λ r. refl), start-AllFit s₁ s ops)
  start-AllFit s₁ s (asking req ∷ ops) = ((λ n. (_, refl), λ r. refl), start-AllFit s₁ s ops)

  -- However the single steps of threads interleave that call `add`, `remove` and `contains` on
  -- one table, each of them once, the mutex is free and no thread is between its lock and its
  -- unlock, or it is held and exactly one is. The finished calls, made without interruption one
  -- after the other in some order from the same start, return the same answers and lead to a
  -- table: the shared one if no thread is inside, and otherwise the one at which the call of the
  -- thread inside comes to what the steps left to that thread come to. The mutex is free at the
  -- start. The dictionary and the mutex behave as documented.
  pub Reach-Serial :
      (s : Sessions D P) (ops : List (Call J)) {c : Scene D P}
      → Idle D L P M s
      → Reach D P s ops c
      → IsExclusive c × IsSerial s c
  unfolding Replay
  Reach-Serial s ops idle start = (
    inl (idle, inside-start ops),
    (
      [],
      s,
      rw (answered-start ops) Perm.rfl,
      refl,
      idle,
      λ none_inside. refl,
      start-AllFit s s ops,
    ),
  )
  Reach-Serial s ops idle (later run step) =
      let (exclusive, serial) = Reach-Serial s ops idle run in Step-Serial s step exclusive serial
