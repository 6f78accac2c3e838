-- ===== src/Session/Threads/Critical.antt =====
-- What a thread has before it between its lock and its unlock.
use libm2handler.Base.{ℕ, ◌+◌, ◌≤◌, ◌≡◌, refl, sym, ap, arith, [], ◌∷◌, List, map, ℤ}
use mathlib.Core.List.{Perm}
use mathlib.Core.List.Perm
use libm2handler.Session.{Code, answers, locks, unlocks, inserts, asserts, looks_up, deletes}
use libm2handler.Session.Threads.{
  Call, adding, removing, asking, Thread, at_start, Turns, here, there,
}

-- A thread is inside once it has locked, until it has unlocked.
abbrev pub weight : {J : Type 0} → Code J → ℕ
weight (answers a) = 0
weight (locks k) = 0
weight (unlocks k) = 1
weight (inserts req seen k) = 1
weight (asserts b k) = 1
weight (looks_up req k) = 1
weight (deletes tempnode k) = 1

abbrev pub inside : {J : Type 0} → List (Thread J) → ℕ
inside [] = 0
inside ((op, k) ∷ ts) = weight k + inside ts

-- The calls that are finished, with their answers.
abbrev pub answer_of : {J : Type 0} → Call J → Code J → List (Call J × ℤ) → List (Call J × ℤ)
answer_of op (answers a) rest = (op, a) ∷ rest
answer_of op (locks k) rest = rest
answer_of op (unlocks k) rest = rest
answer_of op (inserts req seen k) rest = rest
answer_of op (asserts b k) rest = rest
answer_of op (looks_up req k) rest = rest
answer_of op (deletes tempnode k) rest = rest

abbrev pub answered : {J : Type 0} → List (Thread J) → List (Call J × ℤ)
answered [] = []
answered ((op, k) ∷ ts) = answer_of op k (answered ts)

abbrev pub IsAnswer : {J : Type 0} → Code J → Type 0
IsAnswer {J} k = (a : ℤ) × (k ≡ answers a)

-- The code works on the table, unlocks it once and then answers.
abbrev pub IsCritical : {J : Type 0} → Code J → Type 0
IsCritical (answers a) = ⊥
IsCritical (locks k) = ⊥
IsCritical (unlocks k) = IsAnswer k
IsCritical (inserts req seen k) = (r : ℤ) → IsCritical (k r)
IsCritical (asserts b k) = IsCritical k
IsCritical {J} (looks_up req k) = (n : _) → IsCritical (k n)
IsCritical (deletes tempnode k) = IsCritical k

module _ {J : Type 0} where
  pub IsCritical-weight : (k : Code J) → IsCritical k → weight k ≡ 1
  IsCritical-weight (unlocks k) c = refl
  IsCritical-weight (inserts req seen k) c = refl
  IsCritical-weight (asserts b k) c = refl
  IsCritical-weight (looks_up req k) c = refl
  IsCritical-weight (deletes tempnode k) c = refl
  IsCritical-weight (answers a) c = absurd c
  IsCritical-weight (locks k) c = absurd c

  pub inside-Turns :
      {op : Call J} {k k' : Code J} {ts us : List (Thread J)}
      → Turns (op, k) (op, k') ts us
      → inside us + weight k ≡ inside ts + weight k'
  inside-Turns here = omega arith
  inside-Turns (there t) = omega (arith, inside-Turns t)

  pub weight-Turns :
      {op : Call J} {k k' : Code J} {ts us : List (Thread J)}
      → Turns (op, k) (op, k') ts us
      → weight k ≤ inside ts
  weight-Turns here = omega arith
  weight-Turns (there t) = omega (arith, weight-Turns t)

  pub inside-start : (ops : List (Call J)) → inside (map at_start ops) ≡ 0
  inside-start [] = refl
  inside-start (adding req ∷ ops) = omega (arith, inside-start ops)
  inside-start (removing req ∷ ops) = omega (arith, inside-start ops)
  inside-start (asking req ∷ ops) = omega (arith, inside-start ops)

  pub answered-start : (ops : List (Call J)) → answered (map at_start ops) ≡ []
  answered-start [] = refl
  answered-start (adding req ∷ ops) = answered-start ops
  answered-start (removing req ∷ ops) = answered-start ops
  answered-start (asking req ∷ ops) = answered-start ops

  answer_of-congruent :
      (op : Call J) (k : Code J) (xs ys : List (Call J × ℤ))
      → Perm xs ys
      → Perm (answer_of op k xs) (answer_of op k ys)
  answer_of-congruent op (answers a) xs ys p = Perm.cons (op, a) p
  answer_of-congruent op (locks k) xs ys p = p
  answer_of-congruent op (unlocks k) xs ys p = p
  answer_of-congruent op (inserts req seen k) xs ys p = p
  answer_of-congruent op (asserts b k) xs ys p = p
  answer_of-congruent op (looks_up req k) xs ys p = p
  answer_of-congruent op (deletes tempnode k) xs ys p = p

  answer_of-swap :
      (op o : Call J) (a : ℤ) (k : Code J) (xs : List (Call J × ℤ))
      → Perm (answer_of o k ((op, a) ∷ xs)) ((op, a) ∷ answer_of o k xs)
  answer_of-swap op o a (answers b) xs = Perm.swap (op, a) (o, b) xs
  answer_of-swap op o a (locks k) xs = Perm.rfl
  answer_of-swap op o a (unlocks k) xs = Perm.rfl
  answer_of-swap op o a (inserts req seen k) xs = Perm.rfl
  answer_of-swap op o a (asserts b k) xs = Perm.rfl
  answer_of-swap op o a (looks_up req k) xs = Perm.rfl
  answer_of-swap op o a (deletes tempnode k) xs = Perm.rfl

  -- A thread that goes on without an answer, and one that comes to its answer.
  pub answered-goes :
      {op : Call J} {k k' : Code J} {ts us : List (Thread J)}
      → ((xs : List (Call J × ℤ)) → answer_of op k xs ≡ answer_of op k' xs)
      → Turns (op, k) (op, k') ts us
      → answered us ≡ answered ts
  answered-goes same here = sym (same _)
  answered-goes same (there {x = (o, k₁)} t) = ap (answer_of o k₁) (answered-goes same t)

  pub answered-ends :
      {op : Call J} {k : Code J} (a : ℤ) {ts us : List (Thread J)}
      → ((xs : List (Call J × ℤ)) → answer_of op k xs ≡ xs)
      → Turns (op, k) (op, answers a) ts us
      → Perm (answered us) ((op, a) ∷ answered ts)
  answered-ends {op = op} a silent here = rw silent Perm.rfl
  answered-ends {op = op} a silent (there {x = (o, k₁)} t) =
      Perm.trans (answer_of-congruent o k₁ _ _ (answered-ends a silent t))
        (answer_of-swap op o a k₁ _)

  pub silent_critical :
      (op : Call J) (k : Code J) → IsCritical k → (xs : List (Call J × ℤ)) → answer_of op k xs ≡ xs
  silent_critical op (unlocks k) c xs = refl
  silent_critical op (inserts req seen k) c xs = refl
  silent_critical op (asserts b k) c xs = refl
  silent_critical op (looks_up req k) c xs = refl
  silent_critical op (deletes tempnode k) c xs = refl
  silent_critical op (answers a) c xs = absurd c
  silent_critical op (locks k) c xs = absurd c
