-- ===== src/Session/Threads.antt =====
-- Threads that call the operations of src/websocket_session.c on one table, in any interleaving. A
-- thread makes one call, and takes the steps of its code one at a time. It waits as long as `lock`
-- does not return.
pub mod Critical
pub mod Progress
pub mod Serial
use libm2handler.Base.{◌≡◌, [], ◌∷◌, List, map, ℤ, Outcome, ret}
use libm2handler.Handler.Request.{Request}
use libm2handler.Session.Interfaces.{Pthread}
use libm2handler.Session.{
  Code, add_code, remove_code, contains_code, Table, Sessions, exec, add, remove, contains,
}

pub data Call (J : Type 0) : Type 0 where
  adding removing asking : Request J → Call J

-- A thread has a call to make and the steps that it has before it.
abbrev pub Thread : Type 0 → Type 0
Thread J = Call J × Code J

abbrev pub code_of : {J : Type 0} → Call J → Code J
code_of (adding req) = add_code req
code_of (removing req) = remove_code req
code_of (asking req) = contains_code req

abbrev pub at_start : {J : Type 0} → Call J → Thread J
at_start op = (op, code_of op)

-- One thread of a list goes on.
pub data Turns {J : Type 0} (p q : Thread J) : List (Thread J) → List (Thread J) → Type 0 where
  here : {ps : List (Thread J)} → Turns p q (p ∷ ps) (q ∷ ps)
  there : {x : Thread J} {ps qs : List (Thread J)} → Turns p q ps qs → Turns p q (x ∷ ps) (x ∷ qs)

module _ {J : Type 0} (D : Table J) (P : Pthread) where
  unfoldable pub perform : Call J → Sessions D P → Outcome (ℤ × Sessions D P)
  unfolding add remove contains
  perform (adding req) s = add D P s req
  perform (removing req) s = remove D P s req
  perform (asking req) s = contains D P s req

  pub record Scene : Type 0 where
    pub shared : Sessions D P
    pub threads : List (Thread J)

  pub data Step (c : Scene) : Scene → Type 0 where
    goes :
        (op : Call J) (k k' : Code J) {s : Sessions D P} {ts : List (Thread J)}
        → exec D P k c.shared ≡ ret (k', s)
        → Turns (op, k) (op, k') c.threads ts
        → Step c (record { shared = s; threads = ts })

  -- What comes of threads that all have their calls before them.
  pub data Reach (s : Sessions D P) (ops : List (Call J)) : Scene → Type 0 where
    start : Reach s ops (record { shared = s; threads = map at_start ops })
    later : {c c' : Scene} → Reach s ops c → Step c c' → Reach s ops c'

  -- Calls that one thread makes one after the other, with their answers.
  unfoldable pub Replay : List (Call J × ℤ) → Sessions D P → Sessions D P → Type 0
  Replay [] s s' = s ≡ s'
  Replay ((op, answer) ∷ history) s s' =
      (s₁ : Sessions D P) × (perform op s ≡ ret (answer, s₁)) × Replay history s₁ s'
