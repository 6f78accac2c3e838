-- ===== src/Examples/Table.antt =====
-- A concrete session table and mutex.
use libm2handler.Base.{
  ℕ, ◌≡◌, ◌≢◌, refl, [], ◌∷◌, List, Bool, true, false, Option, none, some, ℤ, pos, Outcome, ret,
  aborts, faults, blocks,
}
use libm2handler.Handler.Request.{Request}
use libm2handler.Session.Interfaces.{IsDict, Pthread, IsMutex, find, place, without, with_data}
use libm2handler.Session.{SessionData, compare_session_id, Table}
use libm2handler.Session.Entries.{compare_session_id_lem, find-conn_id, find_cong}

abbrev Entries : Type 0
Entries = List (Request ℕ × SessionData)

abbrev insert_if : Option (Request ℕ × SessionData) → Entries → Outcome (ℤ × Entries)
insert_if none placed = ret (pos 1, placed)
insert_if (some n) placed = aborts

abbrev delete_if : Option (Request ℕ × SessionData) → Entries → Outcome Entries
delete_if none cut = faults
delete_if (some n) cut = ret cut

abbrev delete : Entries → Option (Request ℕ × SessionData) → Outcome Entries
delete t none = faults
delete t (some n) = delete_if (find compare_session_id n.0 t) (without compare_session_id n.0 t)

abbrev pub table : Table ℕ
table = record {
  T = Entries;
  create = [];
  lookup = λ t k. find compare_session_id k t;
  alloc_insert = λ t k v. insert_if (find compare_session_id k t) (place compare_session_id k v t);
  delete_free = delete;
  set_data = λ t k v. with_data compare_session_id k v t;
  entries = λ t. t;
}

without_cong :
    (a b : Request ℕ) (t : Entries)
    → a.conn_id ≡ b.conn_id
    → without compare_session_id a t ≡ without compare_session_id b t
without_cong a b [] h = refl
without_cong a b ((j, w) ∷ t) h =
    rw (compare_session_id_lem a j, compare_session_id_lem b j, h, without_cong a b t h)

find-node :
    (k : Request ℕ) (n : Request ℕ × SessionData) (t : Entries)
    → find compare_session_id k t ≡ some n
    → find compare_session_id n.0 t ≡ find compare_session_id k t
find-node k n t h = find_cong n.0 k t (find-conn_id k n t h)

insert_found :
    (o : Option (Request ℕ × SessionData)) (placed : Entries)
    → o ≢ none
    → insert_if o placed ≡ aborts
insert_found none placed h = absurd (h refl)
insert_found (some n) placed h = refl

pub table-IsDict : IsDict compare_session_id table
table-IsDict = record {
  entries-create = refl;
  lookup_lem = λ t k. refl;
  insert_new = λ t k v fresh. (place compare_session_id k v t, rw fresh, refl);
  insert_again = λ t k v there.
      insert_found (find compare_session_id k t) (place compare_session_id k v t) there;
  delete_found = λ t k n is_n. (
    without compare_session_id n.0 t,
    rw (find-node k n t is_n, is_n),
    without_cong n.0 k t (find-conn_id k n t is_n),
  );
  delete_stale = λ t n stale. rw stale;
  set_data_lem = λ t k v. refl;
  delete_null = λ t. refl;
}

-- A mutex is whether it is held.
abbrev lock_flag : Bool → Outcome (ℤ × Bool)
lock_flag true = blocks
lock_flag false = ret (pos 0, true)

abbrev pub flag_mutex : Pthread
flag_mutex = record {
  Mutex = Bool;
  init = false;
  lock = lock_flag;
  unlock = λ m. ret (pos 0, false);
}

pub flag_mutex-IsMutex : IsMutex flag_mutex
flag_mutex-IsMutex = record { held = true; lock-init = refl; lock-held = refl; unlock-held = refl }
