-- ===== src/Session/Interfaces.antt =====
-- What the session table calls and does not own: Kazlib's dictionary (adt/) and the POSIX mutex.
use libm2handler.Base.{
  ◌≡◌, ◌≢◌, [], ◌∷◌, List, Option, none, some, ℤ, pos, eqb_ℤ, ltb_ℤ, if◌then◌else◌, Outcome, ret,
  aborts, faults, blocks,
}

module _ {K V : Type 0} (compare : K → K → ℤ) where
  -- The node that compares equal to a key, in a list of keys and values.
  abbrev pub find : K → List (K × V) → Option (K × V)
  find k [] = none
  find k ((j, v) ∷ m) = if eqb_ℤ (compare k j) (pos 0) then some (j, v) else find k m

  -- A new node goes behind the smaller keys.
  abbrev pub place : K → V → List (K × V) → List (K × V)
  place k v [] = (k, v) ∷ []
  place k v ((j, w) ∷ m) =
      if ltb_ℤ (compare k j) (pos 0) then (k, v) ∷ (j, w) ∷ m else (j, w) ∷ place k v m

  abbrev pub without : K → List (K × V) → List (K × V)
  without k [] = []
  without k ((j, w) ∷ m) =
      let rest = without k m in if eqb_ℤ (compare k j) (pos 0) then rest else (j, w) ∷ rest

-- The data of a node is overwritten.
module _ {K V : Type 0} (compare : K → K → ℤ) where
  abbrev pub with_data : K → V → List (K × V) → List (K × V)
  with_data k v [] = []
  with_data k v ((j, w) ∷ m) =
      let rest = with_data k v m in
      if eqb_ℤ (compare k j) (pos 0) then (j, v) ∷ rest else (j, w) ∷ rest

-- A dictionary made by `dict_create` with `compare`. A node is given by its key; `none` is NULL.
pub record Dict (K V : Type 0) (compare : K → K → ℤ) : Type 1 where
  pub T : Type 0
  pub create : T
  pub lookup : T → K → Option (K × V)
  pub alloc_insert : T → K → V → Outcome (ℤ × T)
  pub delete_free : T → Option (K × V) → Outcome T
  -- The caller's write to the data of a node.
  pub set_data : T → K → V → T
  -- The nodes from `dict_first` by `dict_next`.
  pub entries : T → List (K × V)

-- What Kazlib documents, with `duplicates` not allowed and memory at hand.
pub record IsDict {K V : Type 0} (compare : K → K → ℤ) (D : Dict K V compare) : Type 0 where
  pub entries-create : D.entries D.create ≡ []
  pub lookup_lem : (t : D.T) (k : K) → D.lookup t k ≡ find compare k (D.entries t)
  pub insert_new :
      (t : D.T) (k : K) (v : V)
      → find compare k (D.entries t) ≡ none
      → (t' : D.T) × (D.alloc_insert t k v ≡ ret (pos 1, t'))
        × (D.entries t' ≡ place compare k v (D.entries t))
  -- An assertion traps a second key.
  pub insert_again :
      (t : D.T) (k : K) (v : V)
      → find compare k (D.entries t) ≢ none
      → D.alloc_insert t k v ≡ aborts
  pub delete_found :
      (t : D.T) (k : K) (n : K × V)
      → find compare k (D.entries t) ≡ some n
      → (t' : D.T) × (D.delete_free t (some n) ≡ ret t')
        × (D.entries t' ≡ without compare k (D.entries t))
  -- A node that is no longer in the dictionary has been freed.
  pub delete_stale :
      (t : D.T) (n : K × V)
      → find compare n.0 (D.entries t) ≡ none
      → D.delete_free t (some n) ≡ faults
  pub set_data_lem :
      (t : D.T) (k : K) (v : V) → D.entries (D.set_data t k v) ≡ with_data compare k v (D.entries t)
  pub delete_null : (t : D.T) → D.delete_free t none ≡ faults

-- `pthread_mutex_t` with its calls: the return value and the mutex afterwards.
pub record Pthread : Type 1 where
  pub Mutex : Type 0
  pub init : Mutex
  pub lock : Mutex → Outcome (ℤ × Mutex)
  pub unlock : Mutex → Outcome (ℤ × Mutex)

-- A normal mutex: locking it again from the thread that holds it does not return.
pub record IsMutex (P : Pthread) : Type 0 where
  pub held : P.Mutex
  pub lock-init : P.lock P.init ≡ ret (pos 0, held)
  pub lock-held : P.lock held ≡ blocks
  pub unlock-held : P.unlock held ≡ ret (pos 0, P.init)
