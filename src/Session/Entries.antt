-- ===== src/Session/Entries.antt =====
-- Lookups in the list of a table's nodes.
use libm2handler.Base.{
  ◌≡◌, ◌≢◌, refl, [], ◌∷◌, List, Bool, true, false, not, ◌&&◌, ◌||◌, Option, none, some, ℤ, pos,
  eqb_ℤ, eqb_ℤ_iff, if◌then◌else◌, arith, Bool-cases, inl, inr,
}
use libm2handler.Handler.Request.{Request}
use libm2handler.Session.Interfaces.{find, place, without, with_data}
use libm2handler.Session.{SessionData, compare_session_id}

abbrev pub found {ℓ} : {A : Type ℓ} → Option A → Bool
found none = false
found (some a) = true

pub answer_found {ℓ} :
    {A : Type ℓ} (o : Option A)
    → ◌≡◌ {A = ℤ} (elim o [ none ↦ pos 0 | some a ↦ pos 1 ]) (if found o then pos 1 else pos 0)
answer_found none = refl
answer_found (some a) = refl

pub not_found {ℓ} : {A : Type ℓ} (o : Option A) → found o ≡ false → o ≡ none
not_found none h = refl
not_found (some a) h = cc

pub is_found {ℓ} : {A : Type ℓ} (o : Option A) → found o ≡ true → (a : A) × (o ≡ some a)
is_found none h = cc
is_found (some a) h = (a, refl)

pub found-ne-none {ℓ} : {A : Type ℓ} (o : Option A) → found o ≡ true → o ≢ none
found-ne-none none h e = cc
found-ne-none (some a) h e = cc

-- The comparison is 0 exactly for equal connection ids.
pub compare_session_id_lem :
    {J : Type 0} (q k : Request J)
    → eqb_ℤ (compare_session_id q k) (pos 0) ≡ eqb_ℤ q.conn_id k.conn_id
unfolding compare_session_id
compare_session_id_lem q k = ground arith

module _ {J : Type 0} where
  pub find-place :
      (q k : Request J) (v : SessionData) (m : List (Request J × SessionData))
      → found (find compare_session_id q (place compare_session_id k v m))
        ≡ (eqb_ℤ q.conn_id k.conn_id || found (find compare_session_id q m))
  find-place q k v [] = rw (compare_session_id_lem q k) (ground arith)
  find-place q k v ((j, w) ∷ m) =
      ground (arith, compare_session_id_lem q k, compare_session_id_lem q j, find-place q k v m)

  pub find-without :
      (q k : Request J) (m : List (Request J × SessionData))
      → found (find compare_session_id q (without compare_session_id k m))
        ≡ (not (eqb_ℤ q.conn_id k.conn_id) && found (find compare_session_id q m))
  find-without q k [] = ground arith
  find-without q k ((j, w) ∷ m) = ground (
    arith,
    compare_session_id_lem k j,
    compare_session_id_lem q j,
    eqb_ℤ_iff q.conn_id k.conn_id,
    eqb_ℤ_iff q.conn_id j.conn_id,
    eqb_ℤ_iff k.conn_id j.conn_id,
    find-without q k m,
  )

  -- Writing to a node's data changes no key.
  pub find-with_data :
      (q k : Request J) (v : SessionData) (m : List (Request J × SessionData))
      → found (find compare_session_id q (with_data compare_session_id k v m))
        ≡ found (find compare_session_id q m)
  find-with_data q k v [] = refl
  find-with_data q k v ((j, w) ∷ m) = ground (arith, find-with_data q k v m)

  -- The node that is found has the connection id that was looked for.
  pub find-conn_id :
      (k : Request J) (n : Request J × SessionData) (m : List (Request J × SessionData))
      → find compare_session_id k m ≡ some n
      → n.0.conn_id ≡ k.conn_id
  find-conn_id k n [] h = cc
  find-conn_id k n ((j, w) ∷ m) h =
      ground (arith, compare_session_id_lem k j, eqb_ℤ_iff k.conn_id j.conn_id, find-conn_id k n m)

  -- A lookup depends on the connection id alone.
  pub find_cong :
      (a b : Request J) (m : List (Request J × SessionData))
      → a.conn_id ≡ b.conn_id
      → find compare_session_id a m ≡ find compare_session_id b m
  find_cong a b [] h = refl
  find_cong a b ((j, w) ∷ m) h =
      rw (compare_session_id_lem a j, compare_session_id_lem b j, h, find_cong a b m h)

  -- The node of a key, after its data is written.
  pub find-with_data_self :
      (k : Request J) (n : Request J × SessionData) (v : SessionData)
      (m : List (Request J × SessionData))
      → find compare_session_id k m ≡ some n
      → find compare_session_id k (with_data compare_session_id k v m) ≡ some (n.0, v)
  find-with_data_self k n v [] h = cc
  find-with_data_self k n v ((j, w) ∷ m) h =
      elim (Bool-cases (eqb_ℤ (compare_session_id k j) (pos 0))) [
        | inl same ↦ let found_j : some (j, w) ≡ some n = rw same at h in rw (same, same) cc
        | inr other ↦
            let later : find compare_session_id k m ≡ some n = rw other at h in
            rw (other, other) (find-with_data_self k n v m later)
      ]

  -- The nodes themselves, and not only whether there is one.
  pub find-place_node :
      (q k : Request J) (v : SessionData) (m : List (Request J × SessionData))
      → find compare_session_id k m ≡ none
      → find compare_session_id q (place compare_session_id k v m)
        ≡ (if eqb_ℤ q.conn_id k.conn_id then some (k, v) else find compare_session_id q m)
  find-place_node q k v [] absent = rw (compare_session_id_lem q k) (ground arith)
  find-place_node q k v ((j, w) ∷ m) absent = ground (
    arith,
    compare_session_id_lem q k,
    compare_session_id_lem q j,
    compare_session_id_lem k j,
    eqb_ℤ_iff q.conn_id k.conn_id,
    eqb_ℤ_iff q.conn_id j.conn_id,
    eqb_ℤ_iff k.conn_id j.conn_id,
    find-place_node q k v m,
  )

  pub find-without_node :
      (q k : Request J) (m : List (Request J × SessionData))
      → find compare_session_id q (without compare_session_id k m)
        ≡ (if eqb_ℤ q.conn_id k.conn_id then none else find compare_session_id q m)
  find-without_node q k [] = ground arith
  find-without_node q k ((j, w) ∷ m) = ground (
    arith,
    compare_session_id_lem k j,
    compare_session_id_lem q j,
    eqb_ℤ_iff q.conn_id k.conn_id,
    eqb_ℤ_iff q.conn_id j.conn_id,
    eqb_ℤ_iff k.conn_id j.conn_id,
    find-without_node q k m,
  )

  -- The nodes of other keys, after a node's data is written.
  pub find-with_data_other :
      (q k : Request J) (v : SessionData) (m : List (Request J × SessionData))
      → eqb_ℤ q.conn_id k.conn_id ≡ false
      → find compare_session_id q (with_data compare_session_id k v m) ≡ find compare_session_id q m
  find-with_data_other q k v [] other = refl
  find-with_data_other q k v ((j, w) ∷ m) other = ground (
    arith,
    compare_session_id_lem k j,
    compare_session_id_lem q j,
    eqb_ℤ_iff q.conn_id k.conn_id,
    eqb_ℤ_iff q.conn_id j.conn_id,
    eqb_ℤ_iff k.conn_id j.conn_id,
    find-with_data_other q k v m other,
  )
