-- ===== src/Session/Checks.antt =====
-- test/dict.c: two keys in a dictionary. What is printed is left out.
use libm2handler.Base.{
  ℕ, ◌≡◌, refl, [], ◌∷◌, Bool, true, false, not, ◌∙◌, Option, none, some, ℤ, pos, negsuc, eqb_ℤ,
  ltb_ℤ, if◌then◌else◌, ◌==◌, length, Bytes, bytes_of, Outcome, ret, ◌>>=◌, ◌>>◌, check,
}
use libm2handler.Session.Interfaces.{Dict, IsDict}

unfoldable compare_request : ℤ → ℤ → ℤ
compare_request key1 key2 =
    if ltb_ℤ key2 key1 then pos 1 else if ltb_ℤ key1 key2 then negsuc 0 else pos 0

-- `val1->string` and `val2->string`; the pointer may be NULL.
abbrev Value : Type 0
Value = Option Bytes

abbrev is_null {ℓ} : {A : Type ℓ} → Option A → Bool
is_null none = true
is_null (some a) = false

abbrev first_value : Value
first_value = some (bytes_of "unsafe memory!")

abbrev second_value : Value
second_value = some (bytes_of "unsafe memor!")

-- `dict_count`, `dict_free_nodes` and `dict_destroy` are arguments.
module _ (D : Dict ℤ Value compare_request) (count : D.T → ℕ) (free_nodes : D.T → D.T)
    (destroy : D.T → Outcome (Unit {0})) where
  -- The assertions on the first node that is looked up.
  unfoldable check_node : Option (ℤ × Value) → Outcome (Unit {0})
  check_node none = check (not true)
  check_node (some (key, value)) = do check (eqb_ℤ key (pos 10)); check (not (is_null value))

  -- `main`
  unfoldable dict_main : Outcome ℤ
  dict_main = do
    (r₁, d₁) ← D.alloc_insert D.create (pos 10) first_value
    check (eqb_ℤ r₁ (pos 1))
    check (count d₁ == 1)
    check_node (D.lookup d₁ (pos 10))
    (r₂, d₂) ← D.alloc_insert d₁ (pos 5) second_value
    check (eqb_ℤ r₂ (pos 1))
    check (count d₂ == 2)
    check (not (is_null (D.lookup d₂ (pos 5))))
    destroy (free_nodes d₂)
    ret (pos 0)

  -- The test succeeds with a dictionary that behaves as documented.
  dict_main_lem :
      IsDict compare_request D
      → ((t : D.T) → count t ≡ length (D.entries t))
      → ((t : D.T) → D.entries (free_nodes t) ≡ [])
      → ((t : D.T) → D.entries t ≡ [] → destroy t ≡ ret tt)
      → dict_main ≡ ret (pos 0)
  unfolding dict_main check_node compare_request
  dict_main_lem L counts frees destroys =
      let (d₁, inserted₁, first) =
        L.insert_new D.create (pos 10) first_value (rw L.entries-create refl) in
      let only : D.entries d₁ ≡ (pos 10, first_value) ∷ [] = rw (first, L.entries-create) refl in
      let (d₂, inserted₂, second) = L.insert_new d₁ (pos 5) second_value (rw only refl) in
      let both : D.entries d₂ ≡ (pos 5, second_value) ∷ (pos 10, first_value) ∷ [] =
        rw (second, only) refl in
      let one_node : count d₁ ≡ 1 = counts d₁ ∙ rw only refl in
      let two_nodes : count d₂ ≡ 2 = counts d₂ ∙ rw both refl in
      let at_ten : D.lookup d₁ (pos 10) ≡ some (pos 10, first_value) =
        L.lookup_lem d₁ (pos 10) ∙ rw only refl in
      let at_five : D.lookup d₂ (pos 5) ≡ some (pos 5, second_value) =
        L.lookup_lem d₂ (pos 5) ∙ rw both refl in
      let destroyed : destroy (free_nodes d₂) ≡ ret tt = destroys (free_nodes d₂) (frees d₂) in
      rw (inserted₁, one_node, at_ten, inserted₂, two_nodes, at_five, destroyed) refl
