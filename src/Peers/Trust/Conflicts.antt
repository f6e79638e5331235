-- ===== src/Peers/Trust/Conflicts.antt =====
-- When memnode/peers.py's trust store has no warning for a name.
use peer_memory.Prelude.{
  ◌≡◌, refl, sym, ap, ◌∙◌, ◌⊎◌, inl, inr, Bool, true, false, Option, none, some, List, [], ◌∷◌,
  ◌++◌, nat_eq, list_eq, ◌==◌, ==_iff, ==_refl, arith, Bool-cases,
}
use peer_memory.Prelude.Dict.{Dict, get, Distinct}
use peer_memory.Prelude.Text.{Str}
use peer_memory.Prelude.{◌↔◌}
use peer_memory.Wire.Message.{Value}
use peer_memory.Peers.Trust.{TrustStore, Entry}
use peer_memory.Peers.Trust.Warnings.{
  Conflict, same_name, name_conflicts, renamed, renamed_name, identity_conflicts,
}

module _ (same : Value → Value → Bool) where
  -- No other record has the name.
  abbrev pub Unshared : Dict Str Entry → Str → Option Value → Type 0
  Unshared d key name =
      (k : Str) (entry : Entry)
      → get d k ≡ some entry
      → (k == key) ≡ false
      → same_name same entry.name name ≡ false

  name_conflicts-empty :
      (d : Dict Str Entry) (key : Str) (name : Option Value)
      → Distinct d
      → Unshared d key name
      → name_conflicts same d key name ≡ []
  unfolding name_conflicts get
  name_conflicts-empty [] key name u h = refl
  name_conflicts-empty ((k, entry) ∷ d) key name u h =
      let rest : name_conflicts same d key name ≡ [] =
        name_conflicts-empty d key name u.1
          (λ j e found ne. h j e (ground (arith, found, u.0, ==_iff k j)) ne) in
      elim (Bool-cases (k == key)) [
        | inl here ↦ rw here rest
        | inr there ↦ rw (there, h k entry (rw ==_refl refl) there) rest
      ]

  name_conflicts-Unshared :
      (d : Dict Str Entry) (key : Str) (name : Option Value)
      → name_conflicts same d key name ≡ []
      → Unshared d key name
  unfolding name_conflicts get
  name_conflicts-Unshared [] key name none_found k entry found ne =
      absurd (let f : ⊥ = ground (arith, found) in f)
  name_conflicts-Unshared ((j, e) ∷ d) key name h k entry found ne =
      let tail : name_conflicts same d key name ≡ [] = ground (arith, h) in
      elim (Bool-cases (j == k)) [
        | inl here ↦
            let q : e ≡ entry = ground (arith, found, here) in
            let f : (j == key) ≡ false = ap (λ i. i == key) ((==_iff j k).0 here) ∙ ne in
            let r : same_name same e.name name ≡ false = ground (arith, h, f) in
            ap (λ (x : Entry). same_name same x.name name) (sym q) ∙ r
        | inr there ↦
            name_conflicts-Unshared d key name tail k entry (ground (arith, found, there)) ne
      ]

  -- The key had the name, no name, or no record.
  abbrev pub Unchanged : Option Entry → Option Value → Type 0
  Unchanged none name = Unit
  Unchanged (some entry) name = (entry.name ≡ none) ⊎ (same_name same entry.name name ≡ true)

  renamed_name-empty :
      (old name : Option Value)
      → (renamed_name same old name ≡ []) ↔ ((old ≡ none) ⊎ (same_name same old name ≡ true))
  unfolding renamed_name
  renamed_name-empty none name = (λ _. inl refl, λ _. refl)
  renamed_name-empty (some old) name = elim (Bool-cases (same_name same (some old) name)) [
    | inl same ↦ rw same (λ _. inr refl, λ _. refl)
    | inr differs ↦ rw differs (
      λ h. absurd (let f : ⊥ = ground (arith, h) in f),
      λ h. absurd (let f : ⊥ = ground (arith, h) in f),
    )
  ]

  renamed-Unchanged :
      (old : Option Entry) (name : Option Value) → (renamed same old name ≡ []) ↔ Unchanged old name
  unfolding renamed
  renamed-Unchanged none name = (λ _. tt, λ _. refl)
  renamed-Unchanged (some entry) name = renamed_name-empty entry.name name

  append_empty : (xs ys : List Conflict) → xs ++ ys ≡ [] → (xs ≡ []) × (ys ≡ [])
  append_empty [] ys h = (refl, h)
  append_empty (x ∷ xs) ys h = absurd (let f : ⊥ = ground (arith, h) in f)

  -- No warning is given exactly when no record of another key has the name, and the record of this key, if there is one,
  -- has this name or none, if no key has two records.
  pub identity_conflicts_iff :
      (st : TrustStore) (key : Str) (name : Option Value)
      → Distinct st.peers
      → (identity_conflicts same st key name ≡ [])
        ↔ (Unshared st.peers key name × Unchanged (get st.peers key) name)
  unfolding identity_conflicts
  identity_conflicts_iff st key name u = (
    λ h.
        let (a, b) =
          append_empty (name_conflicts same st.peers key name)
            (renamed same (get st.peers key) name) h in
        (
          name_conflicts-Unshared st.peers key name a,
          (renamed-Unchanged (get st.peers key) name).0 b,
        ),
    λ (a, b).
        rw (name_conflicts-empty st.peers key name u a)
          ((renamed-Unchanged (get st.peers key) name).1 b),
  )
