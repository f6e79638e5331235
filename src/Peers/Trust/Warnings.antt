-- ===== src/Peers/Trust/Warnings.antt =====
-- The warnings of memnode/peers.py's identity_conflicts().
--
-- A warning is what it is about, without its wording. `same` is Python's == on names that are not null.
use peer_memory.Prelude.{
  Bool, true, false, Option, none, some, List, [], ◌∷◌, ◌++◌, if◌then◌else◌, nat_eq, list_eq, ◌==◌,
}
use peer_memory.Prelude.Dict.{Dict, get}
use peer_memory.Prelude.Text.{Str}
use peer_memory.Wire.Message.{Value}
use peer_memory.Peers.Trust.{TrustStore, Entry}

-- The two warnings: another key has the name, or the key had another name.
pub data Conflict : Type 0 where
  pinned_elsewhere : Str → Conflict
  renamed_from : Value → Conflict

module _ (same : Value → Value → Bool) where
  -- Equality of two names, either of which may be null.
  unfoldable pub same_name : Option Value → Option Value → Bool
  same_name none none = true
  same_name none (some _) = false
  same_name (some _) none = false
  same_name (some a) (some b) = same a b

  unfoldable pub name_conflicts : Dict Str Entry → Str → Option Value → List Conflict
  name_conflicts [] key name = []
  name_conflicts ((k, entry) ∷ d) key name =
      let rest = name_conflicts d key name in
      if k == key
      then rest
      else if same_name entry.name name
      then pinned_elsewhere k ∷ rest
      else rest

  -- existing.get("name") not in (None, name)
  unfoldable pub renamed_name : Option Value → Option Value → List Conflict
  renamed_name none name = []
  renamed_name (some old) name = if same_name (some old) name then [] else renamed_from old ∷ []

  unfoldable pub renamed : Option Entry → Option Value → List Conflict
  renamed none name = []
  renamed (some entry) name = renamed_name entry.name name

  unfoldable pub identity_conflicts : TrustStore → Str → Option Value → List Conflict
  identity_conflicts st key name =
      name_conflicts st.peers key name ++ renamed (get st.peers key) name
