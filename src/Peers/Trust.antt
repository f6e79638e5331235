-- ===== src/Peers/Trust.antt =====
-- memnode/peers.py: class TrustStore.
--
-- The file is the JSON object in it. A field of a stored record is absent or has the type that this code writes. A name is any
-- value that a peer sends; one that is null reads as an absent one, and Python's == on the others is the argument `same`. The
-- calls take the time from the argument `now`; `disk` is whether the directory and the file could be written.
pub mod Warnings
pub mod Persistence
pub mod Sticky
pub mod Conflicts
use peer_memory.Prelude.{
  ℕ, ◌+◌, ◌-◌, Bool, true, false, ◌&&◌, ◌||◌, Option, none, some, List, [], ◌∷◌, ◌++◌,
  if◌then◌else◌, nat_eq, list_eq, ◌==◌, length,
}
use peer_memory.Prelude.Dict.{Dict, get, put, remove}
use peer_memory.Prelude.Text.{Str}
use peer_memory.Prelude.{drop}
use peer_memory.Wire.Message.{
  Value, nil_value, boolean, integer, double, binary, text, array, dictionary, Values, no_values,
  value_then, Fields, no_fields, field_then,
}

pub data Method : Type 0 where
  tofu sas qr manual : Method

-- One record of `_peers`.
pub record Entry : Type 0 where
  pub name : Option Value
  pub first_seen : Option ℕ
  pub last_seen : Option ℕ
  pub verified : Option Bool
  pub method : Option Method
  pub addresses : Option (List Str)

-- What is at the path: `v2` has none where a value is no object, `v1` where it is no text. In `broken` the version is the
-- present one and `peers` is no object.
pub data File : Type 0 where
  missing unreadable other broken : File
  v2 : Dict Str (Option Entry) → File
  v1 : Dict Str (Option Str) → File

pub record TrustStore : Type 0 where
  pub peers : Dict Str Entry
  pub file : File

-- {k: v for k, v in peers.items() if isinstance(v, dict)}
unfoldable pub kept : Dict Str (Option Entry) → Dict Str Entry
kept [] = []
kept ((k, none) ∷ d) = kept d
kept ((k, some entry) ∷ d) = (k, entry) ∷ kept d

unfoldable pub migrated : ℕ → Dict Str (Option Str) → Dict Str Entry
migrated now [] = []
migrated now ((k, none) ∷ d) = migrated now d
migrated now ((k, some name) ∷ d) =
    (
      k,
      record {
        name = some (text name);
        first_seen = some now;
        last_seen = some now;
        verified = some false;
        method = some tofu;
        addresses = some [];
      },
    )
    ∷ migrated now d

unfoldable pub stored : Dict Str Entry → Dict Str (Option Entry)
stored [] = []
stored ((k, entry) ∷ d) = (k, some entry) ∷ stored d

-- json.dumps takes a value if there are no bytes in it.
unfoldable mutual
  pub dumps : Value → Bool
  dumps (binary _) = false
  dumps nil_value = true
  dumps (boolean _) = true
  dumps (integer _) = true
  dumps (double _) = true
  dumps (text _) = true
  dumps (array vs) = dumps_values vs
  dumps (dictionary fields) = dumps_fields fields

  pub dumps_values : Values → Bool
  dumps_values no_values = true
  dumps_values (value_then v vs) = dumps v && dumps_values vs

  pub dumps_fields : Fields → Bool
  dumps_fields no_fields = true
  dumps_fields (field_then _ v rest) = dumps v && dumps_fields rest

unfoldable pub dumps_name : Option Value → Bool
dumps_name none = true
dumps_name (some v) = dumps v

unfoldable pub dumps_all : Dict Str Entry → Bool
dumps_all [] = true
dumps_all ((k, entry) ∷ d) = dumps_name entry.name && dumps_all d

-- How a method ended: with nothing to write, with the file written, or with what _save() raised.
pub data Outcome : Type 0 where
  untouched saved raised : Outcome

-- _save(): the file is replaced only when all of it was written.
unfoldable pub save : Bool → TrustStore → TrustStore × Outcome
save disk st =
    if disk && dumps_all st.peers
    then (record st { file = v2 (stored st.peers) }, saved)
    else (st, raised)

-- __init__ with _load(), which raises where `peers` is no object and where _save() does
unfoldable pub open_store : Bool → ℕ → File → TrustStore × Outcome
open_store disk now missing = (record { peers = []; file = missing }, untouched)
open_store disk now unreadable = (record { peers = []; file = unreadable }, untouched)
open_store disk now other = (record { peers = []; file = other }, untouched)
open_store disk now broken = (record { peers = []; file = broken }, raised)
open_store disk now (v2 d) = (record { peers = kept d; file = v2 d }, untouched)
open_store disk now (v1 d) = save disk (record { peers = migrated now d; file = v1 d })

-- bool(...) of a field that may be absent
unfoldable pub truthy : Option Bool → Bool
truthy none = false
truthy (some b) = b

unfoldable pub is_trusted : TrustStore → Str → Bool
is_trusted st key = elim (get st.peers key) [ none ↦ false | some _ ↦ true ]

unfoldable pub verified_entry : Option Entry → Bool
verified_entry none = false
verified_entry (some entry) = truthy entry.verified

unfoldable pub is_verified : TrustStore → Str → Bool
is_verified st key = verified_entry (get st.peers key)

-- `if entry`: an object without fields is false.
unfoldable pub has_field : Entry → Bool
has_field entry = elim entry.name as (λ _. Bool) [
  | some _ ↦ true
  | none ↦ elim entry.first_seen as (λ _. Bool) [
    | some _ ↦ true
    | none ↦ elim entry.last_seen as (λ _. Bool) [
      | some _ ↦ true
      | none ↦ elim entry.verified as (λ _. Bool) [
        | some _ ↦ true
        | none ↦ elim entry.method as (λ _. Bool) [
          | some _ ↦ true
          | none ↦ elim entry.addresses as (λ _. Bool) [ some _ ↦ true | none ↦ false ]
        ]
      ]
    ]
  ]
]

unfoldable pub nonempty_entry : Option Entry → Option Entry
nonempty_entry none = none
nonempty_entry (some entry) = if has_field entry then some entry else none

-- get(pubkey_hex)
unfoldable pub find : TrustStore → Str → Option Entry
find st key = nonempty_entry (get st.peers key)

unfoldable pub contains : List Str → Str → Bool
contains [] a = false
contains (b ∷ bs) a = b == a || contains bs a

-- addrs.append(addr); del addrs[:-8]
unfoldable pub observe : List Str → Str → List Str
observe addrs addr =
    if contains addrs addr then addrs else drop (length addrs + 1 - 8) (addrs ++ (addr ∷ []))

unfoldable pub addresses_of : Option (List Str) → List Str
addresses_of none = []
addresses_of (some addrs) = addrs

-- `if addr: ...`, for an address that is None, empty or text
unfoldable pub with_address : Entry → Option Str → Entry
with_address entry none = entry
with_address entry (some []) = entry
with_address entry (some (c ∷ cs)) = record entry {
  addresses = some (observe (addresses_of entry.addresses) (c ∷ cs));
}

unfoldable pub entry_or_new : ℕ → Option Value → Option Entry → Entry
entry_or_new now name (some entry) = entry
entry_or_new now name none = record {
  name = name;
  first_seen = some now;
  last_seen = none;
  verified = none;
  method = none;
  addresses = some [];
}

unfoldable pub method_after : Bool → Method → Option Method → Option Method
method_after true method old = some method
method_after false method none = some method
method_after false method (some m) = some m

unfoldable pub refreshed : ℕ → Option Value → Bool → Method → Entry → Entry
refreshed now name verified method entry = record entry {
  name = name;
  last_seen = some now;
  verified = some (truthy entry.verified || verified);
  method = method_after verified method entry.method;
}

unfoldable pub trust :
    Bool → ℕ → TrustStore → Str → Option Value → Bool → Method → Option Str → TrustStore × Outcome
trust disk now st key name verified method addr =
    let entry =
      with_address (refreshed now name verified method (entry_or_new now name (get st.peers key)))
        addr in
    save disk (record st { peers = put st.peers key entry })

-- mark_verified(), which returns False where it is `untouched`
unfoldable pub mark_verified : Bool → TrustStore → Str → Method → TrustStore × Outcome
mark_verified disk st key method = elim (get st.peers key) as (λ _. TrustStore × Outcome) [
  | none ↦ (st, untouched)
  | some entry ↦ save disk (record st {
    peers = put st.peers key (record entry { verified = some true; method = some method });
  })
]

-- revoke(), which returns False where it is `untouched`
unfoldable pub revoke : Bool → TrustStore → Str → TrustStore × Outcome
revoke disk st key = elim (get st.peers key) as (λ _. TrustStore × Outcome) [
  | none ↦ (st, untouched)
  | some _ ↦ save disk (record st { peers = remove st.peers key })
]
