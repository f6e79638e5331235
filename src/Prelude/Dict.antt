-- ===== src/Prelude/Dict.antt =====
-- Python's `dict`: entries in insertion order, each key once. Writing to a key that is there
-- keeps its place.
use peer_memory.Prelude.Equality.{Eq, ◌==◌}
use mathlib.Core.Logic.{inl, inr}
use peer_memory.Prelude.Tests.{if_both, Bool-cases, if◌then◌else◌}
use peer_memory.Prelude.Lists.{length, All}
use Prim.Native.Nat.{ℕ, ◌+◌, ◌≤◌}
use mathlib.Core.Bool.{false}
use mathlib.Core.Path.{subst, ◌∙◌, ◌≡◌, refl}
use mathlib.Core.Option.{Option, none, some}
use mathlib.Core.List.{List, [], ◌∷◌, map}
use native.Mathlib.Omega.{arith}

abbrev pub Dict {ℓ} : Type ℓ → Type ℓ → Type ℓ
Dict K V = List (K × V)

module _ {ℓ} {K V : Type ℓ} where
  abbrev pub keys : Dict K V → List K
  keys = map (λ e. e.0)

  abbrev pub values : Dict K V → List V
  values = map (λ e. e.1)

  -- The sum of a measure over the values.
  abbrev pub total : (V → ℕ) → Dict K V → ℕ
  total f [] = 0
  total f ((k, v) ∷ d) = f v + total f d

-- A measure of what stands at a key, 0 where nothing does.
abbrev pub at_key {ℓ} : {V : Type ℓ} → (V → ℕ) → Option V → ℕ
at_key f none = 0
at_key f (some v) = f v

module _ {ℓ} {K V : Type ℓ} ⦃e : Eq K⦄ where
  -- d.get(k)
  unfoldable pub get : Dict K V → K → Option V
  get [] k = none
  get ((j, v) ∷ d) k = if j == k then some v else get d k

  -- d[k] = v
  unfoldable pub put : Dict K V → K → V → Dict K V
  put [] k v = (k, v) ∷ []
  put ((j, w) ∷ d) k v = let rest = put d k v in if j == k then (j, v) ∷ d else (j, w) ∷ rest

  -- d.pop(k, None)
  unfoldable pub remove : Dict K V → K → Dict K V
  remove [] k = []
  remove ((j, w) ∷ d) k = let rest = remove d k in if j == k then rest else (j, w) ∷ rest

  -- A dict holds a key once.
  abbrev pub Distinct : Dict K V → Type ℓ
  Distinct [] = Unit
  Distinct ((k, v) ∷ d) = (get d k ≡ none) × Distinct d

  pub get-put :
      (d : Dict K V) (k j : K) (v : V) → get (put d k v) j ≡ (if k == j then some v else get d j)
  unfolding get put
  get-put [] k j v = refl
  get-put ((i, w) ∷ d) k j v =
      ground (arith, e.test_iff i k, e.test_iff i j, e.test_iff k j, get-put d k j v)

  pub get-remove :
      (d : Dict K V) (k j : K) → get (remove d k) j ≡ (if k == j then none else get d j)
  unfolding get remove
  get-remove [] k j = ground arith
  get-remove ((i, w) ∷ d) k j =
      ground (arith, e.test_iff i k, e.test_iff i j, e.test_iff k j, get-remove d k j)

  pub remove_absent : (d : Dict K V) (k : K) → get d k ≡ none → remove d k ≡ d
  unfolding get remove
  remove_absent [] k h = refl
  remove_absent ((i, w) ∷ d) k h = ground (arith, remove_absent d k)

  pub put-Distinct : (d : Dict K V) (k : K) (v : V) → Distinct d → Distinct (put d k v)
  unfolding get put
  put-Distinct [] k v h = (refl, tt)
  put-Distinct ((i, w) ∷ d) k v h =
      ground (arith, e.test_iff k i, e.test_iff i k, get-put d k i v, put-Distinct d k v)

  pub remove-Distinct : (d : Dict K V) (k : K) → Distinct d → Distinct (remove d k)
  unfolding get remove
  remove-Distinct [] k h = tt
  remove-Distinct ((i, w) ∷ d) k h = ground (arith, get-remove d k i, remove-Distinct d k)

  pub total-put :
      (f : V → ℕ) (d : Dict K V) (k : K) (v : V)
      → total f (put d k v) + at_key f (get d k) ≡ total f d + f v
  unfolding get put
  total-put f [] k v = omega arith
  total-put f ((i, w) ∷ d) k v = ground (arith, total-put f d k v)

  pub total-remove :
      (f : V → ℕ) (d : Dict K V) (k : K)
      → Distinct d
      → total f (remove d k) + at_key f (get d k) ≡ total f d
  unfolding get remove
  total-remove f [] k h = omega arith
  total-remove f ((i, w) ∷ d) k h =
      ground (arith, e.test_iff i k, total-remove f d k, remove_absent d k)

  pub total_at : (f : V → ℕ) (d : Dict K V) (k : K) → at_key f (get d k) ≤ total f d
  unfolding get
  total_at f [] k = omega arith
  total_at f ((i, w) ∷ d) k = ground (arith, total_at f d k)

  pub length-put :
      (d : Dict K V) (k : K) (v : V) → length (put d k v) + at_key (λ _. 1) (get d k) ≡ length d + 1
  unfolding get put
  length-put [] k v = omega arith
  length-put ((i, w) ∷ d) k v = ground (arith, length-put d k v)

  pub length-remove :
      (d : Dict K V) (k : K)
      → Distinct d
      → length (remove d k) + at_key (λ _. 1) (get d k) ≡ length d
  unfolding get remove
  length-remove [] k h = omega arith
  length-remove ((i, w) ∷ d) k h =
      ground (arith, e.test_iff i k, length-remove d k, remove_absent d k)

module _ {ℓ κ} {K V : Type ℓ} ⦃e : Eq K⦄ (P : V → Type κ) where
  -- What holds of every value.
  abbrev pub AllValues : Dict K V → Type κ
  AllValues [] = Unit
  AllValues ((k, v) ∷ d) = P v × AllValues d

  pub put-AllValues : (d : Dict K V) (k : K) (v : V) → P v → AllValues d → AllValues (put d k v)
  unfolding put
  put-AllValues [] k v p h = (p, tt)
  put-AllValues ((i, w) ∷ d) k v p h =
      if_both AllValues (i == k) (p, h.1) (h.0, put-AllValues d k v p h.1)

  pub remove-AllValues : (d : Dict K V) (k : K) → AllValues d → AllValues (remove d k)
  unfolding remove
  remove-AllValues [] k h = tt
  remove-AllValues ((i, w) ∷ d) k h =
      if_both AllValues (i == k) (remove-AllValues d k h.1) (h.0, remove-AllValues d k h.1)

  pub get-AllValues : (d : Dict K V) (k : K) (v : V) → AllValues d → get d k ≡ some v → P v
  unfolding get
  get-AllValues [] k v h e = cc
  get-AllValues ((i, w) ∷ d) k v h e = elim (Bool-cases (i == k)) [
    | inl here ↦ subst P (let q : w ≡ v = ground arith in q) h.0
    | inr there ↦ get-AllValues d k v h.1 (ground arith)
  ]

module _ {ℓ} {K V : Type ℓ} ⦃e : Eq K⦄ where
  -- `for k in ks: d.pop(k, None)`
  unfoldable pub remove_all : Dict K V → List K → Dict K V
  remove_all d [] = d
  remove_all d (k ∷ ks) = remove_all (remove d k) ks

  pub remove_all-Distinct : (d : Dict K V) (ks : List K) → Distinct d → Distinct (remove_all d ks)
  unfolding remove_all
  remove_all-Distinct d [] h = h
  remove_all-Distinct d (k ∷ ks) h = remove_all-Distinct (remove d k) ks (remove-Distinct d k h)

  pub remove_all-AllValues {κ} :
      (P : V → Type κ) (d : Dict K V) (ks : List K) → AllValues P d → AllValues P (remove_all d ks)
  unfolding remove_all
  remove_all-AllValues P d [] h = h
  remove_all-AllValues P d (k ∷ ks) h =
      remove_all-AllValues P (remove d k) ks (remove-AllValues P d k h)

  zero_at-remove :
      (f : V → ℕ) (d : Dict K V) (k : K) (ks : List K)
      → All (λ j. at_key f (get d j) ≡ 0) ks
      → All (λ j. at_key f (get (remove d k) j) ≡ 0) ks
  zero_at-remove f d k [] z = tt
  zero_at-remove f d k (j ∷ ks) z =
      (rw get-remove (if_both (λ r. at_key f r ≡ 0) (k == j) refl z.0), zero_at-remove f d k ks z.1)

  -- A key that is not removed keeps its value.
  pub get-remove_all :
      (d : Dict K V) (ks : List K) (j : K)
      → All (λ k. (k == j) ≡ false) ks
      → get (remove_all d ks) j ≡ get d j
  unfolding remove_all
  get-remove_all d [] j h = refl
  get-remove_all d (k ∷ ks) j h = get-remove_all (remove d k) ks j h.1 ∙ rw (get-remove, h.0) refl

  -- To remove keys with measure 0 changes no total.
  pub total-remove_all :
      (f : V → ℕ) (d : Dict K V) (ks : List K)
      → Distinct d
      → All (λ k. at_key f (get d k) ≡ 0) ks
      → total f (remove_all d ks) ≡ total f d
  unfolding remove_all
  total-remove_all f d [] u z = refl
  total-remove_all f d (k ∷ ks) u z =
      total-remove_all f (remove d k) ks (remove-Distinct d k u) (zero_at-remove f d k ks z.1)
      ∙ omega (arith, total-remove f d k u, z.0)

  pub length-remove-le : (d : Dict K V) (k : K) → length (remove d k) ≤ length d
  unfolding remove
  length-remove-le [] k = omega arith
  length-remove-le ((i, w) ∷ d) k = ground (arith, length-remove-le d k)

  pub length-remove_all-le : (d : Dict K V) (ks : List K) → length (remove_all d ks) ≤ length d
  unfolding remove_all
  length-remove_all-le d [] = omega arith
  length-remove_all-le d (k ∷ ks) =
      omega (arith, length-remove_all-le (remove d k) ks, length-remove-le d k)
