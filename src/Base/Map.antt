-- ===== src/Base/Map.antt =====
-- The source's `Map` (and the objects that it uses as one): the entries in order of insertion. A
-- `set` on a key that is there keeps its place, and `delete` takes the entry out.
use mathlib.Core.List.{append-nil, append_assoc}
use mathlib.Core.Path.{sym, subst, ◌≡◌, refl, ◌∙◌}
use mathlib.Core.Logic.{inl, inr}
use mathlib.Core.Bool.{Bool, true, false}
use mathlib.Core.Option.{Option, none, some, get_or}
use mathlib.Core.List.{List, [], ◌∷◌, ◌++◌}
use native.Mathlib.Omega.{arith}
use penny_protocol.Base.Tests.{if◌then◌else◌, Eq, ◌==◌, Bool-cases}
use penny_protocol.Base.Lists.{All}
use penny_protocol.Base.Int.{ℤ, pos, ◌+ℤ◌, sum, int_laws}

abbrev pub Map {ℓ κ} : Type ℓ → Type κ → Type (ℓ ⊔ κ)
Map K V = List (K × V)

module _ {ℓ κ} {K : Type ℓ} {V : Type κ} ⦃e : Eq K⦄ where
  unfoldable pub get : Map K V → K → Option V
  get [] k = none
  get ((j, v) ∷ m) k = if j == k then some v else get m k

  unfoldable pub set : Map K V → K → V → Map K V
  set [] k v = (k, v) ∷ []
  set ((j, w) ∷ m) k v = if j == k then (j, v) ∷ m else (j, w) ∷ set m k v

  unfoldable pub delete : Map K V → K → Map K V
  delete [] k = []
  delete ((j, w) ∷ m) k = if j == k then m else (j, w) ∷ delete m k

  unfoldable pub has : Map K V → K → Bool
  has [] k = false
  has ((j, v) ∷ m) k = if j == k then true else has m k

  -- `new Map(entries)` and `Object.fromEntries`: a later entry wins.
  unfoldable pub from_entries : Map K V → List (K × V) → Map K V
  from_entries m [] = m
  from_entries m ((k, v) ∷ rest) = from_entries (set m k v) rest

  pub get-set :
      (m : Map K V) (k j : K) (v : V) → get (set m k v) j ≡ (if k == j then some v else get m j)
  unfolding get set
  get-set [] k j v = refl
  get-set ((i, w) ∷ m) k j v =
      ground (arith, e.same_iff k j, e.same_iff i k, e.same_iff i j, get-set m k j v)

  pub has-set :
      (m : Map K V) (k j : K) (v : V) → has (set m k v) j ≡ (if k == j then true else has m j)
  unfolding has set
  has-set [] k j v = refl
  has-set ((i, w) ∷ m) k j v =
      ground (arith, e.same_iff k j, e.same_iff i k, e.same_iff i j, has-set m k j v)

  pub has-get : (m : Map K V) (k : K) (v : V) → get m k ≡ some v → has m k ≡ true
  unfolding has get
  has-get [] k v h = ground arith
  has-get ((i, w) ∷ m) k v h = ground (arith, has-get m k v)

  pub get-none : (m : Map K V) (k : K) → has m k ≡ false → get m k ≡ none
  unfolding has get
  get-none [] k h = refl
  get-none ((i, w) ∷ m) k h = ground (arith, get-none m k)

  pub get-some : (m : Map K V) (k : K) → has m k ≡ true → (v : V) × (get m k ≡ some v)
  unfolding has get
  get-some [] k h = absurd (cc h)
  get-some ((i, w) ∷ m) k h = elim (Bool-cases (i == k)) [
    | inl found ↦ (w, rw found)
    | inr other ↦ rw other (get-some m k (rw other at h))
  ]

-- No key stands twice: true of every `Map` of the source, and kept by its operations.
module _ {ℓ κ} {K : Type ℓ} {V : Type κ} ⦃e : Eq K⦄ where
  abbrev pub IsMap : Map K V → Type 0
  IsMap [] = Unit
  IsMap ((k, v) ∷ m) = (has m k ≡ false) × IsMap m

  pub set-IsMap : (m : Map K V) (k : K) (v : V) → IsMap m → IsMap (set m k v)
  unfolding set has
  set-IsMap [] k v h = (refl, tt)
  set-IsMap ((j, w) ∷ m) k v h = elim (Bool-cases (j == k)) [
    | inl same ↦ rw same h
    | inr other ↦
        rw other (rw has-set (ground (arith, e.same_iff k j, e.same_iff j k)), set-IsMap m k v h.1)
  ]

  has-delete-false : (m : Map K V) (k j : K) → has m j ≡ false → has (delete m k) j ≡ false
  unfolding has delete
  has-delete-false [] k j h = refl
  has-delete-false ((i, w) ∷ m) k j h =
      ground (arith, has-delete-false m k j, e.same_iff i k, e.same_iff i j)

  pub delete-IsMap : (m : Map K V) (k : K) → IsMap m → IsMap (delete m k)
  unfolding delete
  delete-IsMap [] k h = tt
  delete-IsMap ((j, w) ∷ m) k h = ground (arith, has-delete-false m k j, delete-IsMap m k h.1)

  pub get-delete :
      (m : Map K V) (k j : K) → IsMap m → get (delete m k) j ≡ (if k == j then none else get m j)
  unfolding get delete
  get-delete [] k j h = ground arith
  get-delete ((i, w) ∷ m) k j h =
      ground
        (arith, e.same_iff k j, e.same_iff i k, e.same_iff i j, get-delete m k j h.1, get-none m i)

  pub from_entries-IsMap : (m : Map K V) (es : List (K × V)) → IsMap m → IsMap (from_entries m es)
  unfolding from_entries
  from_entries-IsMap m [] h = h
  from_entries-IsMap m ((k, v) ∷ es) h = from_entries-IsMap (set m k v) es (set-IsMap m k v h)

module _ {ℓ κ} {K : Type ℓ} {V : Type κ} where
  unfoldable pub keys : Map K V → List K
  keys [] = []
  keys ((k, v) ∷ m) = k ∷ keys m

  unfoldable pub values : Map K V → List V
  values [] = []
  values ((k, v) ∷ m) = v ∷ values m

module _ {ℓ} {K : Type ℓ} ⦃e : Eq K⦄ where
  unfoldable pub contains : List K → K → Bool
  contains [] k = false
  contains (j ∷ ks) k = if j == k then true else contains ks k

  -- The elements are pairwise different.
  abbrev pub IsDistinct : List K → Type 0
  IsDistinct [] = Unit
  IsDistinct (k ∷ ks) = (contains ks k ≡ false) × IsDistinct ks

  -- `new Set(xs)`: the elements in order of their first occurrence.
  unfoldable pub add : List K → K → List K
  add s k = if contains s k then s else s ++ (k ∷ [])

  unfoldable pub set_of : List K → List K → List K
  unfolding add
  set_of s [] = s
  set_of s (k ∷ ks) = set_of (add s k) ks

module _ {ℓ} {K : Type ℓ} ⦃e : Eq K⦄ where
  pub contains-append :
      (xs ys : List K) (k : K)
      → contains (xs ++ ys) k ≡ (if contains xs k then true else contains ys k)
  unfolding contains
  contains-append [] ys k = refl
  contains-append (x ∷ xs) ys k = ground (arith, contains-append xs ys k)

module _ {ℓ κ} {K : Type ℓ} {V : Type κ} ⦃e : Eq K⦄ where
  -- Each of the entries is what the map finds under its key.
  abbrev pub IsPart : Map K V → Map K V → Type κ
  IsPart big = All (λ e. get big e.0 ≡ some e.1)

  pub contains-keys : (m : Map K V) (k : K) → contains (keys m) k ≡ has m k
  unfolding contains keys has
  contains-keys [] k = refl
  contains-keys ((j, v) ∷ m) k = ground (arith, contains-keys m k)

  pub IsPart-cons :
      (big es : Map K V) (k : K) (v : V)
      → IsPart big es
      → has es k ≡ false
      → IsPart ((k, v) ∷ big) es
  unfolding get has
  IsPart-cons big [] k v h d = tt
  IsPart-cons big ((j, w) ∷ es) k v h d = (
    ground (arith, h.0, e.same_iff j k, e.same_iff k j),
    IsPart-cons big es k v h.1 (ground arith),
  )

  -- Each entry is found under its key.
  pub IsPart-self : (m : Map K V) → IsMap m → IsPart m m
  unfolding get
  IsPart-self [] h = tt
  IsPart-self ((k, v) ∷ m) h =
      (ground (arith, e.same_iff k k), IsPart-cons m m k v (IsPart-self m h.1) h.0)

  pub keys-IsDistinct : (m : Map K V) → IsMap m → IsDistinct (keys m)
  unfolding keys
  keys-IsDistinct [] h = tt
  keys-IsDistinct ((j, v) ∷ m) h = (contains-keys m j ∙ h.0, keys-IsDistinct m h.1)

  pub All-values {μ} :
      (P : V → Type μ) (m : Map K V) (k : K) (v : V) → All P (values m) → get m k ≡ some v → P v
  unfolding values get
  All-values P [] k v h g = absurd (cc g)
  All-values P ((j, w) ∷ m) k v h g = elim (Bool-cases (j == k)) [
    | inl same ↦ subst_P (ground arith)
    | inr other ↦ All-values P m k v h.1 (ground arith)
  ]
    where
      subst_P : w ≡ v → P v
      subst_P q = rw q at (h.0)

module _ {ℓ} {K : Type ℓ} ⦃e : Eq K⦄ where
  -- A fresh key adds its value to the sum of the values.
  pub sum-set_fresh :
      (m : Map K ℤ) (k : K) (v : ℤ)
      → has m k ≡ false
      → sum (values (set m k v)) ≡ sum (values m) +ℤ v
  unfolding set values has sum
  sum-set_fresh [] k v h = omega int_laws
  sum-set_fresh ((j, w) ∷ m) k v h = grind (int_laws, sum-set_fresh m k v)

  -- What an update of one key does to the sum.
  pub sum-set :
      (m : Map K ℤ) (k : K) (v : ℤ)
      → sum (values (set m k v)) +ℤ get_or (get m k) (pos 0) ≡ sum (values m) +ℤ v
  unfolding set values get sum
  sum-set [] k v = omega int_laws
  sum-set ((j, w) ∷ m) k v = grind (int_laws, sum-set m k v)

module _ {ℓ κ} {K : Type ℓ} {V : Type κ} ⦃e : Eq K⦄ where
  -- A `set` on a fresh key appends.
  pub set_fresh : (m : Map K V) (k : K) (v : V) → has m k ≡ false → set m k v ≡ m ++ ((k, v) ∷ [])
  unfolding set has
  set_fresh [] k v h = refl
  set_fresh ((j, w) ∷ m) k v h = ground (arith, set_fresh m k v)

  pub has-append : (m n : Map K V) (k : K) → has (m ++ n) k ≡ (if has m k then true else has n k)
  unfolding has
  has-append [] n k = refl
  has-append ((j, w) ∷ m) n k = ground (arith, has-append m n k)

  fresh_of_append :
      (m : Map K V) (k : K) (v : V) (n : Map K V) → IsMap (m ++ ((k, v) ∷ n)) → has m k ≡ false
  unfolding has
  fresh_of_append [] k v n h = refl
  fresh_of_append ((j, w) ∷ m) k v n h = ground (
    arith,
    fresh_of_append m k v n h.1,
    has-append m ((k, v) ∷ n) j,
    e.same_iff j k,
    e.same_iff k j,
  )

  -- Entries with different keys are added in their order.
  pub from_entries-append : (m es : Map K V) → IsMap (m ++ es) → from_entries m es ≡ m ++ es
  unfolding from_entries
  from_entries-append m [] h = sym (append-nil m)
  from_entries-append m ((k, v) ∷ es) h = rw (set_fresh m k v (fresh_of_append m k v es h)) (
      from_entries-append (m ++ ((k, v) ∷ [])) es
        (subst IsMap (sym (append_assoc m ((k, v) ∷ []) es)) h)
      ∙ append_assoc m ((k, v) ∷ []) es)
