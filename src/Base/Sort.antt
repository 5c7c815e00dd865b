-- ===== src/Base/Sort.antt =====
-- `Array.prototype.sort`, which is stable: `le a b` says that the comparison of `a` with `b` gives
-- zero or less.
use Prim.Native.Nat.{suc}
use mathlib.Core.Path.{◌≡◌, refl, ap, ◌∙◌}
use mathlib.Core.Logic.{◌⊎◌, inl, inr}
use mathlib.Core.Bool.{Bool, true, false}
use mathlib.Core.List.{List, [], ◌∷◌, ◌++◌, map}
use mathlib.Core.List.{Perm}
use mathlib.Core.List.Perm
use native.Mathlib.Omega.{arith}
use penny_protocol.Base.Tests.{if◌then◌else◌, Bool-cases, Eq, ◌==◌}
use penny_protocol.Base.Lists.{All, length, All-map}
use penny_protocol.Base.Int.{ℤ, ◌+ℤ◌, sum, int_laws}
use penny_protocol.Base.Map.{contains, IsDistinct}
use penny_protocol.Base.{map_id, sym, subst}

module _ {ℓ} {A : Type ℓ} (le : A → A → Bool) where
  insert_sorted : A → List A → List A
  insert_sorted x [] = x ∷ []
  insert_sorted x (y ∷ ys) = if le x y then x ∷ y ∷ ys else y ∷ insert_sorted x ys

  unfoldable pub sort : List A → List A
  unfolding insert_sorted
  sort [] = []
  sort (x ∷ xs) = insert_sorted x (sort xs)

  -- Each element stands before all that come after it.
  abbrev pub IsSorted : List A → Type ℓ
  IsSorted [] = Unit
  IsSorted (x ∷ xs) = All (λ y. le x y ≡ true) xs × IsSorted xs

  insert_sorted-perm : (x : A) (xs : List A) → Perm (insert_sorted x xs) (x ∷ xs)
  unfolding insert_sorted
  insert_sorted-perm x [] = Perm.refl (x ∷ [])
  insert_sorted-perm x (y ∷ ys) = elim (Bool-cases (le x y)) [
    | inl before ↦ rw before (Perm.refl (x ∷ y ∷ ys))
    | inr after ↦ rw after (Perm.trans (Perm.cons y (insert_sorted-perm x ys)) (Perm.swap x y ys))
  ]

  -- Sorting rearranges.
  pub sort-perm : (xs : List A) → Perm (sort xs) xs
  unfolding sort
  sort-perm [] = Perm.refl []
  sort-perm (x ∷ xs) = Perm.trans (insert_sorted-perm x (sort xs)) (Perm.cons x (sort-perm xs))

  length-insert_sorted : (x : A) (xs : List A) → length (insert_sorted x xs) ≡ suc (length xs)
  unfolding insert_sorted
  length-insert_sorted x [] = refl
  length-insert_sorted x (y ∷ ys) = ground (arith, length-insert_sorted x ys)

  pub length-sort : (xs : List A) → length (sort xs) ≡ length xs
  unfolding sort
  length-sort [] = refl
  length-sort (x ∷ xs) = length-insert_sorted x (sort xs) ∙ ap suc (length-sort xs)

  All-insert_sorted {κ} :
      (P : A → Type κ) (x : A) (xs : List A) → P x → All P xs → All P (insert_sorted x xs)
  unfolding insert_sorted
  All-insert_sorted P x [] p h = (p, tt)
  All-insert_sorted P x (y ∷ ys) p h = elim (Bool-cases (le x y)) [
    | inl before ↦ rw before (p, h)
    | inr after ↦ rw after (h.0, All-insert_sorted P x ys p h.1)
  ]

  pub All-sort {κ} : (P : A → Type κ) (xs : List A) → All P xs → All P (sort xs)
  unfolding sort
  All-sort P [] h = tt
  All-sort P (x ∷ xs) h = All-insert_sorted P x (sort xs) h.0 (All-sort P xs h.1)

  sum-insert_sorted :
      (f : A → ℤ) (x : A) (xs : List A) → sum (map f (insert_sorted x xs)) ≡ f x +ℤ sum (map f xs)
  unfolding insert_sorted sum
  sum-insert_sorted f x [] = refl
  sum-insert_sorted f x (y ∷ ys) = grind (int_laws, sum-insert_sorted f x ys)

  All-of_insert_sorted {κ} :
      (P : A → Type κ) (x : A) (xs : List A) → All P (insert_sorted x xs) → P x × All P xs
  unfolding insert_sorted
  All-of_insert_sorted P x [] h = h
  All-of_insert_sorted P x (y ∷ ys) h = elim (Bool-cases (le x y)) [
    | inl before ↦ rw before at h
    | inr after ↦
        let (p, ps) = All-of_insert_sorted P x ys (rw after at h).1 in (p, ((rw after at h).0, ps))
  ]

  pub All-of_sort {κ} : (P : A → Type κ) (xs : List A) → All P (sort xs) → All P xs
  unfolding sort
  All-of_sort P [] h = h
  All-of_sort P (x ∷ xs) h =
      let (p, ps) = All-of_insert_sorted P x (sort xs) h in (p, All-of_sort P xs ps)

  -- A last element that none may precede comes first.
  pub sort-first :
      (xs : List A) (r : A) → All (λ x. le x r ≡ false) xs → sort (xs ++ (r ∷ [])) ≡ r ∷ sort xs
  unfolding sort insert_sorted
  sort-first [] r h = refl
  sort-first (x ∷ xs) r h = rw (sort-first xs r h.1, h.0) refl

  pub sum-sort : (f : A → ℤ) (xs : List A) → sum (map f (sort xs)) ≡ sum (map f xs)
  unfolding sort sum
  sum-sort f [] = refl
  sum-sort f (x ∷ xs) = sum-insert_sorted f x (sort xs) ∙ ap (λ s. f x +ℤ s) (sum-sort f xs)

  module _ (total : (a b : A) → (le a b ≡ true) ⊎ (le b a ≡ true))
      (trans : (a b c : A) → le a b ≡ true → le b c ≡ true → le a c ≡ true) where
    insert_sorted-IsSorted : (x : A) (xs : List A) → IsSorted xs → IsSorted (insert_sorted x xs)
    unfolding insert_sorted
    insert_sorted-IsSorted x [] h = (tt, tt)
    insert_sorted-IsSorted x (y ∷ ys) h = elim (Bool-cases (le x y)) [
      | inl before ↦ rw before ((before, All-map _ _ (λ z q. trans x y z before q) ys h.0), h)
      | inr after ↦ rw after (
        All-insert_sorted (λ z. le y z ≡ true) x ys (ground (arith, total x y)) h.0,
        insert_sorted-IsSorted x ys h.1,
      )
    ]

    pub sort-IsSorted : (xs : List A) → IsSorted (sort xs)
    unfolding sort
    sort-IsSorted [] = tt
    sort-IsSorted (x ∷ xs) = insert_sorted-IsSorted x (sort xs) (sort-IsSorted xs)

-- The keys `f x` of the elements.
module _ {ℓ κ} {A : Type κ} {K : Type ℓ} ⦃e : Eq K⦄ (le : A → A → Bool) (f : A → K) where
  contains-insert_sorted :
      (x : A) (k : K) (xs : List A)
      → contains (map f (insert_sorted le x xs)) k
        ≡ (if f x == k then true else contains (map f xs) k)
  unfolding insert_sorted contains
  contains-insert_sorted x k [] = refl
  contains-insert_sorted x k (y ∷ ys) = ground (arith, contains-insert_sorted x k ys)

  pub contains-map-sort :
      (xs : List A) (k : K) → contains (map f (sort le xs)) k ≡ contains (map f xs) k
  unfolding sort contains
  contains-map-sort [] k = refl
  contains-map-sort (x ∷ xs) k =
      contains-insert_sorted x k (sort le xs)
      ∙ ap (λ b. if f x == k then true else b) (contains-map-sort xs k)

  insert_sorted-IsDistinct :
      (x : A) (xs : List A)
      → contains (map f xs) (f x) ≡ false
      → IsDistinct (map f xs)
      → IsDistinct (map f (insert_sorted le x xs))
  unfolding insert_sorted contains
  insert_sorted-IsDistinct x [] h d = (refl, tt)
  insert_sorted-IsDistinct x (y ∷ ys) h d = elim (Bool-cases (le x y)) [
    | inl before ↦ rw before (h, d)
    | inr after ↦ rw after (
      contains-insert_sorted x (f y) ys
          ∙ ground (arith, e.same_iff (f x) (f y), e.same_iff (f y) (f x)),
      insert_sorted-IsDistinct x ys (ground arith) d.1,
    )
  ]

  pub sort-IsDistinct : (xs : List A) → IsDistinct (map f xs) → IsDistinct (map f (sort le xs))
  unfolding sort
  sort-IsDistinct [] d = tt
  sort-IsDistinct (x ∷ xs) d =
      insert_sorted-IsDistinct x (sort le xs) (contains-map-sort xs (f x) ∙ d.0)
        (sort-IsDistinct xs d.1)

-- Elements that are their own keys.
module _ {ℓ} {K : Type ℓ} ⦃e : Eq K⦄ (le : K → K → Bool) where
  pub contains-sort : (xs : List K) (k : K) → contains (sort le xs) k ≡ contains xs k
  contains-sort xs k =
      ap (λ l. contains l k) (sym (map_id (sort le xs)))
      ∙ contains-map-sort le (λ (x : K). x) xs k
      ∙ ap (λ l. contains l k) (map_id xs)

  pub sort-IsDistinct_self : (xs : List K) → IsDistinct xs → IsDistinct (sort le xs)
  sort-IsDistinct_self xs d =
      subst IsDistinct (map_id (sort le xs))
        (sort-IsDistinct le (λ (x : K). x) xs (subst IsDistinct (sym (map_id xs)) d))
