-- ===== src/Base/Tabulate.antt =====
-- Maps filled by a loop over keys, `for (const k of keys) m.set(k, f(k))`, and sets built so.
use penny_protocol.Base.Map
use penny_protocol.Base.Map.{IsDistinct, Map}
use penny_protocol.Base.Text.{text_beq_iff, text_eq, Text}
use penny_protocol.Base.{
  ◌&&◌, ◌++◌, filter_by, Bool, inr, inl, Bool-cases, refl, ◌==◌, ◌∙◌, if◌then◌else◌, ◌+◌, [], arith,
  length, some, ◌∷◌, false, true, List, ◌≡◌,
}

-- One entry set for each key, in order.
unfoldable pub set_all {ℓ} : {V : Type ℓ} → Map Text V → (Text → V) → List Text → Map Text V
set_all m f [] = m
set_all m f (a ∷ rest) = set_all (Map.set m a (f a)) f rest

pub get-set_all_gone {ℓ} :
    {V : Type ℓ} (n : Map Text V) (f : Text → V) (cs : List Text) (a : Text)
    → Map.contains cs a ≡ false
    → Map.get (set_all n f cs) a ≡ Map.get n a
unfolding set_all Map.contains
get-set_all_gone n f [] a e = refl
get-set_all_gone n f (c ∷ cs) a e =
    get-set_all_gone (Map.set n c (f c)) f cs a (ground arith)
    ∙ Map.get-set n c a (f c)
    ∙ ground arith

pub get-set_all {ℓ} :
    {V : Type ℓ} (m : Map Text V) (f : Text → V) (assets : List Text) (a : Text)
    → Map.contains assets a ≡ true
    → Map.get (set_all m f assets) a ≡ some (f a)
unfolding set_all Map.contains
get-set_all m f [] a h = absurd (cc h)
get-set_all m f (b ∷ bs) a h = elim (Bool-cases (Map.contains bs a)) [
  | inl later ↦ get-set_all (Map.set m b (f b)) f bs a later
  | inr gone ↦
      get-set_all_gone (Map.set m b (f b)) f bs a gone
      ∙ Map.get-set m b a (f b)
      ∙ same_key ((text_beq_iff b a).0 (ground arith))
]
  where
    same_key : b ≡ a → (if b == a then some (f b) else Map.get m a) ≡ some (f a)
    same_key e = ground (arith, text_beq_iff b a, e)

one_more {ℓ} :
    {V : Type ℓ} (n : Map Text V) (a : Text) (v : V)
    → Map.has n a ≡ false
    → length (Map.keys (Map.set n a v)) ≡ length (Map.keys n) + 1
unfolding Map.set Map.has Map.keys
one_more [] a v h = refl
one_more ((k, w) ∷ n) a v h = ground (arith, one_more n a v)

pub length-set_all {ℓ} :
    {V : Type ℓ} (m : Map Text V) (f : Text → V) (assets : List Text)
    → IsDistinct assets
    → ((a : Text) → Map.contains assets a ≡ true → Map.has m a ≡ false)
    → length (Map.keys (set_all m f assets)) ≡ length (Map.keys m) + length assets
unfolding set_all Map.contains
length-set_all m f [] d fresh = omega arith
length-set_all m f (a ∷ rest) d fresh =
    length-set_all (Map.set m a (f a)) f rest d.1 later
    ∙ omega (arith, one_more m a (f a) (fresh a (rw ((text_beq_iff a a).1 refl) refl)))
  where
    later : (b : Text) → Map.contains rest b ≡ true → Map.has (Map.set m a (f a)) b ≡ false
    later b h =
        Map.has-set m a b (f a) ∙ ground (arith, text_beq_iff a b, fresh b (ground arith), d.0)

pub has-set_all {ℓ} :
    {V : Type ℓ} (m : Map Text V) (f : Text → V) (ks : List Text) (k : Text)
    → Map.has (set_all m f ks) k ≡ (if Map.contains ks k then true else Map.has m k)
unfolding set_all Map.contains
has-set_all m f [] k = refl
has-set_all m f (j ∷ ks) k =
    has-set_all (Map.set m j (f j)) f ks k ∙ ground (arith, Map.has-set m j k (f j))

pub contains-add :
    (s : List Text) (k w : Text)
    → Map.contains (Map.add s k) w ≡ (if k == w then true else Map.contains s w)
unfolding Map.add
contains-add s k w = elim (Bool-cases (Map.contains s k)) [
  | inl there ↦ rw there (ground (arith, text_beq_iff k w))
  | inr missing ↦ rw missing (Map.contains-append s (k ∷ []) w ∙ last)
]
  where
    last :
        (if Map.contains s w then true else Map.contains (k ∷ []) w)
        ≡ (if k == w then true else Map.contains s w)
    last = unfold Map.contains in ground arith

-- A set built from a list has its elements.
pub contains-set_of :
    (s ks : List Text) (w : Text)
    → Map.contains (Map.set_of s ks) w ≡ (if Map.contains ks w then true else Map.contains s w)
unfolding Map.set_of Map.contains
contains-set_of s [] w = refl
contains-set_of s (k ∷ ks) w =
    contains-set_of (Map.add s k) ks w
    ∙ rw (contains-add s k w) (either (k == w) (Map.contains ks w) (Map.contains s w))
  where
    either :
        (a b c : Bool)
        → (if b then true else (if a then true else c))
          ≡ (if (if a then true else b) then true else c)
    either a b c = ground arith

add-IsDistinct : (s : List Text) (k : Text) → IsDistinct s → IsDistinct (Map.add s k)
unfolding Map.add
add-IsDistinct s k d = elim (Bool-cases (Map.contains s k)) [
  | inl there ↦ rw there d
  | inr fresh ↦ rw fresh (last s d fresh)
]
  where
    last : (l : List Text) → IsDistinct l → Map.contains l k ≡ false → IsDistinct (l ++ (k ∷ []))
    last [] h f = (unfold Map.contains in refl, tt)
    last (x ∷ l) h f = (
      Map.contains-append l (k ∷ []) x
          ∙ unfold Map.contains in ground (arith, h.0, f, text_beq_iff x k, text_beq_iff k x),
      last l h.1 (unfold Map.contains in ground (arith, f)),
    )

pub set_of-IsDistinct : (s ks : List Text) → IsDistinct s → IsDistinct (Map.set_of s ks)
unfolding Map.set_of
set_of-IsDistinct s [] d = d
set_of-IsDistinct s (k ∷ ks) d = set_of-IsDistinct (Map.add s k) ks (add-IsDistinct s k d)

pub contains-filter_by :
    (p : Text → Bool) (l : List Text) (a : Text)
    → Map.contains (filter_by p l) a ≡ (Map.contains l a && p a)
unfolding filter_by Map.contains
contains-filter_by p [] a = refl
contains-filter_by p (x ∷ l) a = elim (Bool-cases (x == a)) [
  | inl same ↦
      rw ((text_beq_iff x a).0 same) (ground (arith, contains-filter_by p l a, text_beq_iff a a))
  | inr other ↦ ground (arith, contains-filter_by p l a)
]

pub filter_by-IsDistinct :
    (p : Text → Bool) (l : List Text) → IsDistinct l → IsDistinct (filter_by p l)
unfolding filter_by
filter_by-IsDistinct p [] d = tt
filter_by-IsDistinct p (x ∷ l) d = elim (Bool-cases (p x)) [
  | inl kept ↦ rw kept (ground (arith, contains-filter_by p l x, d.0), filter_by-IsDistinct p l d.1)
  | inr out ↦ rw out (filter_by-IsDistinct p l d.1)
]
