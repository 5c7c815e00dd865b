-- ===== src/Indexer/Manifest/Printable.antt =====
-- Which payloads `canonicalize` prints: those with no value that it refuses.
use penny_protocol.Base.Text.{codes, Text}
use penny_protocol.Indexer.Manifest.{
  member_leb, sort, members_text, join, canonical_fields, ok, canonical_items, Member, ℕ, ◌∷◌, [],
  List, ℤ, canonicalize, Json, Fields, Items,
}
use penny_protocol.Base.{◌++◌, refl, ◌≡◌, List, [], ℕ, ◌∷◌}
use penny_protocol.Base.Int.{ℤ}
use penny_protocol.Base.Result.{ok}
use penny_protocol.Base.Sort.{sort}

module _ (quote : Text → Text) where
  abbrev pub IsPrintable : Json → Type 0
  IsPrintable j = (t : Text) × (canonicalize quote j ≡ ok t)

  abbrev pub ArePrintable : Items → Type 0
  ArePrintable items = (ts : List Text) × (canonical_items quote items ≡ ok ts)

  abbrev pub HavePrintable : Fields → Type 0
  HavePrintable fields = (ms : List Member) × (canonical_fields quote fields ≡ ok ms)

  pub nil-ArePrintable : ArePrintable Items.nil
  unfolding canonicalize
  nil-ArePrintable = ([], refl)

  pub cons-ArePrintable :
      (j : Json) (items : Items)
      → IsPrintable j
      → ArePrintable items
      → ArePrintable (Items.cons j items)
  unfolding canonicalize
  cons-ArePrintable j items (t, p) (ts, q) = (t ∷ ts, rw (p, q) refl)

  pub none-HavePrintable : HavePrintable Fields.none_left
  unfolding canonicalize
  none-HavePrintable = ([], refl)

  pub field-HavePrintable :
      (k : Text) (j : Json) (fields : Fields)
      → IsPrintable j
      → HavePrintable fields
      → HavePrintable (Fields.field k j fields)
  unfolding canonicalize
  field-HavePrintable k j fields (t, p) (ms, q) = ((k, t) ∷ ms, rw (p, q) refl)

  pub string-IsPrintable : (t : Text) → IsPrintable (Json.string t)
  unfolding canonicalize
  string-IsPrintable t = (_, refl)

  pub bigint-IsPrintable : (n : ℤ) → IsPrintable (Json.bigint n)
  unfolding canonicalize
  bigint-IsPrintable n = (_, refl)

  pub number-IsPrintable : (n : ℕ) → IsPrintable (Json.number n)
  unfolding canonicalize
  number-IsPrintable n = (_, refl)

  pub null-IsPrintable : IsPrintable Json.null
  unfolding canonicalize
  null-IsPrintable = (_, refl)

  pub array-IsPrintable : (items : Items) → ArePrintable items → IsPrintable (Json.array items)
  unfolding canonicalize
  array-IsPrintable items (ts, p) = (codes "[" ++ (join ts ++ codes "]"), rw p refl)

  pub object-IsPrintable :
      (fields : Fields) → HavePrintable fields → IsPrintable (Json.object fields)
  unfolding canonicalize
  object-IsPrintable fields (ms, p) =
      (codes "{" ++ (join (members_text quote (sort member_leb ms)) ++ codes "}"), rw p refl)
