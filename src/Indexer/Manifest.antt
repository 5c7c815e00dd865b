-- ===== src/Indexer/Manifest.antt =====
-- services/indexer/src/manifest.ts: the canonical text of a payload, and its hash.
pub mod Printable
use penny_protocol.Base.{ℕ, ◌+◌, Bool, true, false, Option, List, [], ◌∷◌, ◌++◌}
use penny_protocol.Base.Int.{ℤ, pos, negsuc}
use penny_protocol.Base.Text.{Text, codes, text_leb}
use penny_protocol.Base.Decimal.{show}
use penny_protocol.Base.Result.{Result, ok, err, ◌>>=◌}
use penny_protocol.Base.Sort.{sort}
use penny_protocol.Indexer.Events.{Error, cannot_canonicalize}
use penny_protocol.Indexer.Merkle.{Viem}

-- The values that a payload is made of; `other` is one that `canonicalize` refuses.
mutual
  pub data Json : Type 0 where
    null : Json
    bigint : ℤ → Json
    string : Text → Json
    number : ℕ → Json
    boolean : Bool → Json
    array : Items → Json
    object : Fields → Json
    other : Json

  pub data Items : Type 0 where
    nil : Items
    cons : Json → Items → Items

  pub data Fields : Type 0 where
    none_left : Fields
    field : Text → Json → Fields → Fields

-- `value.toString()` of a bigint
unfoldable pub show_ℤ : ℤ → Text
show_ℤ (pos n) = show n
show_ℤ (negsuc n) = codes "-" ++ show (n + 1)

-- `parts.join(",")`
unfoldable pub join : List Text → Text
join [] = []
join (a ∷ []) = a
join (a ∷ b ∷ rest) = a ++ (codes "," ++ join (b ∷ rest))

-- A key with the text of its member.
abbrev pub Member : Type 0
Member = Text × Text

abbrev pub member_leb : Member → Member → Bool
member_leb a b = text_leb a.0 b.0

-- `quote` is `JSON.stringify` on a string.
module _ (quote : Text → Text) where
  unfoldable pub member_text : Member → Text
  member_text m = quote m.0 ++ (codes ":" ++ m.1)

  unfoldable pub members_text : List Member → List Text
  unfolding member_text
  members_text [] = []
  members_text (m ∷ ms) = member_text m ∷ members_text ms

  unfoldable mutual
    unfolding show_ℤ join members_text

    pub canonicalize : Json → Result Error Text
    canonicalize null = ok (codes "null")
    canonicalize (bigint n) = ok (quote (show_ℤ n))
    canonicalize (string s) = ok (quote s)
    canonicalize (number n) = ok (show n)
    canonicalize (boolean true) = ok (codes "true")
    canonicalize (boolean false) = ok (codes "false")
    canonicalize (array items) = do
      texts ← canonical_items items
      ok (codes "[" ++ (join texts ++ codes "]"))
    canonicalize (object fields) = do
      members ← canonical_fields fields
      ok (codes "{" ++ (join (members_text (sort member_leb members)) ++ codes "}"))
    canonicalize other = err cannot_canonicalize

    pub canonical_items : Items → Result Error (List Text)
    canonical_items nil = ok []
    canonical_items (cons j rest) = do
      text ← canonicalize j
      texts ← canonical_items rest
      ok (text ∷ texts)

    pub canonical_fields : Fields → Result Error (List Member)
    canonical_fields none_left = ok []
    canonical_fields (field key j rest) = do
      text ← canonicalize j
      members ← canonical_fields rest
      ok ((key, text) ∷ members)

pub record ManifestMeta : Type 0 where
  pub generated_at : Text
  pub software_version : Text
  pub commit : Option Text

-- `manifest` of the source repeats the other fields, and is left out.
pub record ManifestBundle : Type 0 where
  pub meta : ManifestMeta
  pub payload : Json
  pub canonical_json : Text
  pub content_hash : Text

module _ (v : Viem) (quote : Text → Text) where
  unfoldable pub build_manifest : ManifestMeta → Json → Result Error ManifestBundle
  build_manifest meta payload = do
    canonical_json ← canonicalize quote payload
    ok (record {
      meta = meta;
      payload = payload;
      canonical_json = canonical_json;
      content_hash = v.keccak256 (v.to_hex canonical_json);
    })
