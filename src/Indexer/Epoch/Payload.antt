-- ===== src/Indexer/Epoch/Payload.antt =====
-- The payload of an epoch has a canonical text.
use penny_protocol.Base.Text.{codes, Text}
use penny_protocol.Indexer.Manifest.Printable.{
  array-IsPrintable, bigint-IsPrintable, number-IsPrintable, cons-ArePrintable, object-IsPrintable,
  string-IsPrintable, nil-ArePrintable, null-IsPrintable, ArePrintable, field-HavePrintable,
  none-HavePrintable, IsPrintable, HavePrintable,
}
use penny_protocol.Indexer.Manifest.{Fields, Json}
use penny_protocol.Indexer.Epoch.{
  SnapshotResult, EpochSpec, Indexer, ℤ, EpochWalletProof, Viem, Map, List, Option, strings,
  bigints, stringify_record, proof_items, or_null, payload_of,
}
use penny_protocol.Indexer.Merkle.{Viem}
use penny_protocol.Base.{none, [], ◌∷◌, some, List, Option}
use penny_protocol.Base.Map.{Map}
use penny_protocol.Indexer.Ingest.{SnapshotResult, Indexer}
use penny_protocol.Base.Int.{ℤ}

module _ (quote : Text → Text) where
  strings_printable : (ts : List Text) → ArePrintable quote (strings ts)
  unfolding strings
  strings_printable [] = nil-ArePrintable quote
  strings_printable (t ∷ ts) =
      cons-ArePrintable quote (Json.string t) (strings ts) (string-IsPrintable quote t)
        (strings_printable ts)

  bigints_printable : (xs : List ℤ) → ArePrintable quote (bigints xs)
  unfolding bigints
  bigints_printable [] = nil-ArePrintable quote
  bigints_printable (x ∷ xs) =
      cons-ArePrintable quote (Json.bigint x) (bigints xs) (bigint-IsPrintable quote x)
        (bigints_printable xs)

  record_printable : (m : Map Text ℤ) → HavePrintable quote (stringify_record m)
  unfolding stringify_record
  record_printable [] = none-HavePrintable quote
  record_printable ((k, v) ∷ m) =
      field-HavePrintable quote k _ (stringify_record m) (string-IsPrintable quote _)
        (record_printable m)

  with_field :
      (k : Text) (j : Json) (fields : Fields)
      → IsPrintable quote j
      → HavePrintable quote fields
      → HavePrintable quote (Fields.field k j fields)
  with_field k j fields p q = field-HavePrintable quote k j fields p q

  done : HavePrintable quote Fields.none_left
  done = none-HavePrintable quote

  proofs_printable : (ps : List EpochWalletProof) → ArePrintable quote (proof_items ps)
  unfolding proof_items
  proofs_printable [] = nil-ArePrintable quote
  proofs_printable (p ∷ ps) =
      cons-ArePrintable quote _ (proof_items ps)
        (object-IsPrintable quote _ (
          with_field (codes "wallet") _ _ (string-IsPrintable quote p.wallet) (
            with_field (codes "cumulative") _ _
              (array-IsPrintable quote _ (bigints_printable p.cumulative))
              (with_field (codes "proof") _ _
                (array-IsPrintable quote _ (strings_printable p.proof)) done))))
        (proofs_printable ps)

  or_null-IsPrintable : (o : Option Text) → IsPrintable quote (or_null o)
  unfolding or_null
  or_null-IsPrintable none = null-IsPrintable quote
  or_null-IsPrintable (some t) = string-IsPrintable quote t

  pub payload-IsPrintable :
      (v : Viem) (indexer : Indexer) (spec : EpochSpec) (taken : SnapshotResult) (supply : ℤ)
      (residual : Map Text ℤ) (proofs : List EpochWalletProof) (root : Text)
      → IsPrintable quote (payload_of v quote indexer spec taken supply residual proofs root)
  unfolding payload_of
  payload-IsPrintable v indexer spec taken supply residual proofs root =
      object-IsPrintable quote _ (
        with_field _ _ _ (string-IsPrintable quote _) (
          with_field _ _ _ (number-IsPrintable quote _) (
            with_field _ _ _ (string-IsPrintable quote _) (
              with_field _ _ _ (number-IsPrintable quote _) (
                with_field _ _ _
                  (object-IsPrintable quote _ (
                    with_field _ _ _ (number-IsPrintable quote _) (
                      with_field _ _ _ (string-IsPrintable quote _)
                        (with_field _ _ _ (number-IsPrintable quote _) done))))
                  (with_field _ _ _ (string-IsPrintable quote _) (
                    with_field _ _ _ (string-IsPrintable quote _) (
                      with_field _ _ _ (array-IsPrintable quote _ (strings_printable spec.assets)) (
                        with_field _ _ _
                          (object-IsPrintable quote _ (record_printable spec.funded_totals))
                          (with_field _ _ _ (object-IsPrintable quote _ (record_printable residual))
                            (with_field _ _ _ (array-IsPrintable quote _ (proofs_printable proofs))
                              (with_field _ _ _ (string-IsPrintable quote root) (
                                with_field _ _ _ (string-IsPrintable quote _) (
                                  with_field _ _ _ (or_null-IsPrintable spec.meta.commit)
                                    done))))))))))))))
