-- ===== src/Keeper/Attest.antt =====
-- services/keeper/src/attest.ts and `scopeOf` of signer.ts: claims that carry a signature.
pub mod Stub
use penny_protocol.Base.{
  refl, ◌∙◌, ap, inr, inl, Bool-cases, sym, true, ◌++◌, ◌≡◌, if◌then◌else◌, Option, Bool, List, ℕ,
  none, some, [], ◌∷◌,
}
use penny_protocol.Base.Int.{ℤ, ltb_ℤ}
use penny_protocol.Indexer.Merkle.{Viem}
use penny_protocol.Base.Text.{codes, Text}
use mathlib.Core.List.{append_assoc, append-nil}

pub record PendingClaim : Type 0 where
  pub epoch_index : ℕ
  pub wallet : Text
  pub scope : Text
  pub signed_attestation : Text
  pub at : ℤ

pub record AttestationService : Type 0 where
  pub threshold : ℤ
  pub chain_id : ℕ
  pub distributor : Text
  pub claims : List PendingClaim

-- `new AttestationService(signer, …)`; the signer is a parameter of the operations.
unfoldable pub new_service : ℤ → ℕ → Text → AttestationService
new_service threshold chain_id distributor = record {
  threshold = threshold;
  chain_id = chain_id;
  distributor = distributor;
  claims = [];
}

-- The calls of a service, with the moment of each.
pub data Request : Type 0 where
  attest_request : Text → ℤ → ℕ → Text → ℤ → Request
  note_request : ℕ → Text → Text → Text → ℤ → Request

-- `encode_scope` is `encodePacked` on the five values of a scope. `attest` is the signer's, which
-- may answer otherwise at another moment.
module _ (v : Viem) (encode_scope : Text → ℕ → Text → ℕ → Text → Text)
    (attest : ℤ → Text → Text → Bool → Option Text) where
  unfoldable pub scope_of : ℕ → Text → ℕ → Text → Text
  scope_of chain_id distributor epoch_index root =
      v.keccak256
        (encode_scope (codes "PENNY_REWARD_ELIGIBILITY") chain_id distributor epoch_index root)

  -- `record`: the claim is stored and returned.
  unfoldable pub record_claim :
      AttestationService → ℕ → Text → Text → Text → ℤ → PendingClaim × AttestationService
  record_claim s epoch_index wallet scope signed_attestation now =
      let claim : PendingClaim = record {
        epoch_index = epoch_index;
        wallet = wallet;
        scope = scope;
        signed_attestation = signed_attestation;
        at = now;
      } in
      (claim, record s { claims = s.claims ++ (claim ∷ []) })

  -- The part of `attestEligibility` past the signer's answer.
  unfoldable pub record_signed :
      AttestationService
      → ℕ
      → Text
      → Text
      → ℤ
      → Option Text
      → Option PendingClaim × AttestationService
  unfolding record_claim
  record_signed s epoch_index wallet scope now none = (none, s)
  record_signed s epoch_index wallet scope now (some signed_attestation) =
      let (claim, s') = record_claim s epoch_index wallet scope signed_attestation now in
      (some claim, s')

  unfoldable pub attest_eligibility :
      AttestationService → Text → ℤ → ℕ → Text → ℤ → Option PendingClaim × AttestationService
  unfolding scope_of record_signed
  attest_eligibility s wallet balance epoch_index root now =
      if ltb_ℤ balance s.threshold
      then (none, s)
      else (let scope = scope_of s.chain_id s.distributor epoch_index root in
          record_signed s epoch_index wallet scope now (attest now wallet scope true))

  unfoldable pub note_claim :
      AttestationService → ℕ → Text → Text → Text → ℤ → PendingClaim × AttestationService
  unfolding scope_of record_claim
  note_claim s epoch_index wallet root signed_attestation now =
      record_claim s epoch_index wallet (scope_of s.chain_id s.distributor epoch_index root)
        signed_attestation now

  unfoldable pub serve : AttestationService → Request → AttestationService
  serve s (attest_request wallet balance epoch_index root now) =
      (attest_eligibility s wallet balance epoch_index root now).1
  serve s (note_request epoch_index wallet root signed_attestation now) =
      (note_claim s epoch_index wallet root signed_attestation now).1

  unfoldable pub serve_all : AttestationService → List Request → AttestationService
  unfolding serve
  serve_all s [] = s
  serve_all s (r ∷ rs) = serve_all (serve s r) rs

  -- The claim that a signature makes, if the signer gave one.
  unfoldable pub signed_claims : ℕ → Text → Text → ℤ → Option Text → List PendingClaim
  signed_claims epoch_index wallet scope now none = []
  signed_claims epoch_index wallet scope now (some signed) =
      record {
        epoch_index = epoch_index;
        wallet = wallet;
        scope = scope;
        signed_attestation = signed;
        at = now;
      }
      ∷ []

  -- What one request may leave: a claim if it is noted, or if its balance reaches the threshold and
  -- the signer signs it, in the scope of its epoch and root.
  unfoldable pub answer_of : ℤ → ℕ → Text → Request → List PendingClaim
  unfolding signed_claims
  answer_of threshold chain_id distributor (attest_request wallet balance epoch_index root now) =
      let scope = scope_of chain_id distributor epoch_index root in
      if ltb_ℤ balance threshold
      then []
      else signed_claims epoch_index wallet scope now (attest now wallet scope true)
  answer_of threshold chain_id distributor (note_request epoch_index wallet root signed now) =
      signed_claims epoch_index wallet (scope_of chain_id distributor epoch_index root) now
        (some signed)

  unfoldable pub claims_of : ℤ → ℕ → Text → List Request → List PendingClaim
  claims_of threshold chain_id distributor [] = []
  claims_of threshold chain_id distributor (r ∷ rs) =
      answer_of threshold chain_id distributor r ++ claims_of threshold chain_id distributor rs

  -- The service with other claims.
  abbrev with_claims : AttestationService → List PendingClaim → AttestationService
  with_claims s claims = record s { claims = claims }

  record_signed-keeps :
      (s : AttestationService) (epoch_index : ℕ) (wallet scope : Text) (now : ℤ) (o : Option Text)
      → (record_signed s epoch_index wallet scope now o).1
        ≡ with_claims s (s.claims ++ signed_claims epoch_index wallet scope now o)
  unfolding record_signed record_claim signed_claims
  record_signed-keeps s epoch_index wallet scope now none =
      ap (with_claims s) (sym (append-nil s.claims))
  record_signed-keeps s epoch_index wallet scope now (some signed) = refl

  serve-keeps :
      (s : AttestationService) (r : Request)
      → serve s r ≡ with_claims s (s.claims ++ answer_of s.threshold s.chain_id s.distributor r)
  unfolding serve answer_of attest_eligibility note_claim record_claim signed_claims
  serve-keeps s (attest_request wallet balance epoch_index root now) =
      let scope = scope_of s.chain_id s.distributor epoch_index root in
      elim (Bool-cases (ltb_ℤ balance s.threshold)) [
        | inl poor ↦
            rw (poor, attest_eligibility, serve) (ap (with_claims s) (sym (append-nil s.claims)))
        | inr rich ↦
            rw (rich, attest_eligibility, serve)
              (record_signed-keeps s epoch_index wallet scope now (attest now wallet scope true))
      ]
  serve-keeps s (note_request epoch_index wallet root signed now) = refl

  pub serve_all-claims_of :
      (s : AttestationService) (rs : List Request)
      → (serve_all s rs).claims ≡ s.claims ++ claims_of s.threshold s.chain_id s.distributor rs
  unfolding serve_all claims_of
  serve_all-claims_of s [] = sym (append-nil s.claims)
  serve_all-claims_of s (r ∷ rs) =
      let answer = answer_of s.threshold s.chain_id s.distributor r in
      ap (λ t. (serve_all t rs).claims) (serve-keeps s r)
      ∙ serve_all-claims_of (with_claims s (s.claims ++ answer)) rs
      ∙ append_assoc s.claims answer (claims_of s.threshold s.chain_id s.distributor rs)
