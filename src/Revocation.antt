-- ===== src/Revocation.antt =====
-- concordia/cmpc/revocation.py and the records of concordia/cmpc/types.py that it uses: the data of
-- the revocation cascade. A canonical byte string and a digest are texts.
pub mod Decisions
pub mod Cascade
pub mod Steps
pub mod Fuel
pub mod Walks
pub mod Frontier
pub mod Reach
pub mod Denials
pub mod Records
pub mod Snapshot
pub mod Signing
pub mod Effect
mod Tests
use concordia_protocol.Prelude.{ℕ, String, Bool, Option, List}

-- A Python value that a caller hands over. The flag of a container tells whether its type is
-- exactly `dict` or `list`; a key that is not exactly a `str` is `none`; `negative_value n` is
-- -(n + 1); `foreign_value` is any other object, another container or a subclass of a scalar type.
mutual
  pub data PyValue : Type 0 where
    text_value : String → PyValue
    int_value : ℕ → PyValue
    negative_value : ℕ → PyValue
    float_value : String → PyValue
    bool_value : Bool → PyValue
    none_value : PyValue
    dict_value : Bool → Entries → PyValue
    list_value : Bool → Items → PyValue
    foreign_value : String → PyValue

  pub data Entries : Type 0 where
    no_entries : Entries
    entry : Option String → PyValue → Entries → Entries

  pub data Items : Type 0 where
    no_items : Items
    item : PyValue → Items → Items

-- An item of `references`: the texts under "id" and "relationship" of a dict, where they are texts.
pub data Reference : Type 0 where
  link : Option String → Option String → Reference
  not_dict : Reference

pub record Signature : Type 0 where
  pub alg : String
  pub value : String

-- `extensions` is its JSON text; `cascade_depth` is not negative in a record that its schema
-- admits, and no other record is searched.
pub record RevocationRecord : Type 0 where
  pub revocation_id : String
  pub revoked_artifact_id : String
  pub revoked_artifact_type : String
  pub revocation_scope : String
  pub issuer_did : String
  pub issued_at : String
  pub effective_at : String
  pub reason : String
  pub references : List Reference
  pub cascade_depth : ℕ
  pub signature : Option Signature
  pub supersedes : Option String
  pub extensions : Option String

pub record AncestorRead : Type 0 where
  pub element_digest : String
  pub status : String
  pub source_digest : String
  pub coordinate : ℕ

pub record CascadeDecisionRecord : Type 0 where
  pub capability_digest : String
  pub request_digest : String
  pub boundary_id : String
  pub decision : String
  pub verifier : String
  pub policy_version : String
  pub ancestor_reads : List AncestorRead
  pub decision_id : String
  pub signature : Option Signature
  pub approval_receipt_ref : Option String
  pub revocation_record_ref : Option String

pub record CascadeBoundary : Type 0 where
  pub boundary_id : String
  pub verifier : String
  pub policy_version : String
  pub source_digest : String
  pub coordinate : ℕ
  pub capability_digest : Option String
  pub request_digest : Option String
  pub approval_receipt_ref : Option String

pub record CandidateArtifact : Type 0 where
  pub artifact_id : String
  pub artifact_type : String
  pub references : List Reference

pub data PredicateFailureReason : Type 0 where
  schema_invalid bad_signature expired revoked unknown_authority ref_mismatch wrong_subject
        resolver_miss :
      PredicateFailureReason

pub record InadmissibleArtifact : Type 0 where
  pub artifact_id : String
  pub reason : PredicateFailureReason
  pub revoked_via_revocation_id : String
  pub cascade_depth : ℕ
  pub evidence : String

pub record CascadeResult : Type 0 where
  pub inadmissible : List InadmissibleArtifact
  pub decisions : List CascadeDecisionRecord

-- What the code raises; `out_of_fuel` is the model's alone.
pub data CascadeError : Type 0 where
  invalid_record not_canonical out_of_fuel : CascadeError

-- The libraries' JSON schemas, canonical JSON, SHA-256, base64, Ed25519, `str`, and the reading of
-- an ISO date as seconds in UTC, which raises on a text that is none.
pub record Host : Type 1 where
  pub KeyPair : Type 0
  pub PublicKey : Type 0
  pub public_key : KeyPair → PublicKey
  pub revocation_schema : RevocationRecord → Bool
  pub decision_schema : PyValue → Bool
  pub canonicalize_jcs : Entries → Option String
  pub sha256 : String → String
  pub sign : KeyPair → String → String
  pub verify : PublicKey → String → String → Bool
  pub b64encode : String → String
  pub b64decode : String → Option String
  pub str_of : PyValue → String
  pub float_is_zero : String → Bool
  pub instant : String → Option ℕ
