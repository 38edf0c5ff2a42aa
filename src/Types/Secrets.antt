-- ===== src/Types/Secrets.antt =====
-- crates/zerolease-types/src/store.rs, lease.rs and audit.rs: cipher algorithms, kinds and metadata
-- of secrets, the terms and the client's view of a lease, the reasons of a revocation.
use zerolease.Prelude.{ℕ, Bool, true, false, Option, none, some, List, Text, codes}
use zerolease.Types.Identity.{SecretId, SecretName, LeaseId, DomainScope}
use zerolease.Types.Time.{TimeDelta, DateTime, minutes, hours}

abbrev pub Bytes : Type 0
Bytes = List ℕ

pub data CipherAlgorithm : Type 0 where
  aes256_gcm xchacha20_poly1305 : CipherAlgorithm

pub data SecretKind : Type 0 where
  pat : SecretKind
  oauth2 : Option Bytes → Option Bytes → SecretKind
  api_key basic_auth ssh_key client_cert opaque : SecretKind

unfoldable pub algorithm_as_str : CipherAlgorithm → Text
algorithm_as_str aes256_gcm = codes "aes256gcm"
algorithm_as_str xchacha20_poly1305 = codes "xchacha20poly1305"

unfoldable pub kind_as_str : SecretKind → Text
kind_as_str pat = codes "pat"
kind_as_str (oauth2 _ _) = codes "oauth2"
kind_as_str api_key = codes "apikey"
kind_as_str basic_auth = codes "basicauth"
kind_as_str ssh_key = codes "sshkey"
kind_as_str client_cert = codes "clientcert"
kind_as_str opaque = codes "opaque"

pub record SecretMetadata : Type 0 where
  pub id : SecretId
  pub name : SecretName
  pub kind : SecretKind
  pub description : Option Text
  pub created_at : DateTime
  pub updated_at : DateTime
  pub version : ℕ

pub record LeaseTerms : Type 0 where
  pub ttl : TimeDelta
  pub renewable : Bool
  pub max_uses : Option ℕ

unfoldable pub default_short : LeaseTerms
unfolding minutes
default_short = record { ttl = minutes 15; renewable = false; max_uses = none }

unfoldable pub workflow : LeaseTerms
unfolding hours
workflow = record { ttl = hours 1; renewable = true; max_uses = none }

unfoldable pub single_use : LeaseTerms
unfolding minutes
single_use = record { ttl = minutes 5; renewable = false; max_uses = some 1 }

pub record LeaseGrant : Type 0 where
  pub lease_id : LeaseId
  pub secret_name : SecretName
  pub allowed_domains : List DomainScope
  pub expires_at : DateTime
  pub renewable : Bool
  pub remaining_uses : Option ℕ

pub data RevocationReason : Type 0 where
  expired admin_revoked secret_deleted use_limit_reached vault_shutdown : RevocationReason
  session_revoked : RevocationReason
