-- ===== src/Vault/State.antt =====
-- src/vault.rs: the vault's state and the subsystems that it coordinates.
--
-- The three traits are parameters: `SecretStore` (src/store/mod.rs), `AuditLog`
-- (src/audit/mod.rs) and `KeySource` (src/keysource/mod.rs), each over a type of states. The locks
-- are not in the state: an operation here runs from its first lock to its last with no other
-- operation in between. Operations take the surroundings (`Env`) and the peer as arguments.
use zerolease.Prelude.{ℕ, ◌≡◌, refl, arith, Option, none, some, [], Text, from_utf8}
use zerolease.Types.Identity.{LeaseId, SessionToken, AgentId}
use zerolease.Types.Secrets.{Bytes, CipherAlgorithm}
use zerolease.Error.{
  key_source_unavailable, not_initialized, decryption_failed, Result, ok, err, ◌>>=◌,
}
use zerolease.Env.{Env}
use zerolease.Map.{Map}
use zerolease.Policy.{PolicyConfig}
use zerolease.Lease.{Lease}
use zerolease.Session.{Session}
use zerolease.Audit.{AuditLog, AuditEvent, AuditOutcome, entry_new}
use zerolease.Crypto.{Aead, Sealed}
use zerolease.Crypto
use zerolease.Store.{SecretStore}

-- `KeySource`: `rotate_dek` wraps and keeps the new key, or fails.
pub record KeySource (KS : Type 0) : Type 0 where
  pub load_or_create_dek : KS → Result Bytes × KS
  pub rotate_dek : KS → Bytes → Result Bytes × KS

pub record Backends (KS SS AS : Type 0) : Type 0 where
  pub keys : KeySource KS
  pub secrets : SecretStore SS
  pub log : AuditLog AS
  pub aead : Aead

pub record Vault (KS SS AS : Type 0) : Type 0 where
  pub key_source : KS
  pub store : SS
  pub audit : AS
  pub policy : PolicyConfig
  pub leases : Map LeaseId Lease
  pub sessions : Map SessionToken Session
  pub dek : Option Bytes
  pub cipher : CipherAlgorithm
  pub max_leases_per_agent : ℕ

-- The rest of an operation, after a step that may fail: the state stays as the step left it.
infixl 5 ◌>>>◌
abbrev pub ◌>>>◌ : {A B S : Type 0} → Result A × S → (A → S → Result B × S) → Result B × S
(ok a, s) >>> f = f a s
(err e, s) >>> f = (err e, s)

-- What holds of the state after the first step and after the rest holds after both.
pub >>>-keeps :
    {A B S : Type 0} (P : S → Type 0) (r : Result A × S) (f : A → S → Result B × S)
    → P r.1
    → ((a : A) → r.0 ≡ ok a → P (f a r.1).1)
    → P (r >>> f).1
>>>-keeps P (ok a, s) f p h = h a refl
>>>-keeps P (err e, s) f p h = p

-- A run that succeeds went through the rest.
pub >>>-eq-ok :
    {A B S : Type 0} (r : Result A × S) (f : A → S → Result B × S) {c : B}
    → (r >>> f).0 ≡ ok c
    → (a : A) × (r.0 ≡ ok a) × ((r >>> f) ≡ f a r.1)
>>>-eq-ok (ok a, s) f h = (a, refl, refl)
>>>-eq-ok (err e, s) f h = absurd (ground arith)

module _ {KS SS AS : Type 0} where
  unfoldable pub new : KS → SS → AS → PolicyConfig → CipherAlgorithm → Vault KS SS AS
  new key_source store audit policy algorithm = record {
    key_source = key_source;
    store = store;
    audit = audit;
    policy = policy;
    leases = [];
    sessions = [];
    dek = none;
    cipher = algorithm;
    max_leases_per_agent = 100;
  }

  unfoldable pub with_max_leases_per_agent : Vault KS SS AS → ℕ → Vault KS SS AS
  with_max_leases_per_agent v max = record v { max_leases_per_agent = max }

  module _ (b : Backends KS SS AS) where
    unfoldable pub initialize : Vault KS SS AS → Result (Unit {0}) × Vault KS SS AS
    initialize v =
        let (r, ks) = b.keys.load_or_create_dek v.key_source in
        (r, record v { key_source = ks }) >>> λ dek w. (ok tt, record w { dek = some dek })

    -- `trace_and_record`: the draw `i` stamps the entry.
    unfoldable pub trace_and_record :
        Env
        → ℕ
        → Vault KS SS AS
        → AuditEvent
        → AgentId
        → Text
        → AuditOutcome
        → Result (Unit {0}) × Vault KS SS AS
    trace_and_record env i v event agent peer outcome =
        let entry = entry_new (env.now i) (env.uuid i) event agent peer outcome in
        let (r, log) = b.log.record_entry v.audit entry in (r, record v { audit = log })

    -- The key, once the vault is initialized.
    abbrev pub current_dek : Vault KS SS AS → Result Bytes
    current_dek v = elim v.dek [
      | none ↦ err (key_source_unavailable not_initialized)
      | some dek ↦ ok dek
    ]

    unfoldable pub encrypt : Env → ℕ → Vault KS SS AS → Bytes → Result Sealed
    encrypt env draw v plaintext =
        current_dek v >>= λ dek. Crypto.encrypt b.aead v.cipher env draw plaintext dek

    unfoldable pub decrypt : Vault KS SS AS → Sealed → Result Text
    decrypt v sealed = current_dek v >>= λ dek. Crypto.decrypt b.aead sealed dek >>= λ raw.
        elim (from_utf8 raw) [ none ↦ err decryption_failed | some s ↦ ok s ]
