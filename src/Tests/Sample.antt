-- ===== src/Tests/Sample.antt =====
-- Backends that run: a store and a log held as lists, a key source that accepts each key, and a
-- cipher that writes the key before the text.
use zerolease.Prelude.{
  ℕ, zero, suc, ◌≡◌, ◌≢◌, refl, sym, ap, ◌∙◌, inl, inr, Bool-cases, nat_beq_iff, true, not, Option,
  none, some, List, [], ◌∷◌, map, codes, pos, ◌+◌, ◌*◌, arith, nat_eq, text_eq, ◌==◌, if◌then◌else◌,
  nat_beq, find, filter, length,
}
use zerolease.Types.Identity.{SecretName}
use zerolease.Types.Secrets.{Bytes, aes256_gcm, LeaseTerms}
use zerolease.Error.{secret_not_found, ok, err}
use zerolease.Types.Time.{nanos_per_sec}
use zerolease.Env.{Env, FillsBuffer}
use zerolease.Audit.{AuditLog, AuditEntry}
use zerolease.Store.{StoredSecret, BatchUpdateItem, SecretStore, metadata_of}
use zerolease.Crypto.{Aead}
use zerolease.Crypto.RoundTrip.{IsAead}
use zerolease.Policy.{PolicyConfig, PolicyGrant, AgentPattern, SecretPattern}
use zerolease.Vault.State
use zerolease.Vault.State.{KeySource, Backends, Vault}

abbrev pub seal_key : Bytes → Bytes → Bytes
seal_key [] plain = 0 ∷ plain
seal_key (k ∷ key) plain = suc k ∷ seal_key key plain

abbrev pub unseal_key : Bytes → Bytes → Option Bytes
unseal_key [] (zero ∷ plain) = some plain
unseal_key (k ∷ key) (suc c ∷ plain) = if nat_beq c k then unseal_key key plain else none
unseal_key _ _ = none

abbrev pub toy_aead : Aead
toy_aead = record {
  seal = λ _ key _ plain. some (seal_key key plain);
  unseal = λ _ key _ cipher. unseal_key key cipher;
}

opens : (key plain : Bytes) → unseal_key key (seal_key key plain) ≡ some plain
opens [] plain = refl
opens (k ∷ key) plain = ground (arith, opens key plain)

refuses : (key other plain : Bytes) → key ≢ other → unseal_key other (seal_key key plain) ≡ none
refuses [] [] plain h = absurd (h refl)
refuses [] (o ∷ other) plain h = refl
refuses (k ∷ key) [] plain h = refl
refuses (k ∷ key) (o ∷ other) plain h = elim (Bool-cases (nat_beq k o)) [
  | inr apart ↦ rw apart refl
  | inl same ↦
      let e = (nat_beq_iff k o).0 same in
      rw same (refuses key other plain (λ p. h (λ i. e i ∷ p i)))
]

pub toy_aead-IsAead : IsAead toy_aead
toy_aead-IsAead = record {
  opens = λ alg key nonce plain cipher e. ap (unseal_key key) (sym (inject e)) ∙ opens key plain;
  refuses = λ alg key other nonce plain cipher e ne.
      ap (unseal_key other) (sym (inject e)) ∙ refuses key other plain ne;
}
  where
    inject : {x y : Bytes} → some x ≡ some y → x ≡ y
    inject e = cc

abbrev pub named : SecretName → List StoredSecret → Option StoredSecret
named name store = find (λ s. s.name == name) store

abbrev pub apply_update : List StoredSecret → BatchUpdateItem → List StoredSecret
apply_update store u =
    map
      (λ s.
        if s.name == u.name
        then record s { ciphertext = u.ciphertext; nonce = u.nonce; algorithm = u.algorithm }
        else s)
      store

abbrev pub apply_updates : List StoredSecret → List BatchUpdateItem → List StoredSecret
apply_updates store [] = store
apply_updates store (u ∷ us) = apply_updates (apply_update store u) us

abbrev pub list_store : SecretStore (List StoredSecret)
list_store = record {
  put = λ store env p.
      let s : StoredSecret = record {
        id = env.uuid 0;
        name = p.name;
        ciphertext = p.ciphertext;
        nonce = p.nonce;
        algorithm = p.algorithm;
        kind = p.kind;
        description = p.description;
        created_at = env.now 0;
        updated_at = env.now 0;
        version = 1;
      } in
      (ok s, s ∷ store);
  get =
      λ store name. elim (named name store) [ none ↦ err (secret_not_found name) | some s ↦ ok s ];
  batch_update = λ store env us. (ok tt, apply_updates store us);
  delete = λ store name. (ok tt, filter (λ s. not (s.name == name)) store);
  list = λ store. ok (map metadata_of store);
}

abbrev pub list_log : AuditLog (List AuditEntry)
list_log = record { record_entry = λ log e. (ok tt, e ∷ log) }

abbrev dek : Bytes
dek = 1 ∷ 2 ∷ 3 ∷ []

-- The state is the wrapped key.
abbrev pub plain_keys : KeySource Bytes
plain_keys = record { load_or_create_dek = λ k. (ok k, k); rotate_dek = λ k new. (ok new, new) }

abbrev pub backends : Backends Bytes (List StoredSecret) (List AuditEntry)
backends = record { keys = plain_keys; secrets = list_store; log = list_log; aead = toy_aead }

abbrev pub zeros : ℕ → Bytes
zeros zero = []
zeros (suc n) = 9 ∷ zeros n

-- The surroundings at a time in seconds, with uuids from `first` on.
abbrev pub at_time : ℕ → ℕ → Env
at_time secs first = record {
  now = λ _. pos (secs * nanos_per_sec);
  uuid = λ i. first + i;
  random_bytes = λ i n. zeros n;
}

pub at_time-FillsBuffer : (secs first : ℕ) → FillsBuffer (at_time secs first)
at_time-FillsBuffer secs first i n = length-zeros n
  where
    length-zeros : (n : ℕ) → length (zeros n) ≡ n
    length-zeros zero = refl
    length-zeros (suc n) = ap suc (length-zeros n)

abbrev pub terms : LeaseTerms
terms = record { ttl = pos (900 * nanos_per_sec); renewable = true; max_uses = some 2 }

abbrev pub grant : PolicyGrant
grant = record {
  agent = AgentPattern.exact (codes "ci");
  secret = SecretPattern.prefix (codes "gh-");
  allowed_domains = codes "*.github.com" ∷ [];
  lease_terms = some terms;
}

abbrev pub policy : PolicyConfig
policy = record { default_lease_terms = terms; grants = grant ∷ [] }

unfoldable pub fresh : Vault Bytes (List StoredSecret) (List AuditEntry)
unfolding State.new
fresh = State.new dek [] [] policy aes256_gcm
