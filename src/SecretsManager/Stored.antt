-- ===== src/SecretsManager/Stored.antt =====
-- crates/zerolease-store-aws-sm/src/store.rs: what is put or updated is what is got, over a service
-- that keeps its secrets.
use zerolease.Prelude.{
  ◌≡◌, ◌≢◌, ◌⊎◌, refl, ap, ◌∙◌, inl, inr, some, List, [], ◌∷◌, Text, arith, ◌==◌, text_eq,
  text_beq_iff, if◌then◌else◌, Bool-cases, Option-cases,
}
use zerolease.Types.Identity.{SecretName, Uuid}
use zerolease.Types.Time.{DateTime}
use zerolease.Types.Secrets.{SecretKind}
use zerolease.Error.{ok, Result-cases}
use zerolease.Env.{Env}
use zerolease.Store.{StoredSecret, StoreSecretParams, parse_secret_kind, parse_legacy_kind}
use zerolease.Store.Names.{
  bare_kind, parse_cipher_algorithm-algorithm_as_str, parse_secret_kind-kind_as_str,
}
use zerolease.SecretsManager.{
  PayloadCodec, SecretPayload, Service, resource_exists, resource_not_found, other_error,
  invalid_request, ServiceError, Sent, answer, refused, Tag, from_stored, into_stored_secret,
  metadata_tags, serialize_payload, deserialize_payload, sm_name,
}
use zerolease.SecretsManager.Operations.{
  put, create, new_secret, get, read_value, sm_description, create_error, or_not_found,
}

-- What is printed is parsed back.
pub record IsPayloadCodec (c : PayloadCodec) : Type 0 where
  pub payloads :
      (p : SecretPayload) (t : Text) → c.print_payload p ≡ some t → c.parse_payload t ≡ some p
  pub uuids : (u : Uuid) → c.parse_uuid (c.print_uuid u) ≡ some u
  pub times : (t : DateTime) → c.parse_time (c.print_time t) ≡ some t

-- What the service documents of its calls: a value that is accepted is the value under that
-- name and no other, a write that the service refuses with an error of its own leaves the
-- values, and tags are not values. Of a write that ends with any other error, such as a
-- timeout on the way, it is not known whether it was accepted.
pub record IsService {W : Type 0} (service : Service W) : Type 0 where
  pub created :
      (w after : W) (name s d : Text) (tags : List Tag)
      → service.create_secret w name s d tags ≡ (answer tt, after)
      → service.get_secret_value after name ≡ answer (some s)
  pub created_other :
      (w after : W) (name s d other : Text) (tags : List Tag)
      → service.create_secret w name s d tags ≡ (answer tt, after)
      → other ≢ name
      → service.get_secret_value after other ≡ service.get_secret_value w other
  pub written :
      (w after : W) (name s : Text)
      → service.put_secret_value w name s ≡ (answer tt, after)
      → service.get_secret_value after name ≡ answer (some s)
  pub written_other :
      (w after : W) (name s other : Text)
      → service.put_secret_value w name s ≡ (answer tt, after)
      → other ≢ name
      → service.get_secret_value after other ≡ service.get_secret_value w other
  pub unwritten :
      (w after : W) (name s other : Text) (e : ServiceError)
      → service.put_secret_value w name s ≡ (refused e, after)
      → e ≢ other_error
      → service.get_secret_value after other ≡ service.get_secret_value w other
  pub uncertain :
      (w after : W) (name s : Text)
      → service.put_secret_value w name s ≡ (refused other_error, after)
      → ((other : Text) → service.get_secret_value after other ≡ service.get_secret_value w other)
        ⊎ ((service.get_secret_value after name ≡ answer (some s))
            × ((other : Text)
                → other ≢ name
                → service.get_secret_value after other ≡ service.get_secret_value w other))
  pub tagged :
      (w : W) (name other : Text) (tags : List Tag)
      → service.get_secret_value (service.tag_resource w name tags).1 other
        ≡ service.get_secret_value w other

pub Sent-cases :
    {A : Type 0} (s : Sent A) → ((a : A) × (s ≡ answer a)) ⊎ ((e : ServiceError) × (s ≡ refused e))
Sent-cases (answer a) = inl (a, refl)
Sent-cases (refused e) = inr (e, refl)

create_error-ne :
    (e : ServiceError) (name : SecretName) (s : StoredSecret) → create_error name e ≢ ok s
create_error-ne resource_exists name s h = absurd (ground arith)
create_error-ne resource_not_found name s h = absurd (ground arith)
create_error-ne other_error name s h = absurd (ground arith)
create_error-ne (invalid_request m) name s h = absurd (ground arith)

pub or_not_found-ne :
    (e : ServiceError) (name : SecretName) (what : Text) (s : StoredSecret)
    → or_not_found name what e ≢ ok s
or_not_found-ne resource_exists name what s h = absurd (ground arith)
or_not_found-ne resource_not_found name what s h = absurd (ground arith)
or_not_found-ne other_error name what s h = absurd (ground arith)
or_not_found-ne (invalid_request m) name what s h = absurd (ground arith)

pub bare_parsed : (t : Text) (k : SecretKind) → parse_secret_kind t ≡ ok k → bare_kind k ≡ k
unfolding parse_secret_kind parse_legacy_kind
bare_parsed t k e = ground arith

sm_name-injective : (prefix n m : Text) → sm_name prefix n ≡ sm_name prefix m → n ≡ m
unfolding sm_name
sm_name-injective [] n m e = ground arith
sm_name-injective (c ∷ prefix) n m e = sm_name-injective prefix n m (ground arith)

module _ (c : PayloadCodec) {W : Type 0} (service : Service W) (prefix : Text) where
  pub create-ok :
      (w after : W) (stored s : StoredSecret) (t : Text)
      → create c service prefix w stored t ≡ (ok s, after)
      → (s ≡ stored)
        × (service.create_secret w
              (sm_name prefix stored.name)
              t
              (sm_description stored.name)
              (metadata_tags c (from_stored c stored))
            ≡ (answer tt, after))
  unfolding create
  create-ok w after stored s t e =
      let sent =
        service.create_secret w (sm_name prefix stored.name) t (sm_description stored.name)
          (metadata_tags c (from_stored c stored)) in
      elim (Sent-cases sent.0) [
        | inl (a, done) ↦ (ground arith, ground arith)
        | inr (x, bad) ↦ absurd (ground (arith, create_error-ne x stored.name s))
      ]

module _ (c : PayloadCodec) (sound : IsPayloadCodec c) where
  into_stored_secret-from_stored :
      (s : StoredSecret)
      → into_stored_secret c (from_stored c s) ≡ ok (record s { kind = bare_kind s.kind })
  unfolding into_stored_secret from_stored
  into_stored_secret-from_stored s =
      rw
        (
          sound.uuids s.id,
          parse_cipher_algorithm-algorithm_as_str s.algorithm,
          parse_secret_kind-kind_as_str s.kind,
        )
        refl

  read_value-from_stored :
      (name t : Text) (s : StoredSecret)
      → serialize_payload c (from_stored c s) ≡ ok t
      → read_value c name (answer (some t)) ≡ ok (record s { kind = bare_kind s.kind })
  unfolding serialize_payload deserialize_payload read_value
  read_value-from_stored name t s e = elim (Option-cases (c.print_payload (from_stored c s))) [
    | inl bad ↦ absurd (ground arith)
    | inr (u, printed) ↦
        let same : u ≡ t = ground arith in
        let parsed = sound.payloads (from_stored c s) t (printed ∙ ap some same) in
        rw parsed (into_stored_secret-from_stored s)
  ]

  module _ {W : Type 0} (service : Service W) (keeps : IsService service) (prefix : Text) where
    -- A value that is under one name and leaves the others is what the store reads by that name.
    pub get-changed :
        (w after : W) (changed name t : Text) (s : StoredSecret)
        → service.get_secret_value after (sm_name prefix changed) ≡ answer (some t)
        → ((other : Text)
            → other ≢ sm_name prefix changed
            → service.get_secret_value after other ≡ service.get_secret_value w other)
        → serialize_payload c (from_stored c s) ≡ ok t
        → get c service prefix after name ≡ (
            if changed == name
            then ok (record s { kind = bare_kind s.kind })
            else get c service prefix w name)
    unfolding get
    get-changed w after changed name t s here others e = elim (Bool-cases (changed == name)) [
      | inl same ↦
          let n : changed ≡ name = (text_beq_iff changed name).0 same in
          rw same (rw (← n) (ap (read_value c changed) here ∙ read_value-from_stored changed t s e))
      | inr other ↦
          let ne : sm_name prefix name ≢ sm_name prefix changed = λ q.
            let n = sm_name-injective prefix name changed q in
            let b = (text_beq_iff changed name).1 in absurd (ground arith) in
          rw other (ap (read_value c name) (others (sm_name prefix name) ne))
    ]

    -- After a `put` that succeeds, `get` finds under its name the secret that `put` returned, but
    -- for the refresh token of an OAuth2 kind, which the payload does not hold; and under every
    -- other name what it found before.
    pub get-put :
        (w after : W) (env : Env) (p : StoreSecretParams) (s : StoredSecret) (name : SecretName)
        → put c service prefix w env p ≡ (ok s, after)
        → get c service prefix after name ≡ (
            if p.name == name
            then ok (record s { kind = bare_kind s.kind })
            else get c service prefix w name)
    unfolding put new_secret
    get-put w after env p s name e =
        elim (Result-cases (serialize_payload c (from_stored c (new_secret env p)))) [
          | inr (x, bad) ↦ absurd (ground arith)
          | inl (t, good) ↦
              let (same, sent) =
                create-ok c service prefix w after (new_secret env p) s t (ground arith) in
              let n = sm_name prefix p.name in
              rw same (
                get-changed w after p.name name t (new_secret env p)
                  (keeps.created w after n t (sm_description p.name) _ sent)
                  (λ other ne.
                    keeps.created_other w after n t (sm_description p.name) other _ sent ne)
                  good)
        ]
