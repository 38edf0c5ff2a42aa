-- ===== src/SecretsManager/Updates.antt =====
-- crates/zerolease-store-aws-sm/src/store.rs: what one update does to what is read.
use zerolease.Prelude.{
  ℕ, ◌+◌, ◌≡◌, ◌≢◌, ◌⊎◌, some, refl, sym, ap, ◌∙◌, inl, inr, false, List, [], ◌∷◌, Text, arith,
  ◌==◌, text_eq, text_beq_iff, if◌then◌else◌, Bool-cases, Option-cases,
}
use zerolease.Types.Identity.{SecretName}
use zerolease.Error.{Error, Result, ok, err, Result-cases}
use zerolease.Env.{Env}
use zerolease.Store.{StoredSecret, BatchUpdateItem, parse_secret_kind}
use zerolease.Store.Names.{bare_kind}
use zerolease.SecretsManager.{
  PayloadCodec, SecretPayload, Service, ServiceError, resource_exists, resource_not_found,
  other_error, invalid_request, answer, refused, from_stored, into_stored_secret, metadata_tags,
  serialize_payload, deserialize_payload, sm_name,
}
use zerolease.SecretsManager.Operations.{get, read_value, update, put_value, updated_secret}
use zerolease.SecretsManager.Stored.{
  IsPayloadCodec, IsService, Sent-cases, or_not_found-ne, bare_parsed, get-changed,
}

-- What an update of the secrets of a name makes of the secret that is read by another.
abbrev pub overlay_item :
    Env → ℕ → BatchUpdateItem → SecretName → Result StoredSecret → Result StoredSecret
overlay_item env i item name (err e) = err e
overlay_item env i item name (ok s) =
    if item.name == name then ok (updated_secret env i s item) else ok s

-- What the updates make of it, one after another.
abbrev pub overlay :
    Env → ℕ → List BatchUpdateItem → SecretName → Result StoredSecret → Result StoredSecret
overlay env i [] name r = r
overlay env i (item ∷ items) name r =
    overlay env (i + 1) items name (overlay_item env i item name r)

overlay_item-other :
    (env : Env) (i : ℕ) (item : BatchUpdateItem) (name : SecretName) (r : Result StoredSecret)
    → (item.name == name) ≡ false
    → overlay_item env i item name r ≡ r
overlay_item-other env i item name (err e) h = refl
overlay_item-other env i item name (ok s) h = rw h refl

module _ (c : PayloadCodec) (sound : IsPayloadCodec c) {W : Type 0} (service : Service W)
    (keeps : IsService service) (prefix : Text) where
  into_stored_secret-kind :
      (p : SecretPayload) (s : StoredSecret)
      → into_stored_secret c p ≡ ok s
      → parse_secret_kind p.kind ≡ ok s.kind
  unfolding into_stored_secret
  into_stored_secret-kind p s e = ground arith

  get-kind :
      (w : W) (name : SecretName) (s : StoredSecret)
      → get c service prefix w name ≡ ok s
      → bare_kind s.kind ≡ s.kind
  unfolding get read_value deserialize_payload
  get-kind w name s e = elim (Sent-cases (service.get_secret_value w (sm_name prefix name))) [
    | inr (x, bad) ↦ absurd (ground arith)
    | inl (o, good) ↦ elim (Option-cases o) [
      | inl missing ↦ absurd (ground arith)
      | inr (t, there) ↦ elim (Result-cases (deserialize_payload c t)) [
        | inr (x, bad) ↦ absurd (ground arith)
        | inl (p, parsed) ↦ bare_parsed p.kind s.kind (into_stored_secret-kind p s (ground arith))
      ]
    ]
  ]

  put_value-ok :
      (w after : W) (name : SecretName) (updated s : StoredSecret) (t : Text)
      → put_value c service prefix w name updated t ≡ (ok s, after)
      → (s ≡ updated)
        × (between : W) × (service.put_secret_value w (sm_name prefix name) t
            ≡ (answer tt, between))
        × (after
            ≡ (service.tag_resource between
                (sm_name prefix name)
                (metadata_tags c (from_stored c updated))).1)
  unfolding put_value
  put_value-ok w after name updated s t e =
      let sent = service.put_secret_value w (sm_name prefix name) t in
      elim (Sent-cases sent.0) [
        | inl (a, done) ↦ (ground arith, sent.1, ground arith, ground arith)
        | inr (x, bad) ↦ absurd (ground (arith, or_not_found-ne x name _ s))
      ]

  -- A write that fails has left the values, or has been made.
  abbrev WrittenOrNot : W → W → Text → Text → Type 0
  WrittenOrNot w after n t =
      ((other : Text) → service.get_secret_value after other ≡ service.get_secret_value w other)
      ⊎ ((service.get_secret_value after n ≡ answer (some t))
          × ((other : Text)
              → other ≢ n
              → service.get_secret_value after other ≡ service.get_secret_value w other))

  refused-WrittenOrNot :
      (w after : W) (n t : Text) (x : ServiceError)
      → service.put_secret_value w n t ≡ (refused x, after)
      → WrittenOrNot w after n t
  refused-WrittenOrNot w after n t other_error e = keeps.uncertain w after n t e
  refused-WrittenOrNot w after n t resource_exists e =
      inl
        (λ other. keeps.unwritten w after n t other resource_exists e (λ q. absurd (ground arith)))
  refused-WrittenOrNot w after n t resource_not_found e =
      inl (λ other.
        keeps.unwritten w after n t other resource_not_found e (λ q. absurd (ground arith)))
  refused-WrittenOrNot w after n t (invalid_request m) e = inl (λ other.
      keeps.unwritten w after n t other (invalid_request m) e (λ q. absurd (ground arith)))

  pub put_value-err :
      (w after : W) (name : SecretName) (updated : StoredSecret) (t : Text) (e : Error)
      → put_value c service prefix w name updated t ≡ (err e, after)
      → WrittenOrNot w after (sm_name prefix name) t
  unfolding put_value
  put_value-err w after name updated t e h =
      let sent = service.put_secret_value w (sm_name prefix name) t in
      elim (Sent-cases sent.0) [
        | inl (a, done) ↦ absurd (ground arith)
        | inr (x, bad) ↦ refused-WrittenOrNot w after (sm_name prefix name) t x (ground arith)
      ]

  -- What `get` finds after a value was written for a secret that was there.
  pub written-get :
      (w after : W) (env : Env) (i : ℕ) (item : BatchUpdateItem) (existing : StoredSecret)
      (name : SecretName)
      → get c service prefix w item.name ≡ ok existing
      → get c service prefix after name ≡ (
          if item.name == name
          then ok (record (updated_secret env i existing item) { kind = bare_kind existing.kind })
          else get c service prefix w name)
      → get c service prefix after name ≡ overlay_item env i item name (get c service prefix w name)
  unfolding updated_secret
  written-get w after env i item existing name found e = elim (Bool-cases (item.name == name)) [
    | inl same ↦
        let n : item.name ≡ name = (text_beq_iff item.name name).0 same in
        let there : get c service prefix w name ≡ ok existing =
          ap (get c service prefix w) (sym n) ∙ found in
        let bare = get-kind w item.name existing found in
        e
        ∙ (rw (same, there, same)
            (ap (λ k. ok (record (updated_secret env i existing item) { kind = k })) bare))
    | inr other ↦
        e
        ∙ (rw other (sym (overlay_item-other env i item name (get c service prefix w name) other)))
  ]

  pub update-ok :
      (w after : W) (env : Env) (i : ℕ) (item : BatchUpdateItem) (s : StoredSecret)
      (name : SecretName)
      → update c service prefix w env i item ≡ (ok s, after)
      → get c service prefix after name ≡ overlay_item env i item name (get c service prefix w name)
  unfolding update
  update-ok w after env i item s name h = elim (Result-cases (get c service prefix w item.name)) [
    | inr (x, bad) ↦ absurd (ground arith)
    | inl (existing, found) ↦
        let updated = updated_secret env i existing item in
        elim (Result-cases (serialize_payload c (from_stored c updated))) [
          | inr (x, bad) ↦ absurd (ground arith)
          | inl (t, printed) ↦
              let n = sm_name prefix item.name in
              let tags = metadata_tags c (from_stored c updated) in
              let (same, between, sent, tagging) =
                put_value-ok w after item.name updated s t (ground arith) in
              let kept = λ (other : Text).
                ap (λ x. service.get_secret_value x other) tagging
                ∙ keeps.tagged between n other tags in
              written-get w after env i item existing name found (
                get-changed c sound service keeps prefix w after item.name name t updated
                  (kept n ∙ keeps.written w between n t sent)
                  (λ other ne. kept other ∙ keeps.written_other w between n t other sent ne)
                  printed)
        ]
  ]
