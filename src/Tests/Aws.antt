-- ===== src/Tests/Aws.antt =====
-- A service that keeps its secrets in a list, a codec of payloads, and the theorems on the store on
-- Secrets Manager at concrete inputs.
use zerolease.Prelude.{
  ℕ, zero, suc, ◌≡◌, ◌≢◌, refl, sym, ap, ◌∙◌, inl, inr, Option, none, some, List, [], ◌∷◌, Text,
  arith, ◌==◌, text_eq, text_beq_iff, if◌then◌else◌, Bool-cases, pos, negsuc,
}
use zerolease.Types.Time.{DateTime}
use zerolease.SecretsManager.{
  PayloadCodec, Service, ServiceError, resource_exists, resource_not_found, other_error, Sent,
  answer, refused,
}
use zerolease.SecretsManager.Stored.{IsPayloadCodec, IsService}

abbrev print_text : Text → Text → Text
print_text [] k = 0 ∷ k
print_text (c ∷ s) k = suc c ∷ print_text s k

abbrev read_text : {A : Type 0} → Text → (Text → Text → Option A) → Option A
read_text [] f = none
read_text (zero ∷ k) f = f [] k
read_text (suc c ∷ t) f = read_text t (λ s k. f (c ∷ s) k)

read_text-print_text :
    {A : Type 0} (s k : Text) (f : Text → Text → Option A) → read_text (print_text s k) f ≡ f s k
read_text-print_text [] k f = refl
read_text-print_text (c ∷ s) k f = read_text-print_text s k (λ s k. f (c ∷ s) k)

abbrev print_optional : Option Text → Text → Text
print_optional none k = 0 ∷ k
print_optional (some s) k = 1 ∷ print_text s k

abbrev read_optional : {A : Type 0} → Text → (Option Text → Text → Option A) → Option A
read_optional [] f = none
read_optional (zero ∷ k) f = f none k
read_optional (suc _ ∷ t) f = read_text t (λ s k. f (some s) k)

read_optional-print_optional :
    {A : Type 0} (o : Option Text) (k : Text) (f : Option Text → Text → Option A)
    → read_optional (print_optional o k) f ≡ f o k
read_optional-print_optional none k f = refl
read_optional-print_optional (some s) k f = read_text-print_text s k (λ s k. f (some s) k)

abbrev pub print_instant : DateTime → Text → Text
print_instant (pos n) k = 0 ∷ n ∷ k
print_instant (negsuc n) k = 1 ∷ n ∷ k

abbrev pub read_instant : {A : Type 0} → Text → (DateTime → Text → Option A) → Option A
read_instant [] f = none
read_instant (c ∷ []) f = none
read_instant (zero ∷ n ∷ k) f = f (pos n) k
read_instant (suc _ ∷ n ∷ k) f = f (negsuc n) k

pub read_instant-print_instant :
    {A : Type 0} (t : DateTime) (k : Text) (f : DateTime → Text → Option A)
    → read_instant (print_instant t k) f ≡ f t k
read_instant-print_instant (pos n) k f = refl
read_instant-print_instant (negsuc n) k f = refl

abbrev pub version_of : Text → Option ℕ
version_of [] = none
version_of (n ∷ _) = some n

abbrev pub codec : PayloadCodec
codec = record {
  print_payload = λ p. some (
      print_text p.id (
        print_text p.name (
          print_text p.ciphertext (
            print_text p.nonce (
              print_text p.algorithm (
                print_text p.kind (
                  print_optional p.description (
                    print_instant p.created_at
                      (print_instant p.updated_at (p.version ∷ []))))))))));
  parse_payload = λ t. read_text t λ id t. read_text t λ name t. read_text t λ ciphertext t.
      read_text t λ nonce t. read_text t λ algorithm t. read_text t λ kind t.
        read_optional t λ description t. read_instant t λ created_at t.
          read_instant t λ updated_at t. elim (version_of t) [
            | none ↦ none
            | some version ↦ some (record {
              id = id;
              name = name;
              ciphertext = ciphertext;
              nonce = nonce;
              algorithm = algorithm;
              kind = kind;
              description = description;
              created_at = created_at;
              updated_at = updated_at;
              version = version;
            })
          ];
  print_uuid = λ id. id ∷ [];
  parse_uuid = version_of;
  print_time = λ t. print_instant t [];
  parse_time = λ t. read_instant t (λ d k. some d);
}

pub codec-IsPayloadCodec : IsPayloadCodec codec
codec-IsPayloadCodec = record {
  payloads = λ p t e.
      ap codec.parse_payload (sym (inject e))
      ∙ read_text-print_text p.id _ _
      ∙ read_text-print_text p.name _ _
      ∙ read_text-print_text p.ciphertext _ _
      ∙ read_text-print_text p.nonce _ _
      ∙ read_text-print_text p.algorithm _ _
      ∙ read_text-print_text p.kind _ _
      ∙ read_optional-print_optional p.description _ _
      ∙ read_instant-print_instant p.created_at _ _
      ∙ read_instant-print_instant p.updated_at _ _;
  uuids = λ u. refl;
  times = λ t. read_instant-print_instant t [] _;
}
  where
    inject : {x y : Text} → some x ≡ some y → x ≡ y
    inject e = cc

abbrev pub Values : Type 0
Values = List (Text × Text)

abbrev lookup : Values → Text → Option Text
lookup [] name = none
lookup ((n, s) ∷ w) name = if n == name then some s else lookup w name

abbrev value_under : Option Text → Sent (Option Text)
value_under none = refused resource_not_found
value_under (some s) = answer (some s)

abbrev create_under : Option Text → Values → Text → Text → Sent (Unit {0}) × Values
create_under (some _) w name s = (refused resource_exists, w)
create_under none w name s = (answer tt, (name, s) ∷ w)

abbrev write_under : Option Text → Values → Text → Text → Sent (Unit {0}) × Values
write_under none w name s = (refused resource_not_found, w)
write_under (some _) w name s = (answer tt, (name, s) ∷ w)

-- It lists nothing and deletes nothing.
abbrev pub service : Service Values
service = record {
  create_secret = λ w name s d tags. create_under (lookup w name) w name s;
  get_secret_value = λ w name. value_under (lookup w name);
  put_secret_value = λ w name s. write_under (lookup w name) w name s;
  tag_resource = λ w name tags. (answer tt, w);
  describe_secret = λ w name. answer tt;
  delete_secret = λ w name force. (answer tt, w);
  list_secrets = λ w filter token. answer (record { secret_list = []; next_token = none });
}

lookup_self : (w : Values) (name s : Text) → lookup ((name, s) ∷ w) name ≡ some s
lookup_self w name s = ground (arith, text_beq_iff name name)

lookup_other :
    (w : Values) (name s other : Text)
    → other ≢ name
    → lookup ((name, s) ∷ w) other ≡ lookup w other
lookup_other w name s other ne = elim (Bool-cases (name == other)) [
  | inr apart ↦ rw apart refl
  | inl same ↦ absurd (ne (sym ((text_beq_iff name other).0 same)))
]

create_under-ok :
    (o : Option Text) (w after : Values) (name s : Text)
    → create_under o w name s ≡ (answer tt, after)
    → after ≡ (name, s) ∷ w
create_under-ok (some t) w after name s e = absurd (ground arith)
create_under-ok none w after name s e = ground arith

write_under-ok :
    (o : Option Text) (w after : Values) (name s : Text)
    → write_under o w name s ≡ (answer tt, after)
    → after ≡ (name, s) ∷ w
write_under-ok none w after name s e = absurd (ground arith)
write_under-ok (some t) w after name s e = ground arith

write_under-refused :
    (o : Option Text) (w after : Values) (name s : Text) (e : ServiceError)
    → write_under o w name s ≡ (refused e, after)
    → after ≡ w
write_under-refused none w after name s e h = ground arith
write_under-refused (some t) w after name s e h = absurd (ground arith)

pub service-IsService : IsService service
service-IsService = record {
  created = λ w after name s d tags e. ap value_under (
      ap (λ x. lookup x name) (create_under-ok (lookup w name) w after name s e)
      ∙ lookup_self w name s);
  created_other = λ w after name s d other tags e ne. ap value_under (
      ap (λ x. lookup x other) (create_under-ok (lookup w name) w after name s e)
      ∙ lookup_other w name s other ne);
  written = λ w after name s e. ap value_under (
      ap (λ x. lookup x name) (write_under-ok (lookup w name) w after name s e)
      ∙ lookup_self w name s);
  written_other = λ w after name s other e ne. ap value_under (
      ap (λ x. lookup x other) (write_under-ok (lookup w name) w after name s e)
      ∙ lookup_other w name s other ne);
  unwritten = λ w after name s other x e ne.
      ap (λ v. value_under (lookup v other))
        (write_under-refused (lookup w name) w after name s x e);
  uncertain = λ w after name s e. inl (λ other.
      ap (λ v. value_under (lookup v other))
        (write_under-refused (lookup w name) w after name s other_error e));
  tagged = λ w name other tags. refl;
}
