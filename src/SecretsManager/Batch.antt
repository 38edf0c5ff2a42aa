-- ===== src/SecretsManager/Batch.antt =====
-- crates/zerolease-store-aws-sm/src/store.rs: batches of updates. The service has no transactions.
use zerolease.Prelude.{ℕ, ◌≡◌, ◌⊎◌, List, [], ◌∷◌, ◌++◌, Text, text_eq}
use zerolease.Types.Identity.{SecretName}
use zerolease.Error.{Error, Result, ok, err}
use zerolease.Env.{Env}
use zerolease.Store.{BatchUpdateItem}
use zerolease.SecretsManager.{PayloadCodec, Service}
use zerolease.SecretsManager.Operations.{get}
use zerolease.SecretsManager.Stored.{IsPayloadCodec, IsService}
use zerolease.SecretsManager.Updates.{overlay}

module _ (c : PayloadCodec) (sound : IsPayloadCodec c) {W : Type 0} (service : Service W)
    (keeps : IsService service) (prefix : Text) where
  -- By every name, `get` finds what the updates make of the secret that it found before.
  abbrev pub Updated : W → Env → ℕ → List BatchUpdateItem → W → Type 0
  Updated w env i items after =
      (name : SecretName)
      → get c service prefix after name ≡ overlay env i items name (get c service prefix w name)

  -- What a run of the loop leaves. It succeeds with the updates of all the items. Or it fails at
  -- one of them, with the updates of the items before it, and of that item or not.
  abbrev pub AppliesPart : W → Env → ℕ → List BatchUpdateItem → Result (Unit {0}) → W → Type 0
  AppliesPart w env i items r after =
      ((r ≡ ok tt) × Updated w env i items after)
      ⊎ ((before : List BatchUpdateItem) × (item : BatchUpdateItem) × (rest : List BatchUpdateItem)
          × (e : Error) × (items ≡ before ++ (item ∷ rest))
          × (r ≡ err e)
          × (Updated w env i before after ⊎ Updated w env i (before ++ (item ∷ [])) after))
