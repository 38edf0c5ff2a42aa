-- ===== src/Agent/Manifest.antt =====
-- crates/zerolease-agent/src/manifest.rs: the credentials to acquire, and the hosts for git.
use zerolease.Prelude.{
  ◌≡◌, refl, ◌∙◌, Bool, true, false, Option, none, some, List, [], ◌∷◌, Text, text_eq, ◌==◌, arith,
  if◌then◌else◌,
}
use zerolease.Map.{Map, get, insert, get-insert}

pub data InjectMechanism : Type 0 where
  env : Text → InjectMechanism
  file : Text → Text → InjectMechanism
  git_credential : Text → InjectMechanism

pub record CredentialEntry : Type 0 where
  pub secret_name : Text
  pub target_domain : Text
  pub inject : List InjectMechanism

abbrev pub CredentialManifest : Type 0
CredentialManifest = List CredentialEntry

abbrev pub HostMap : Type 0
HostMap = Map Text (Text × Text)

-- The inner loop of `git_host_map`, for one entry.
unfoldable pub map_hosts : CredentialEntry → List InjectMechanism → HostMap → HostMap
map_hosts entry [] hosts = hosts
map_hosts entry (env var ∷ more) hosts = map_hosts entry more hosts
map_hosts entry (file path template ∷ more) hosts = map_hosts entry more hosts
map_hosts entry (git_credential host ∷ more) hosts =
    map_hosts entry more (insert hosts host (entry.secret_name, entry.target_domain))

unfoldable pub map_entries : CredentialManifest → HostMap → HostMap
unfolding map_hosts
map_entries [] hosts = hosts
map_entries (entry ∷ more) hosts = map_entries more (map_hosts entry entry.inject hosts)

unfoldable pub git_host_map : CredentialManifest → HostMap
unfolding map_entries
git_host_map manifest = map_entries manifest []

-- Whether a mechanism is the host's.
abbrev names_host : Text → InjectMechanism → Bool
names_host host (env var) = false
names_host host (file path template) = false
names_host host (git_credential h) = h == host

abbrev serves_host : Text → List InjectMechanism → Bool
serves_host host [] = false
serves_host host (m ∷ more) = if serves_host host more then true else names_host host m

abbrev or_else : Option (Text × Text) → Option (Text × Text) → Option (Text × Text)
or_else none o = o
or_else (some x) o = some x

-- The last entry of the manifest that serves the host.
abbrev pub last_serving : Text → CredentialManifest → Option (Text × Text)
last_serving host [] = none
last_serving host (entry ∷ more) =
    or_else (last_serving host more) (
      if serves_host host entry.inject then some (entry.secret_name, entry.target_domain) else none)

get-map_hosts :
    (entry : CredentialEntry) (ms : List InjectMechanism) (hosts : HostMap) (host : Text)
    → get (map_hosts entry ms hosts) host ≡ (
        if serves_host host ms
        then some (entry.secret_name, entry.target_domain)
        else get hosts host)
unfolding map_hosts
get-map_hosts entry [] hosts host = refl
get-map_hosts entry (env var ∷ more) hosts host =
    ground (arith, get-map_hosts entry more hosts host)
get-map_hosts entry (file path template ∷ more) hosts host =
    ground (arith, get-map_hosts entry more hosts host)
get-map_hosts entry (git_credential h ∷ more) hosts host =
    let added = insert hosts h (entry.secret_name, entry.target_domain) in
    ground (
      arith,
      get-map_hosts entry more added host,
      get-insert hosts h (entry.secret_name, entry.target_domain) host,
    )

get-map_entries :
    (manifest : CredentialManifest) (hosts : HostMap) (host : Text)
    → get (map_entries manifest hosts) host ≡ or_else (last_serving host manifest) (get hosts host)
unfolding map_entries
get-map_entries [] hosts host = refl
get-map_entries (entry ∷ more) hosts host = ground (
  arith,
  get-map_entries more (map_hosts entry entry.inject hosts) host,
  get-map_hosts entry entry.inject hosts host,
)

-- A host is mapped to the secret and the domain of the last entry of the manifest that has a
-- git_credential mechanism for it, and to nothing when there is none.
pub get-git_host_map :
    (manifest : CredentialManifest) (host : Text)
    → get (git_host_map manifest) host ≡ last_serving host manifest
unfolding git_host_map get
get-git_host_map manifest host =
    get-map_entries manifest [] host ∙ or_else-none (last_serving host manifest)
  where
    or_else-none : (o : Option (Text × Text)) → or_else o none ≡ o
    or_else-none none = refl
    or_else-none (some x) = refl
