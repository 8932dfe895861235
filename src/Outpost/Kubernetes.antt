-- ===== src/Outpost/Kubernetes.antt =====
-- The cache of pods of crates/outpost/src/lib.rs: `refresh_kubernetes_cache` on the answer of the API
-- server, which reqwest and serde_json supply.
use mongodb_dam.Common.{
  Bool, Option, none, some, Bytes, List, [], ◌∷◌, ◌++◌, if◌then◌else◌, length, bytes_eq, codes,
}
use mongodb_dam.Common.Maps.{insert}
use mongodb_dam.Common.Outcome.{Outcome, ok, err, panic, spent, ◌>>=◌, ok_or}
use mongodb_dam.Common.Space.{trim, trim_end_matches}
use mongodb_dam.Schema.Types.{KubernetesMetadata}
use mongodb_dam.Outpost.State.{AppState, gauge}
use mongodb_dam.Outpost.Accept.{PodCache}

pub record OwnerReference : Type 0 where
  pub kind : Bytes
  pub name : Bytes
  pub controller : Bool

pub record PodMetadata : Type 0 where
  pub uid : Option Bytes
  pub name : Option Bytes
  pub namespace : Option Bytes
  pub labels : Option (List (Bytes × Bytes))
  pub owner_references : Option (List OwnerReference)

pub record Pod : Type 0 where
  pub metadata : PodMetadata

pub record PodList : Type 0 where
  pub items : List Pod

-- The texts of the errors.
pub data RefreshError : Type 0 where
  no_api_url unreadable_secret empty_secret request_failed : RefreshError

-- `unwrap_or_default`
abbrev or_no_owner : Option (List OwnerReference) → List OwnerReference
or_no_owner none = []
or_no_owner (some owners) = owners

-- `find(|owner| owner.controller)`
abbrev pub controlling : List OwnerReference → Option OwnerReference
controlling [] = none
controlling (owner ∷ owners) =
    let rest = controlling owners in if owner.controller then some owner else rest

abbrev kind_of : Option OwnerReference → Option Bytes
kind_of none = none
kind_of (some owner) = some owner.kind

abbrev name_of : Option OwnerReference → Option Bytes
name_of none = none
name_of (some owner) = some owner.name

abbrev pub pod_entry : Bytes → PodMetadata → KubernetesMetadata
pod_entry cluster_name metadata =
    let owner = controlling (or_no_owner metadata.owner_references) in
    record {
      cluster_name = some cluster_name;
      namespace = metadata.namespace;
      pod_name = metadata.name;
      pod_uid = none;
      container_name = none;
      workload_kind = kind_of owner;
      workload_name = name_of owner;
      labels = metadata.labels;
    }

abbrev add_pod : Bytes → PodCache → PodMetadata → Option Bytes → PodCache
add_pod cluster_name cache metadata none = cache
add_pod cluster_name cache metadata (some uid) =
    insert bytes_eq uid (pod_entry cluster_name metadata) cache

-- The loop over the pods.
unfoldable pub collect_pods : Bytes → PodCache → List Pod → PodCache
unfolding insert bytes_eq
collect_pods cluster_name cache [] = cache
collect_pods cluster_name cache (pod ∷ pods) =
    collect_pods cluster_name (add_pod cluster_name cache pod.metadata pod.metadata.uid) pods

-- A secret is the trimmed text of its file.
abbrev not_empty : Bytes → Outcome RefreshError Bytes
not_empty [] = err empty_secret
not_empty (c ∷ cs) = ok (c ∷ cs)

unfoldable pub read_secret : Option Bytes → Outcome RefreshError Bytes
unfolding trim
read_secret content = ok_or content unreadable_secret >>= λ text. not_empty (trim text)

-- The state with the new pods, and their number.
abbrev pub with_pods : AppState → PodCache → AppState
with_pods state cache = record state {
  kubernetes = cache;
  metrics = record state.metrics { kubernetes_cache_entries = gauge (length cache) };
}

abbrev Refreshed : Type 0
Refreshed = Outcome RefreshError (Unit {0}) × AppState

unfoldable pub refreshed : AppState → Outcome RefreshError PodList → Refreshed
unfolding collect_pods
refreshed state (ok list) =
    (ok tt, with_pods state (collect_pods state.config.cluster_name [] list.items))
refreshed state (err e) = (err e, state)
refreshed state panic = (panic, state)
refreshed state spent = (spent, state)

-- `get` is the answer of the API server to a request with a URL and a token, and `token_file` the
-- content of the token's file.
unfoldable pub refresh_kubernetes_cache :
    (Bytes → Bytes → Option PodList) → Option Bytes → AppState → Refreshed
unfolding refreshed read_secret
refresh_kubernetes_cache get token_file state = refreshed state (
    ok_or state.config.kubernetes_api_url no_api_url >>= λ api_url.
    read_secret token_file >>= λ token.
    ok_or (get (trim_end_matches (b'/' ∷ []) api_url ++ codes "/api/v1/pods") token) request_failed)
