-- ===== src/Observer/Proc.antt =====
-- What crates/observer/src/lib.rs reads of a process from the host's /proc directory.
use mongodb_dam.Common.{
  ℕ, ◌+◌, ◌^◌, Bool, true, false, Option, none, some, Bytes, List, [], ◌∷◌, codes, strip_prefix,
  to_decimal, get_elem?,
}
use mongodb_dam.Common.Int.{ℤ, pos, negsuc}
use mongodb_dam.Common.Numerals.{from_str_radix}
use mongodb_dam.Common.Space.{lines, split_whitespace, trim_end, trim_end_matches, strip_suffix}
use mongodb_dam.Schema.Types.{KubernetesMetadata, NetworkEndpoint}
use mongodb_dam.Observer.State.{Host}
use mongodb_dam.Observer.PodUid.{extract_pod_uid}
use mongodb_dam.Observer.Endpoint.{parse_proc_net_tcp}

-- `value?` of an `Option`, and what follows.
abbrev and_then : {A B : Type 0} → Option A → (A → Option B) → Option B
and_then none f = none
and_then (some a) f = f a

-- `lines().find_map(|line| line.strip_prefix(prefix))`
find_prefix : Bytes → List Bytes → Option Bytes
unfolding strip_prefix
find_prefix prefix [] = none
find_prefix prefix (line ∷ more) =
    let rest = find_prefix prefix more in
    elim (strip_prefix prefix line) [ none ↦ rest | some text ↦ some text ]

-- The first number behind the prefix, a `u32`.
status_number : Bytes → Bytes → Option ℕ
unfolding find_prefix from_str_radix
status_number prefix status = and_then (find_prefix prefix (lines status)) (λ text.
    and_then (get_elem? (split_whitespace text) 0) (λ word. from_str_radix (2 ^ 32) 10 word))

module _ {Time : Type 0} (host : Host Time) (host_proc : Bytes) (tgid : ℕ) where
  abbrev below : List Bytes → List Bytes
  below names = to_decimal tgid ∷ names

  pub process_executable : Option Bytes
  process_executable =
      and_then (host.read_link host_proc (below (codes "exe" ∷ [])))
        (λ path. some (trim_end_matches (codes " (deleted)") path))

  pub process_credentials : Option (ℕ × ℕ)
  unfolding status_number
  process_credentials =
      and_then (host.read_to_string host_proc (below (codes "status" ∷ []))) (λ status.
        and_then (status_number (codes "Uid:") status)
          (λ uid. and_then (status_number (codes "Gid:") status) (λ gid. some (uid, gid))))

  -- `filter(|command| !command.is_empty())`
  abbrev not_empty : Bytes → Option Bytes
  not_empty [] = none
  not_empty (c ∷ cs) = some (c ∷ cs)

  pub process_command : Option Bytes
  process_command =
      and_then (host.read_to_string host_proc (below (codes "comm" ∷ [])))
        (λ command. not_empty (trim_end command))

  pub pod_metadata : Bytes → Option KubernetesMetadata
  unfolding extract_pod_uid
  pod_metadata cluster_name =
      and_then (host.read_to_string host_proc (below (codes "cgroup" ∷ []))) (λ cgroup.
        and_then (extract_pod_uid cgroup) (λ pod_uid. some (record {
          cluster_name = some cluster_name;
          namespace = none;
          pod_name = none;
          pod_uid = some pod_uid;
          container_name = none;
          workload_kind = none;
          workload_name = none;
          labels = none;
        })))

  -- The tables that are searched, until one cannot be read or has the inode.
  search_tables : Bytes → List (Bytes × Bool) → Option (NetworkEndpoint × NetworkEndpoint)
  search_tables inode [] = none
  search_tables inode ((name, ipv6) ∷ more) =
      let rest = search_tables inode more in
      elim (host.read_to_string host_proc (below (codes "net" ∷ name ∷ []))) [
        | none ↦ none
        | some table ↦ elim (parse_proc_net_tcp table inode ipv6) [
          | none ↦ rest
          | some value ↦ some value
        ]
      ]

  -- `fd.to_string()`
  abbrev fd_text : ℤ → Bytes
  fd_text (pos n) = to_decimal n
  fd_text (negsuc n) = b'-' ∷ to_decimal (n + 1)

  pub resolve_socket_endpoints : ℤ → Option (NetworkEndpoint × NetworkEndpoint)
  unfolding search_tables
  resolve_socket_endpoints fd =
      and_then (host.read_link host_proc (below (codes "fd" ∷ fd_text fd ∷ []))) (λ link.
        and_then (strip_prefix (codes "socket:[") link) (λ rest.
          and_then (strip_suffix (b']' ∷ []) rest) (λ inode. search_tables inode (
            (codes "tcp", false)
            ∷ (codes "tcp6", true)
            ∷ (codes "udp", false)
            ∷ (codes "udp6", true)
            ∷ []))))
