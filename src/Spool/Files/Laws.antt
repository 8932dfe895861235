-- ===== src/Spool/Files/Laws.antt =====
-- The laws of files by name, and what the statistics of a directory count.
use mongodb_dam.Common.{
  ℕ, ◌+◌, ◌-◌, ◌^◌, ◌≤◌, ◌≡◌, refl, ◌↔◌, arith, true, Option, none, some, Bytes, [], ◌∷◌, min,
  bytes_eq_iff, length, if◌then◌else◌,
}
use mongodb_dam.Spool.Files.{
  FileName, json, tmp, other, name_eq, Directory, lookup, remove, write, SpoolStats, saturating_add,
  stats_from, directory_stats,
}

pub name_eq_iff : (a b : FileName) → (name_eq a b ≡ true) ↔ (a ≡ b)
unfolding name_eq
name_eq_iff (json a) (json b) = ground (arith, bytes_eq_iff a b)
name_eq_iff (tmp a) (tmp b) = ground (arith, bytes_eq_iff a b)
name_eq_iff (other a) (other b) = ground (arith, bytes_eq_iff a b)
name_eq_iff _ _ = ground arith

pub lookup-remove :
    (k j : FileName) (files : Directory)
    → lookup j (remove k files) ≡ (if name_eq k j then none else lookup j files)
unfolding lookup remove
lookup-remove k j [] = ground arith
lookup-remove k j ((i, body) ∷ files) =
    ground (arith, lookup-remove k j files, name_eq_iff i k, name_eq_iff i j, name_eq_iff k j)

pub lookup-write :
    (k j : FileName) (body : Bytes) (files : Directory)
    → lookup j (write k body files) ≡ (if name_eq k j then some body else lookup j files)
unfolding write lookup
lookup-write k j body files = ground (arith, lookup-remove k j files)

-- No name stands twice in a directory.
abbrev pub IsUnique : Directory → Type 0
IsUnique [] = Unit
IsUnique ((k, body) ∷ files) = (lookup k files ≡ none) × IsUnique files

pub remove-IsUnique :
    (k : FileName) (files : Directory) → IsUnique files → IsUnique (remove k files)
unfolding remove
remove-IsUnique k [] u = tt
remove-IsUnique k ((j, body) ∷ files) (fresh, u) =
    ground (arith, remove-IsUnique k files u, lookup-remove k j files)

pub write-IsUnique :
    (k : FileName) (body : Bytes) (files : Directory)
    → IsUnique files
    → IsUnique (write k body files)
unfolding write
write-IsUnique k body files u =
    (ground (arith, lookup-remove k k files, name_eq_iff k k), remove-IsUnique k files u)

-- The bytes of the batches in a directory, with no limit to the sum.
abbrev pub total : Directory → ℕ
total [] = 0
total ((json id, body) ∷ files) = length body + total files
total ((tmp id, body) ∷ files) = total files
total ((other name, body) ∷ files) = total files

-- What a file adds to the total.
abbrev pub weight : FileName → ℕ → ℕ
weight (json id) n = n
weight (tmp id) n = 0
weight (other name) n = 0

abbrev pub weight_of : FileName → Option Bytes → ℕ
weight_of k none = 0
weight_of k (some body) = weight k (length body)

pub remove_absent :
    (k : FileName) (files : Directory) → lookup k files ≡ none → remove k files ≡ files
unfolding remove lookup
remove_absent k [] h = refl
remove_absent k ((j, body) ∷ files) h = ground (arith, remove_absent k files)

pub total-remove :
    (k : FileName) (files : Directory)
    → IsUnique files
    → total (remove k files) + weight_of k (lookup k files) ≡ total files
unfolding remove lookup
total-remove k [] u = omega arith
total-remove k ((json id, body) ∷ files) (fresh, u) =
    ground (arith, total-remove k files u, remove_absent k files, name_eq_iff (json id) k)
total-remove k ((tmp id, body) ∷ files) (fresh, u) =
    ground (arith, total-remove k files u, remove_absent k files, name_eq_iff (tmp id) k)
total-remove k ((other id, body) ∷ files) (fresh, u) =
    ground (arith, total-remove k files u, remove_absent k files, name_eq_iff (other id) k)

stats_from-bytes :
    (stats : SpoolStats) (files : Directory)
    → stats.bytes ≤ 2 ^ 64 - 1
    → (stats_from stats files).bytes ≡ min (stats.bytes + total files) (2 ^ 64 - 1)
unfolding stats_from
stats_from-bytes stats [] h = omega arith
stats_from-bytes stats ((json id, body) ∷ files) h =
    let next : SpoolStats = record {
      items = saturating_add stats.items 1;
      bytes = saturating_add stats.bytes (length body);
    } in
    let rest = stats_from-bytes next files (omega arith) in omega arith
stats_from-bytes stats ((tmp id, body) ∷ files) h = stats_from-bytes stats files h
stats_from-bytes stats ((other name, body) ∷ files) h = stats_from-bytes stats files h

pub bytes-directory_stats :
    (files : Directory) → (directory_stats files).bytes ≡ min (total files) (2 ^ 64 - 1)
unfolding directory_stats
bytes-directory_stats files =
    let counted = stats_from-bytes (record { items = 0; bytes = 0 }) files (omega arith) in
    omega arith
