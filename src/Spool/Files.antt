-- ===== src/Spool/Files.antt =====
-- The two directories that crates/spool/src/lib.rs works on. A name is read as the code reads it:
-- `{id}.json` with an id that is not empty, `.{id}.tmp`, or one that the spool ignores.
pub mod Laws
use mongodb_dam.Common.{
  ℕ, ◌+◌, ◌-◌, ◌^◌, Bool, true, false, Option, none, some, Bytes, List, [], ◌∷◌, min, bytes_eq,
  length, if◌then◌else◌,
}

pub data FileName : Type 0 where
  json : Bytes → FileName
  tmp : Bytes → FileName
  other : Bytes → FileName

unfoldable pub name_eq : FileName → FileName → Bool
unfolding bytes_eq
name_eq (json a) (json b) = bytes_eq a b
name_eq (tmp a) (tmp b) = bytes_eq a b
name_eq (other a) (other b) = bytes_eq a b
name_eq _ _ = false

abbrev pub Directory : Type 0
Directory = List (FileName × Bytes)

-- The content of a file, where it exists.
unfoldable pub lookup : FileName → Directory → Option Bytes
unfolding name_eq
lookup k [] = none
lookup k ((j, body) ∷ files) = if name_eq j k then some body else lookup k files

unfoldable pub exists : FileName → Directory → Bool
unfolding lookup
exists k files = elim (lookup k files) [ none ↦ false | some _ ↦ true ]

-- `fs::remove_file` of a file that may be there
unfoldable pub remove : FileName → Directory → Directory
unfolding name_eq
remove k [] = []
remove k ((j, body) ∷ files) =
    let rest = remove k files in if name_eq j k then rest else (j, body) ∷ rest

-- A file is written, or put in place of the one of that name.
unfoldable pub write : FileName → Bytes → Directory → Directory
unfolding remove
write k body files = (k, body) ∷ remove k files

pub record SpoolStats : Type 0 where
  pub items : ℕ
  pub bytes : ℕ

-- `saturating_add` on `u64`
abbrev pub saturating_add : ℕ → ℕ → ℕ
saturating_add a b = min (a + b) (2 ^ 64 - 1)

-- The loop of `directory_stats`.
unfoldable pub stats_from : SpoolStats → Directory → SpoolStats
stats_from stats [] = stats
stats_from stats ((json id, body) ∷ files) =
    stats_from
      (record {
        items = saturating_add stats.items 1;
        bytes = saturating_add stats.bytes (length body);
      })
      files
stats_from stats ((tmp id, body) ∷ files) = stats_from stats files
stats_from stats ((other name, body) ∷ files) = stats_from stats files

unfoldable pub directory_stats : Directory → SpoolStats
unfolding stats_from
directory_stats = stats_from (record { items = 0; bytes = 0 })
