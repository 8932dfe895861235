-- ===== src/Spool/Recovery.antt =====
-- `open` and `recover_temporary_files` of crates/spool/src/lib.rs: the temporary files that a
-- crash left in the root become batches, or are removed.
pub mod Settled
pub mod Crash
use mongodb_dam.Common.{
  ℕ, ◌==◌, Bool, true, false, Option, none, some, Bytes, List, [], ◌∷◌, ◌&&◌, length, all_bytes,
  is_ascii_hexdigit, bytes_eq, if◌then◌else◌,
}
use mongodb_dam.Common.Outcome.{Outcome, ok, err, ◌>>=◌}
use mongodb_dam.Spool.Digest.{Digest}
use mongodb_dam.Spool.Files.{FileName, json, tmp, other, Directory, lookup, remove}
use mongodb_dam.Spool.Store.{DurableSpool, SpoolError, io, with_root, promote, holds}

abbrev pub is_batch_id : Bytes → Bool
is_batch_id id = (length id == 64) && all_bytes is_ascii_hexdigit id

-- The body of the loop for a temporary file, once it is read.
unfoldable pub settle : Digest → DurableSpool → Bytes → Bytes → DurableSpool
settle D spool id body =
    if holds id spool
    then with_root spool (remove (tmp id) spool.root)
    else if bytes_eq (D.id_of body) id
    then with_root spool (promote id body spool.root)
    else with_root spool (remove (tmp id) spool.root)

-- The body of the loop for a temporary file, by what `fs::read` or `fs::remove_file` finds.
abbrev pub settle_found :
    Digest → DurableSpool → Bytes → Option Bytes → Outcome SpoolError DurableSpool
unfolding settle
settle_found D spool id none = err io
settle_found D spool id (some body) = ok (settle D spool id body)

unfoldable pub recover_entry : Digest → DurableSpool → FileName → Outcome SpoolError DurableSpool
recover_entry D spool (json id) = ok spool
recover_entry D spool (other name) = ok spool
recover_entry D spool (tmp id) =
    if is_batch_id id then settle_found D spool id (lookup (tmp id) spool.root) else ok spool

-- The loop of `recover_temporary_files`, over the entries that `read_dir` lists.
unfoldable pub recover_entries : Digest → DurableSpool → Directory → Outcome SpoolError DurableSpool
unfolding recover_entry
recover_entries D spool [] = ok spool
recover_entries D spool ((name, body) ∷ files) =
    recover_entry D spool name >>= λ next. recover_entries D next files

unfoldable pub recover_temporary_files : Digest → DurableSpool → Outcome SpoolError DurableSpool
unfolding recover_entries
recover_temporary_files D spool = recover_entries D spool spool.root

unfoldable pub open_spool : Digest → Directory → Directory → ℕ → Outcome SpoolError DurableSpool
unfolding recover_temporary_files
open_spool D root quarantine max_bytes =
    recover_temporary_files D
      (record { root = root; quarantine = quarantine; max_bytes = max_bytes })
