-- ===== src/Observer/PodUid.antt =====
-- `extract_pod_uid` of crates/observer/src/lib.rs: the identifier of a pod in the text of a cgroup
-- file.
pub mod Form
use mongodb_dam.Common.{
  ℕ, suc, ◌+◌, ◌<◌, ◌==◌, Bool, true, false, ◌&&◌, ◌||◌, Option, none, some, Bytes, List, [], ◌∷◌,
  ltb, leb, if◌then◌else◌, length, take, map, is_ascii_hexdigit, to_ascii_lowercase, codes,
  strip_prefix,
}

-- `take_while` of the bytes that may belong to an identifier
unfoldable pub candidate : Bytes → Bytes
candidate [] = []
candidate (c ∷ cs) =
    let rest = candidate cs in
    if is_ascii_hexdigit c || c == b'-' || c == b'_' then c ∷ rest else []

-- `replace('_', "-")`
abbrev pub normalized : Bytes → Bytes
normalized = map (λ c. if c == b'_' then b'-' else c)

-- The test of the byte at an index.
abbrev pub is_uid_byte : ℕ → ℕ → Bool
is_uid_byte index c =
    if index == 8 || index == 13 || index == 18 || index == 23
    then c == b'-'
    else is_ascii_hexdigit c

-- `enumerate().all(…)`, where the first byte has the index `index`
unfoldable pub is_uid_from : ℕ → Bytes → Bool
is_uid_from index [] = true
is_uid_from index (c ∷ cs) = is_uid_byte index c && is_uid_from (suc index) cs

-- What one match of the marker gives, on the text behind it.
unfoldable pub uid_of : Bytes → Option Bytes
unfolding candidate is_uid_from
uid_of suffix =
    let text = normalized (candidate suffix) in
    if leb 36 (length text) && is_uid_from 0 (take 36 text)
    then some (to_ascii_lowercase (take 36 text))
    else none

-- A match of the marker at the start of the text, if there is one.
unfoldable pub uid_here : Option Bytes → Option Bytes
unfolding uid_of
uid_here none = none
uid_here (some suffix) = uid_of suffix

-- Two matches of the marker do not overlap, so each place in the text is tried.
unfoldable pub extract_pod_uid : Bytes → Option Bytes
unfolding uid_here strip_prefix
extract_pod_uid [] = none
extract_pod_uid (c ∷ cs) =
    let rest = extract_pod_uid cs in
    elim (uid_here (strip_prefix (codes "pod") (c ∷ cs))) [ none ↦ rest | some uid ↦ some uid ]
