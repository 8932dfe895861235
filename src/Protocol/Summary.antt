-- ===== src/Protocol/Summary.antt =====
-- The metadata that is kept of a command or a reply, and the command that is made of it:
-- crates/mongo-protocol/src/lib.rs.
pub mod Fields
use mongodb_dam.Common.{
  ℕ, ◌==◌, Bool, true, false, ◌&&◌, ◌||◌, Option, none, some, Bytes, List, [], ◌∷◌, codes, one_of,
  bytes_eq, to_ascii_lowercase, if◌then◌else◌,
}
use mongodb_dam.Common.Int.{ℤ}
use mongodb_dam.Protocol.Types.{DeleteScope, MongoCommand, ResponseStatus}

pub record BsonSummary (Value : Type 0) : Type 0 where
  pub first_key : Option Bytes
  pub first_string : Option Bytes
  pub database : Option Bytes
  pub collection : Option Bytes
  pub ok : Option Bool
  pub code : Option ℤ
  pub code_name : Option Bytes
  pub auth_mechanism : Option Bytes
  pub principal : Option Bytes
  pub speculative_auth : Bool
  pub delete_scope : Option DeleteScope
  pub delete_statements : Option ℕ
  pub affected_count : Option ℕ
  pub auth_done : Option Bool
  pub query : Option Value

-- `BsonSummary::default`
abbrev pub default_summary : {Value : Type 0} → BsonSummary Value
default_summary = record {
  first_key = none;
  first_string = none;
  database = none;
  collection = none;
  ok = none;
  code = none;
  code_name = none;
  auth_mechanism = none;
  principal = none;
  speculative_auth = false;
  delete_scope = none;
  delete_statements = none;
  affected_count = none;
  auth_done = none;
  query = none;
}

unfoldable pub command_captures_query : Bytes → Bool
unfolding one_of
command_captures_query = one_of ("find" ∷ "aggregate" ∷ "insert" ∷ "update" ∷ "delete" ∷ [])

unfoldable pub command_has_collection_argument : Bytes → Bool
unfolding one_of
command_has_collection_argument = one_of (
    "aggregate" ∷ "clonecollectionascapped" ∷ "collmod" ∷ "compact" ∷ "converttocapped" ∷ "count"
    ∷ "create" ∷ "createindexes" ∷ "delete" ∷ "distinct" ∷ "drop" ∷ "dropindexes" ∷ "emptycapped"
    ∷ "find" ∷ "findandmodify" ∷ "geosearch" ∷ "getmore" ∷ "insert" ∷ "killcursors" ∷ "listindexes"
    ∷ "mapreduce" ∷ "parallelcollectionscan" ∷ "renamecollection" ∷ "update" ∷ "validate" ∷ [])

unfoldable pub command_has_principal_argument : Bytes → Bool
unfolding one_of
command_has_principal_argument = one_of (
    "createuser" ∷ "dropuser" ∷ "grantrolestouser" ∷ "revokerolesfromuser" ∷ "updateuser"
    ∷ "usersinfo" ∷ [])

-- `Option::or`
abbrev pub or_else {ℓ} : {A : Type ℓ} → Option A → Option A → Option A
or_else (some a) other = some a
or_else none other = other

-- `condition.then_some(option).flatten()`
abbrev pub only_if {ℓ} : {A : Type ℓ} → Bool → Option A → Option A
only_if true o = o
only_if false o = none

-- Whether the first key, in lower case, is a command whose query is captured.
unfoldable pub captures_query : Option Bytes → Bool
unfolding command_captures_query
captures_query none = false
captures_query (some command) = command_captures_query (to_ascii_lowercase command)

module _ {Value : Type 0} where
  named_command : BsonSummary Value → Bytes → Bytes → MongoCommand Value
  named_command summary name normalized = record {
    name = name;
    database = summary.database;
    collection =
        only_if (command_has_collection_argument normalized)
          (or_else summary.first_string summary.collection);
    auth_mechanism = summary.auth_mechanism;
    principal =
        or_else summary.principal
          (only_if (command_has_principal_argument normalized) summary.first_string);
    speculative_auth = summary.speculative_auth;
    delete_scope = only_if (bytes_eq normalized (codes "delete")) summary.delete_scope;
    delete_statements = only_if (bytes_eq normalized (codes "delete")) summary.delete_statements;
    query = summary.query;
  }

  unfoldable pub command_from_summary : BsonSummary Value → Option (MongoCommand Value)
  unfolding named_command command_has_collection_argument command_has_principal_argument bytes_eq
  command_from_summary summary = elim summary.first_key [
    | none ↦ none
    | some name ↦ some (named_command summary name (to_ascii_lowercase name))
  ]

  -- `Some(ResponseStatus { ok: summary.ok, … })`
  abbrev pub status_of : BsonSummary Value → ResponseStatus
  status_of summary = record {
    ok = summary.ok;
    code = summary.code;
    code_name = summary.code_name;
    affected_count = summary.affected_count;
    auth_done = summary.auth_done;
  }
