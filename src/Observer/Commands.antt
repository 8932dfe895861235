-- ===== src/Observer/Commands.antt =====
-- The helpers of crates/observer/src/lib.rs that classify commands and hash principals.
use mongodb_dam.Common.{
  ℕ, ◌==◌, Bool, true, false, ◌||◌, Option, none, some, Bytes, [], ◌∷◌, ◌++◌, if◌then◌else◌, one_of,
  to_ascii_lowercase, codes,
}
use mongodb_dam.Protocol.Types.{MongoCommand, DeleteScope, single, multi, mixed}
use mongodb_dam.Schema.Types.{
  CaptureSource, cleartext_syscall, open_ssl_uprobe, user_uprobe, kernel_tracepoint, perf_event,
  sensor,
}
use mongodb_dam.Protocol.Libraries.{Libraries}

abbrev pub capture_source : ℕ → CaptureSource
capture_source source =
    if source == 1
    then cleartext_syscall
    else if source == 2
    then open_ssl_uprobe
    else if source == 3
    then kernel_tracepoint
    else if source == 4
    then perf_event
    else if source == 5
    then user_uprobe
    else sensor

unfoldable pub is_session_auth_command : Bytes → Bool
unfolding one_of
is_session_auth_command command =
    one_of ("saslstart" ∷ "saslcontinue" ∷ "authenticate" ∷ "getnonce" ∷ [])
      (to_ascii_lowercase command)

unfoldable pub is_user_management_command : Bytes → Bool
unfolding one_of
is_user_management_command command =
    one_of
      ("createuser" ∷ "dropuser" ∷ "grantrolestouser" ∷ "revokerolesfromuser" ∷ "updateuser"
        ∷ "usersinfo" ∷ [])
      (to_ascii_lowercase command)

abbrev pub is_auth_command : Bytes → Bool
is_auth_command command = is_session_auth_command command || is_user_management_command command

-- `value == Some(wanted)`
abbrev pub is_bool : Bool → Option Bool → Bool
is_bool wanted none = false
is_bool true (some b) = b
is_bool false (some true) = false
is_bool false (some false) = true

abbrev pub delete_scope_name : DeleteScope → Bytes
delete_scope_name single = codes "single"
delete_scope_name multi = codes "multi"
delete_scope_name mixed = codes "mixed"

module _ {Value : Type 0} where
  abbrev pub command_carries_authentication : MongoCommand Value → Bool
  command_carries_authentication command =
      command.speculative_auth || is_session_auth_command command.name

  unfoldable pub authentication_exchange_completed : MongoCommand Value → Option Bool → Bool
  unfolding one_of
  authentication_exchange_completed command auth_done =
      if command.speculative_auth
      then is_bool true auth_done
      else if one_of ("saslstart" ∷ "saslcontinue" ∷ []) (to_ascii_lowercase command.name)
      then is_bool true auth_done
      else one_of ("authenticate" ∷ []) (to_ascii_lowercase command.name)

module _ (L : Libraries) where
  abbrev pub hash_principal : Bytes → Bytes → Bytes
  hash_principal salt principal =
      codes "sha256:" ++ L.hex_encode (L.sha256 (salt ++ (0 ∷ principal)))

  -- `principal.and_then(|principal| salt.map(…))`
  abbrev pub hashed : Option Bytes → Option Bytes → Option Bytes
  hashed (some principal) (some salt) = some (hash_principal salt principal)
  hashed _ _ = none

  -- The hash, and the command without its principal.
  abbrev pub take_hashed_principal :
      {Value : Type 0} → MongoCommand Value → Option Bytes → Option Bytes × MongoCommand Value
  take_hashed_principal command salt =
      (hashed command.principal salt, record command { principal = none })
