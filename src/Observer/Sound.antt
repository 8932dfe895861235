-- ===== src/Observer/Sound.antt =====
-- The state of the event processor of crates/observer/src/lib.rs between two calls, and the events
-- that it emits.
pub mod Metadata
pub mod Pending
pub mod Requests
pub mod Handlers
pub mod DnsQueries
pub mod Process
use mongodb_dam.Common.{
  ℕ, zero, suc, ◌+◌, ◌%◌, ◌^◌, ◌≤◌, ◌<◌, ◌≡◌, refl, arith, Bool, true, false, Option, none, some,
  Bytes, List, [], ◌∷◌, ◌++◌, length, take, codes,
}
use mongodb_dam.Common.Maps.{AllEntries}
use mongodb_dam.Common.Outcome.{Outcome, ok, err, panic, spent, OnSome}
use mongodb_dam.Common.Space.{is_blank}
use mongodb_dam.Common.Numerals.{le_bytes}
use mongodb_dam.Protocol.Libraries.{Libraries}
use mongodb_dam.Protocol.Stream.Retention.{Retains}
use mongodb_dam.Schema.Types.{
  DamEvent, EventPayload, mongodb_activity, mongodb_auth, CaptureMetadata,
}
use mongodb_dam.Schema.Validate.{is_some}
use mongodb_dam.Schema.Validate.Accepts.{IsCaptured}
use mongodb_dam.Observer.State.{
  ProcessorConfig, EventProcessor, ProcessError, EventSeed, PendingRequest, ConnectionState,
  RequestKey, max_capture_bytes, max_pending_requests,
}
use mongodb_dam.Observer.DnsQueries.{max_pending_dns}
use mongodb_dam.Observer.Events.{Event, Processor}
use mongodb_dam.Observer.Requests.{Request}
use mongodb_dam.Observer.Messages.{Processed}

module _ (L : Libraries) (config : ProcessorConfig) where
  -- What the processor keeps and emits in place of a principal: the digest of the configured salt, a
  -- zero byte and the principal.
  pub record IsHashed (text : Bytes) : Type 0 where
    pub salt : Bytes
    pub principal : Bytes
    pub configured : config.principal_hash_salt ≡ some salt
    pub made : text ≡ codes "sha256:" ++ L.hex_encode (L.sha256 (salt ++ (0 ∷ principal)))

  -- Queries stand in an event only if the configuration says so, and principals only hashed.
  abbrev pub IsPrivate : {Value : Type 0} → EventPayload Value → Type 0
  IsPrivate (mongodb_activity activity) =
      (is_some activity.query ≡ true → config.capture_query_content ≡ true)
      × OnSome IsHashed activity.principal
  IsPrivate (mongodb_auth auth) = OnSome IsHashed auth.principal
  IsPrivate _ = Unit

  pub record IsCapture (capture : CaptureMetadata) : Type 0 where
    pub sensor : capture.sensor_id ≡ config.sensor_id
    pub node : capture.node_name ≡ config.node_name

  -- A seed that no query has been added to.
  pub record IsSeed {Time : Type 0} (s : EventSeed Time) : Type 0 where
    pub capture : IsCapture s.capture
    pub metadata_only : s.capture.metadata_only ≡ true

  pub record IsRequest {Time Value : Type 0} (r : PendingRequest Time Value) : Type 0 where
    pub no_principal : r.command.principal ≡ none
    pub target : OnSome IsHashed r.target_principal_hash
    pub actor : OnSome IsHashed r.actor_principal_hash
    pub seed : IsSeed r.seed

  pub record IsConnection (state : ConnectionState) : Type 0 where
    pub authenticated : OnSome IsHashed state.authenticated_principal_hash
    pub pending : OnSome IsHashed state.pending_auth_principal_hash

-- The sequence number behind one event, which wraps around.
abbrev pub next : ℕ → ℕ
next n = (n + 1) % 2 ^ 64

-- The sequence number behind `count` events.
abbrev pub advance : ℕ → ℕ → ℕ
advance zero n = n
advance (suc count) n = advance count ((n + 1) % 2 ^ 64)

pub advance-length :
    {A : Type 0} (xs ys : List A) (n : ℕ)
    → advance (length (xs ++ ys)) n ≡ advance (length ys) (advance (length xs) n)
advance-length [] ys n = refl
advance-length (x ∷ xs) ys n = advance-length xs ys ((n + 1) % 2 ^ 64)

module _ {Time : Type 0} (L : Libraries) (config : ProcessorConfig) where
  -- The event with the sequence number `n`: its identifier is the digest of the sensor, the time and
  -- the number.
  pub record IsEventOf (n : ℕ) (e : DamEvent Time L.Value) : Type 0 where
    pub version : e.schema_version ≡ 1
    pub numbered :
        e.event_id
        ≡ codes "evt-"
          ++ L.hex_encode (
              take 16 (
                L.sha256
                  (config.sensor_id ++ (le_bytes 8 e.monotonic_timestamp_ns ++ le_bytes 8 n))))
    pub event_id : is_blank e.event_id ≡ false
    pub customer : e.customer_id ≡ config.customer_id
    pub tenant : e.tenant_id ≡ config.tenant_id
    pub source : e.source_id ≡ config.source_id
    pub cell : e.regional_cell_id ≡ config.regional_cell_id
    pub capture : IsCapture L config e.capture
    pub captured : IsCaptured e.capture.metadata_only e.payload
    pub private : IsPrivate L config e.payload
    pub no_identity : e.identity ≡ none

  -- Events that follow the sequence number `n`.
  abbrev pub AllEvents : ℕ → List (DamEvent Time L.Value) → Type 0
  AllEvents n [] = Unit
  AllEvents n (e ∷ events) = IsEventOf (next n) e × AllEvents (next n) events

  -- A processor with the configuration, and with `n` for its sequence number. The decoders keep less
  -- than the prefix that is captured, and the maps are bounded.
  pub record IsValid (n : ℕ) (p : EventProcessor Time L.Value) : Type 0 where
    pub configured : p.config ≡ config
    pub sequence : p.sequence ≡ n
    pub streams : AllEntries (λ _ d. Retains L max_capture_bytes d) p.streams
    pub pending : AllEntries (λ _ r. IsRequest L config r) p.pending
    pub pending_bound : length p.pending ≤ max_pending_requests
    pub pending_dns_bound : length p.pending_dns ≤ max_pending_dns
    pub connections : AllEntries (λ _ state. IsConnection L config state) p.connections

  -- The events are right, and the processor is behind them.
  pub record Emits (n : ℕ) (r : List (DamEvent Time L.Value) × EventProcessor Time L.Value)
      : Type 0 where
    pub events : AllEvents n r.0
    pub after : IsValid (advance (length r.0) n) r.1

  -- A call returns; behind an error, the sequence number is the same.
  abbrev pub Sound :
      ℕ → Outcome ProcessError (List (DamEvent Time L.Value)) × EventProcessor Time L.Value → Type 0
  Sound n (ok events, p) = Emits n (events, p)
  Sound n (err e, p) = IsValid n p
  Sound n (panic, p) = ⊥
  Sound n (spent, p) = ⊥
