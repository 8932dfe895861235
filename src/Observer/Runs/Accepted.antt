-- ===== src/Observer/Runs/Accepted.antt =====
-- The events that a run of the event processor of crates/observer/src/lib.rs emits, and the
-- validation of their batch in crates/schema/src/lib.rs.
use mongodb_dam.Common.{
  ℕ, zero, suc, ◌+◌, ◌%◌, ◌^◌, ◌<◌, ◌≡◌, refl, sym, subst, arith, false, Bytes, List, [], ◌∷◌,
  length,
}
use mongodb_dam.Common.Outcome.{ok}
use mongodb_dam.Common.Space.{is_blank}
use mongodb_dam.Protocol.Libraries.{Libraries}
use mongodb_dam.Schema.Types.{DamEvent, DamBatch}
use mongodb_dam.Schema.Validate.{validate}
use mongodb_dam.Schema.Validate.Accepts.{AreEvents, validate_iff}
use mongodb_dam.Observer.State.{EventProcessor, ProcessorConfig, new_processor}
use mongodb_dam.Observer.Sound.{next, IsValid, AllEvents, Emits, Sound, advance, advance-length}
use mongodb_dam.Observer.Sound.Process.{process-Sound, AllEvents-append}
use mongodb_dam.Observer.Runs.{Run, done, emit, fail}

pub advance-mod : (count n : ℕ) → n < 2 ^ 64 → advance count n ≡ (n + count) % 2 ^ 64
advance-mod zero n h = omega arith
advance-mod (suc count) n h = omega (arith, advance-mod count ((n + 1) % 2 ^ 64))

-- The configuration names what a batch has to name.
pub record IsNamed (config : ProcessorConfig) : Type 0 where
  pub customer : is_blank config.customer_id ≡ false
  pub tenant : is_blank config.tenant_id ≡ false
  pub source : is_blank config.source_id ≡ false
  pub cell : is_blank config.regional_cell_id ≡ false
  pub sensor : is_blank config.sensor_id ≡ false
  pub node : is_blank config.node_name ≡ false

module _ {Time : Type 0} (L : Libraries) (config : ProcessorConfig) where
  pub new-IsValid : IsValid L config 0 (new_processor {Time = Time} config)
  new-IsValid = record {
    configured = refl;
    sequence = refl;
    streams = tt;
    pending = tt;
    pending_bound = omega arith;
    pending_dns_bound = omega arith;
    connections = tt;
  }

  Run-Emits :
      {p q : EventProcessor Time L.Value} {events : List (DamEvent Time L.Value)} (n : ℕ)
      → IsValid L config n p
      → Run L p events q
      → Emits L config n (events, q)
  Run-Emits n v (done p) = record { events = tt; after = v }
  Run-Emits n v (emit host captured {q = q} {events = events} {more = more} ran run) =
      let now = subst (Sound L config n) ran (process-Sound L host config n _ captured v) in
      let later = Run-Emits (advance (length events) n) now.after run in
      record {
        events = AllEvents-append L host config n events more now.events later.events;
        after = subst (λ k. IsValid L config k q) (sym (advance-length events more n)) later.after;
      }
  Run-Emits n v (fail host captured ran run) =
      Run-Emits n (subst (Sound L config n) ran (process-Sound L host config n _ captured v)) run

  -- From a new processor on, whatever the kernel reports and whatever the host is like then, each
  -- event of a run has the identity and the sensor of the configuration, carries a query only if the
  -- configuration allows it, names a principal only by the digest of the configured salt and it, and
  -- is named by the digest that contains its number in the run, modulo 2 to the 64. The sequence
  -- number of the processor is the number of the events, and the state that is left is in order.
  pub new_processor-Emits :
      (q : EventProcessor Time L.Value) (events : List (DamEvent Time L.Value))
      → Run L (new_processor config) events q
      → AllEvents L config 0 events × IsValid L config (length events % 2 ^ 64) q
  new_processor-Emits q events run =
      let made = Run-Emits 0 new-IsValid run in
      (
        made.events,
        subst (λ k. IsValid L config k q)
            (omega (arith, advance-mod (length events) 0 (omega arith))) made.after,
      )

  AllEvents-AreEvents :
      (n : ℕ) (batch : DamBatch Time L.Value) (events : List (DamEvent Time L.Value))
      → IsNamed config
      → batch.customer_id ≡ config.customer_id
      → batch.tenant_id ≡ config.tenant_id
      → batch.source_id ≡ config.source_id
      → batch.regional_cell_id ≡ config.regional_cell_id
      → AllEvents L config n events
      → AreEvents batch events
  AllEvents-AreEvents n batch [] named c t s r all = tt
  AllEvents-AreEvents n batch (e ∷ events) named c t s r (p, all) = (
    record {
      version = p.version;
      event_named = p.event_id;
      sensor_named = subst (λ id. is_blank id ≡ false) (sym p.capture.sensor) named.sensor;
      node_named = subst (λ id. is_blank id ≡ false) (sym p.capture.node) named.node;
      same_customer = cc;
      same_tenant = cc;
      same_source = cc;
      same_cell = cc;
      captured = p.captured;
    },
    AllEvents-AreEvents (next n) batch events named c t s r all,
  )

  -- The batch of the configuration with some events.
  abbrev pub batch_of : Bytes → Time → List (DamEvent Time L.Value) → DamBatch Time L.Value
  batch_of batch_id created_at events = record {
    schema_version = 1;
    batch_id = batch_id;
    customer_id = config.customer_id;
    tenant_id = config.tenant_id;
    source_id = config.source_id;
    regional_cell_id = config.regional_cell_id;
    created_at = created_at;
    events = events;
  }

  -- Where the configuration names the customer, the tenant, the source, the cell, the sensor and the
  -- node, `validate` accepts each batch that has these, a batch identifier that is not blank, and the
  -- events of a run of the processor, one at least.
  pub validate-Run :
      (q : EventProcessor Time L.Value) (event : DamEvent Time L.Value)
      (events : List (DamEvent Time L.Value)) (batch_id : Bytes) (created_at : Time)
      → IsNamed config
      → is_blank batch_id ≡ false
      → Run L (new_processor config) (event ∷ events) q
      → validate (batch_of batch_id created_at (event ∷ events)) ≡ ok tt
  validate-Run q event events batch_id created_at named id run =
      let batch = batch_of batch_id created_at (event ∷ events) in
      (validate_iff batch).1 (record {
        version = refl;
        batch_named = id;
        customer_named = named.customer;
        tenant_named = named.tenant;
        source_named = named.source;
        cell_named = named.cell;
        has_events = refl;
        events =
            AllEvents-AreEvents 0 batch (event ∷ events) named refl refl refl refl
              (new_processor-Emits q (event ∷ events) run).0;
      })
