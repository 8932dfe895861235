-- ===== src/Observer/Runs.antt =====
-- Calls of `EventProcessor::process`, crates/observer/src/lib.rs, one after the other, with what
-- they return: each sees the host as it is then.
pub mod Accepted
use mongodb_dam.Common.{ℕ, ◌≡◌, List, [], ◌++◌}
use mongodb_dam.Common.Outcome.{ok, err}
use mongodb_dam.Protocol.Libraries.{Libraries}
use mongodb_dam.Schema.Types.{DamEvent}
use mongodb_dam.Observer.State.{CapturedKernelEvent, Host, EventProcessor, ProcessError}
use mongodb_dam.Observer.Processor.{process}

module _ {Time : Type 0} (L : Libraries) where
  -- From one processor to another, with the events that the calls return.
  pub data Run
      : EventProcessor Time L.Value
        → List (DamEvent Time L.Value)
        → EventProcessor Time L.Value
        → Type 0 where
    done : (p : EventProcessor Time L.Value) → Run p [] p
    emit :
        (host : Host Time) (captured : CapturedKernelEvent) {p p' q : EventProcessor Time L.Value}
        {events more : List (DamEvent Time L.Value)}
        → process L host p captured ≡ (ok events, p')
        → Run p' more q
        → Run p (events ++ more) q
    fail :
        (host : Host Time) (captured : CapturedKernelEvent) {p p' q : EventProcessor Time L.Value}
        {more : List (DamEvent Time L.Value)} {e : ProcessError}
        → process L host p captured ≡ (err e, p')
        → Run p' more q
        → Run p more q
