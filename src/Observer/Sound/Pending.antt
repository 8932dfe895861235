-- ===== src/Observer/Sound/Pending.antt =====
-- The bounds of the maps of the event processor of crates/observer/src/lib.rs.
use mongodb_dam.Common.{
  ℕ, ◌-◌, ◌≤◌, ◌<◌, ◌≡◌, ◌⊎◌, refl, subst, arith, Bool, true, ◌||◌, ◌&&◌, ◌==◌, [], ◌∷◌, length,
  Bool-cases, inl, inr, ltb, leb,
}
use mongodb_dam.Common.Int.{ℤ, pos, negsuc, int_eq}
use mongodb_dam.Common.Maps.{
  AllEntries, remove, retain, length-retain, retain-AllEntries, remove-AllEntries,
  insert-AllEntries, length-insert, length-remove_hit, length-remove_cons,
}
use mongodb_dam.Protocol.Libraries.{Libraries}
use mongodb_dam.Observer.State.{
  RequestKey, Host, ProcessorConfig, max_pending_requests, pending_request_ttl_ns,
}
use mongodb_dam.Observer.Events.{Processor}
use mongodb_dam.Observer.Requests.{
  same_request, Request, Pending, earlier, oldest_of, remove_oldest, pruned, prune_pending_requests,
}
use mongodb_dam.Observer.Messages.{add_pending}
use mongodb_dam.Observer.Sound.{IsRequest, IsValid}

int_eq_refl : (v : ℤ) → int_eq v v ≡ true
int_eq_refl (pos n) = ground arith
int_eq_refl (negsuc n) = ground arith

pub same_request_refl : (k : RequestKey) → same_request k k ≡ true
same_request_refl (a, b, c) = ground (arith, int_eq_refl c)

module _ {Time : Type 0} (L : Libraries) (host : Host Time) where
  -- The key that is found stands in front, or among the entries.
  abbrev Finds : RequestKey × ℕ → RequestKey → Pending L host → Type 0
  Finds best key entries =
      (key ≡ best.0) ⊎ (length (remove same_request key entries) < length entries)

  Finds-cons :
      (best next : RequestKey × ℕ) (key k : RequestKey) (request : Request L host)
      (entries : Pending L host)
      → (next.0 ≡ best.0) ⊎ (next.0 ≡ k)
      → Finds next key entries
      → Finds best key ((k, request) ∷ entries)
  Finds-cons best next key k request entries (inl same) (inl e) = inl (cc)
  Finds-cons best next key k request entries (inr same) (inl e) = inr (
      omega (
        arith,
        length-remove_hit same_request key k request entries
            (subst (λ j. same_request key j ≡ true) (cc) (same_request_refl key)),
      ))
  Finds-cons best next key k request entries _ (inr shorter) =
      inr (omega (arith, length-remove_cons same_request key k request entries))

  earlier-key :
      (x y : RequestKey × ℕ) → ((earlier L host x y).0 ≡ x.0) ⊎ ((earlier L host x y).0 ≡ y.0)
  earlier-key (k, t) (j, u) =
      elim (Bool-cases (ltb t u || (t == u && leb (host.rank k) (host.rank j)))) [
        | inl before ↦ inl (rw before refl)
        | inr behind ↦ inr (rw behind refl)
      ]

  oldest_of-Finds :
      (best : RequestKey × ℕ) (entries : Pending L host)
      → Finds best (oldest_of L host best entries).0 entries
  unfolding oldest_of
  oldest_of-Finds best [] = inl refl
  oldest_of-Finds best ((k, request) ∷ entries) =
      let entry : RequestKey × ℕ = (k, request.seed.monotonic_timestamp_ns) in
      Finds-cons best (earlier L host best entry) _ k request entries (earlier-key best entry)
        (oldest_of-Finds (earlier L host best entry) entries)

  remove_oldest-shrinks :
      (pending : Pending L host)
      → 0 < length pending
      → length (remove_oldest L host pending) < length pending
  unfolding remove_oldest
  remove_oldest-shrinks [] h = h
  remove_oldest-shrinks ((k, request) ∷ entries) h =
      let entry : RequestKey × ℕ = (k, request.seed.monotonic_timestamp_ns) in
      let key = (oldest_of L host entry entries).0 in
      elim (oldest_of-Finds entry entries) [
        | inl e ↦ omega (
          arith,
          length-remove_hit same_request key k request entries
              (subst (λ j. same_request key j ≡ true) e (same_request_refl key)),
        )
        | inr shorter ↦ omega (arith, length-remove_cons same_request key k request entries)
      ]

  -- Behind `prune_pending_requests` there is room for one more request.
  pub pruned-below :
      (pending : Pending L host) (now_ns : ℕ)
      → length pending ≤ max_pending_requests
      → length (pruned L host pending now_ns) < max_pending_requests
  unfolding pruned
  pruned-below pending now_ns h =
      let recent =
        retain
          (λ _ (request : Request L host).
            leb (now_ns - pending_request_ttl_ns) request.seed.monotonic_timestamp_ns)
          pending in
      ground (
        arith,
        length-retain
            (λ (_ : RequestKey) (request : Request L host).
              leb (now_ns - pending_request_ttl_ns) request.seed.monotonic_timestamp_ns)
            pending,
        remove_oldest-shrinks recent,
      )

  module _ (P : RequestKey → Request L host → Type 0) where
    remove_oldest-AllEntries :
        (pending : Pending L host)
        → AllEntries P pending
        → AllEntries P (remove_oldest L host pending)
    unfolding remove_oldest
    remove_oldest-AllEntries [] all = tt
    remove_oldest-AllEntries ((k, request) ∷ entries) all =
        remove-AllEntries same_request P _ ((k, request) ∷ entries) all

    pub pruned-AllEntries :
        (pending : Pending L host) (now_ns : ℕ)
        → AllEntries P pending
        → AllEntries P (pruned L host pending now_ns)
    unfolding pruned
    pruned-AllEntries pending now_ns all =
        let keep : RequestKey → Request L host → Bool =
          λ _ request. leb (now_ns - pending_request_ttl_ns) request.seed.monotonic_timestamp_ns in
        let recent = retain-AllEntries P keep pending all in
        elim (Bool-cases (ltb (length pending) max_pending_requests)) [
          | inl room ↦ rw room all
          | inr full ↦ elim (Bool-cases (leb max_pending_requests (length (retain keep pending)))) [
            | inl crowded ↦ rw (full, crowded) (remove_oldest-AllEntries _ recent)
            | inr aged ↦ rw (full, aged) recent
          ]
        ]

  module _ (config : ProcessorConfig) where
    pub add_pending-IsValid :
        (n : ℕ) (p : Processor L host) (timestamp_ns : ℕ) (request : Request L host)
        → IsValid L config n p
        → IsRequest L config request
        → IsValid L config n (add_pending L host p timestamp_ns request)
    unfolding add_pending prune_pending_requests
    add_pending-IsValid n p timestamp_ns request v r = record {
      configured = v.configured;
      sequence = v.sequence;
      streams = v.streams;
      pending =
          insert-AllEntries same_request (λ _ s. IsRequest L config s) _ request
            (pruned L host p.pending timestamp_ns) r
            (pruned-AllEntries (λ _ s. IsRequest L config s) p.pending timestamp_ns v.pending);
      pending_bound = omega (
        arith,
        length-insert same_request
            (request.connection_state_key.0, request.connection_state_key.1, request.request_id)
            request (pruned L host p.pending timestamp_ns),
        pruned-below p.pending timestamp_ns v.pending_bound,
      );
      pending_dns_bound = v.pending_dns_bound;
      connections = v.connections;
    }
