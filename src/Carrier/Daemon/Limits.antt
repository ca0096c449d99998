-- ===== src/Carrier/Daemon/Limits.antt =====
-- What holds of the daemon after any sequence of events.
use claw_mem.Prelude.{
  length, ◌≤◌, ◌≡◌, true, false, leb, Bool-cases, keep_if, length-append, includes, ◌<◌, String,
  refl, inl, inr, Bool, Option, List, [], ◌∷◌, ◌++◌, arith, ◌==◌, eq_iff, length-keep_if-le,
  if_both, not, none, some,
}
use claw_mem.Backup.Detect.{remove}
use claw_mem.Carrier.Monitor.Transitions.{Distinct}
use claw_mem.Carrier.Daemon.{
  Event, started, halted, requested, settled, polled, CarrierDaemonConfig, CarrierDaemon,
  trim_history, add_request, add_requests, settle, CarrierResurrectionRecord, PendingRequest,
  key_of, AddRequestResult, handle, handle_all, new_daemon, start_daemon, Event, stop_daemon,
  requested, settled, polled,
}

module _ (cfg : CarrierDaemonConfig) where
  pub record IsValid (d : CarrierDaemon) : Type 0 where
    pub at_most : length d.active_resurrections ≤ cfg.max_concurrent_resurrections
    pub distinct : Distinct d.active_resurrections
    pub short : length d.history ≤ 100
    pub signal : d.running ≡ true → d.aborted ≡ false

  includes-keep_if :
      (p : String → Bool) (x : String) (xs : List String)
      → includes xs x ≡ false
      → includes (keep_if p xs) x ≡ false
  includes-keep_if p x [] h = refl
  includes-keep_if p x (y ∷ xs) h = ground (arith, includes-keep_if p x xs)

  keep_if-Distinct : (p : String → Bool) (xs : List String) → Distinct xs → Distinct (keep_if p xs)
  keep_if-Distinct p [] d = tt
  keep_if-Distinct p (x ∷ xs) d = elim (Bool-cases (p x)) [
    | inl h ↦ rw h (includes-keep_if p x xs d.0, keep_if-Distinct p xs d.1)
    | inr h ↦ rw h (keep_if-Distinct p xs d.1)
  ]

  includes-append_other :
      (xs : List String) (x y : String)
      → includes xs x ≡ false
      → (y == x) ≡ false
      → includes (xs ++ (y ∷ [])) x ≡ false
  includes-append_other [] x y h n = rw n refl
  includes-append_other (z ∷ xs) x y h n = ground (arith, includes-append_other xs x y)

  append-Distinct :
      (xs : List String) (y : String)
      → Distinct xs
      → includes xs y ≡ false
      → Distinct (xs ++ (y ∷ []))
  append-Distinct [] y d h = (refl, tt)
  append-Distinct (x ∷ xs) y d h = (
    includes-append_other xs x y d.0 (ground (arith, eq_iff x y, eq_iff y x)),
    append-Distinct xs y d.1 (ground arith),
  )

  length-trim_history : (rs : List CarrierResurrectionRecord) → length (trim_history rs) ≤ 100
  unfolding trim_history
  length-trim_history [] = omega arith
  length-trim_history (r ∷ rs) = ground (arith, length-trim_history rs)

  accept-IsValid :
      (key : String) (d : CarrierDaemon)
      → IsValid d
      → includes d.active_resurrections key ≡ false
      → leb cfg.max_concurrent_resurrections (length d.active_resurrections) ≡ false
      → IsValid (record d { active_resurrections = d.active_resurrections ++ (key ∷ []) })
  accept-IsValid key d v other free =
      let below : length d.active_resurrections < cfg.max_concurrent_resurrections = ground arith in
      record {
        at_most = omega (arith, length-append d.active_resurrections (key ∷ []), below);
        distinct = append-Distinct d.active_resurrections key v.distinct other;
        short = v.short;
        signal = v.signal;
      }

  add_request-IsValid :
      (r : PendingRequest) (d : CarrierDaemon) → IsValid d → IsValid (add_request cfg r d).1
  unfolding add_request
  add_request-IsValid r d v =
      if_both (λ (t : AddRequestResult × CarrierDaemon). IsValid t.1) (not d.running) _ _ (λ _. v)
        (λ _.
          if_both (λ (t : AddRequestResult × CarrierDaemon). IsValid t.1)
            (includes d.active_resurrections (key_of r)) _ _ (λ _. v)
            (λ other.
              if_both (λ (t : AddRequestResult × CarrierDaemon). IsValid t.1)
                (leb cfg.max_concurrent_resurrections (length d.active_resurrections)) _ _ (λ _. v)
                (λ free. accept-IsValid (key_of r) d v other free)))

  add_requests-IsValid :
      (rs : List PendingRequest) (d : CarrierDaemon) → IsValid d → IsValid (add_requests cfg rs d)
  unfolding add_requests
  add_requests-IsValid [] d v = v
  add_requests-IsValid (r ∷ rs) d v =
      add_requests-IsValid rs (add_request cfg r d).1 (add_request-IsValid r d v)

  released-IsValid :
      (key : String) (h : List CarrierResurrectionRecord) (d : CarrierDaemon)
      → IsValid d
      → length h ≤ 100
      → IsValid (record d { active_resurrections = remove key d.active_resurrections; history = h })
  unfolding remove
  released-IsValid key h d v n = record {
    at_most =
        omega (arith, length-keep_if-le (λ q. not (key == q)) d.active_resurrections, v.at_most);
    distinct = keep_if-Distinct _ d.active_resurrections v.distinct;
    short = n;
    signal = v.signal;
  }

  settle-IsValid :
      (r : PendingRequest) (x : Option CarrierResurrectionRecord) (d : CarrierDaemon)
      → IsValid d
      → IsValid (settle cfg r x d)
  unfolding settle
  settle-IsValid r none d v = released-IsValid (key_of r) d.history d v v.short
  settle-IsValid r (some x) d v =
      released-IsValid (key_of r) _ d v (length-trim_history (d.history ++ (x ∷ [])))

  handle-IsValid : (e : Event) (d : CarrierDaemon) → IsValid d → IsValid (handle cfg e d)
  unfolding handle start_daemon stop_daemon
  handle-IsValid started d v =
      if_both IsValid d.running _ _ (λ _. v)
        (λ _. add_requests-IsValid cfg.pending_request_ids _ (record {
          at_most = v.at_most;
          distinct = v.distinct;
          short = v.short;
          signal = λ _. refl;
        }))
  handle-IsValid halted d v =
      if_both IsValid (not d.running) _ _ (λ _. v)
        (λ _. record {
          at_most = v.at_most;
          distinct = v.distinct;
          short = v.short;
          signal = λ h. cc;
        })
  handle-IsValid (requested r) d v = add_request-IsValid r d v
  handle-IsValid (settled r x) d v = settle-IsValid r x d v
  handle-IsValid (polled status) d v = record {
    at_most = v.at_most;
    distinct = v.distinct;
    short = v.short;
    signal = v.signal;
  }

  handle_all-keeps :
      (es : List Event) (d : CarrierDaemon) → IsValid d → IsValid (handle_all cfg es d)
  unfolding handle_all
  handle_all-keeps [] d v = v
  handle_all-keeps (e ∷ es) d v = handle_all-keeps es (handle cfg e d) (handle-IsValid e d v)

  -- After any sequence of starts, stops, requests, polls and ends of flows: no more resurrections are
  -- active than the configuration allows, none is active twice, at most 100 are remembered, and the
  -- shutdown signal of a running daemon is not raised.
  pub handle_all-IsValid : (es : List Event) → IsValid (handle_all cfg es (new_daemon cfg))
  unfolding new_daemon
  handle_all-IsValid es =
      handle_all-keeps es (new_daemon cfg)
        (record { at_most = omega arith; distinct = tt; short = omega arith; signal = λ h. cc })
