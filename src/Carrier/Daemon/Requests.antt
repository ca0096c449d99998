-- ===== src/Carrier/Daemon/Requests.antt =====
-- From a request of a resurrection to its end.
use claw_mem.Prelude.{
  ap, ◌≢◌, ◌∙◌, eq_refl, length, ◌≡◌, true, false, leb, includes, ◌<◌, String, refl, Option, List,
  [], ◌∷◌, ◌++◌, arith, ◌==◌, eq_iff, if_both, ◌↔◌, not, none, some,
}
use claw_mem.Backup.Detect.{remove}
use claw_mem.Carrier.Daemon.{
  CarrierDaemonConfig, CarrierDaemon, add_request, settle, CarrierResurrectionRecord,
  PendingRequest, key_of, AddRequestResult, accepted, already_processing,
}

module _ (cfg : CarrierDaemonConfig) where
  -- A request is accepted exactly when the daemon runs, the request is not active already and fewer
  -- resurrections are active than the configuration allows.
  add_request-accepted :
      (r : PendingRequest) (d : CarrierDaemon)
      → ((add_request cfg r d).0 ≡ accepted) ↔ (
          (d.running ≡ true)
          × (includes d.active_resurrections (key_of r) ≡ false)
          × (length d.active_resurrections < cfg.max_concurrent_resurrections))
  unfolding add_request
  add_request-accepted r d = (λ e. ground arith, λ h. ground arith)

  includes-append_own : (xs : List String) (k : String) → includes (xs ++ (k ∷ [])) k ≡ true
  includes-append_own [] k = rw (eq_refl k) refl
  includes-append_own (x ∷ xs) k = ground (arith, includes-append_own xs k)

  remove-append_own :
      (k : String) (xs : List String) → includes xs k ≡ false → remove k (xs ++ (k ∷ [])) ≡ xs
  unfolding remove
  remove-append_own k [] h = rw (eq_refl k) refl
  remove-append_own k (x ∷ xs) h =
      let other : (k == x) ≡ false = ground (arith, eq_iff k x, eq_iff x k) in
      rw other (ap (◌∷◌ x) (remove-append_own k xs (ground arith)))

  -- What a request comes to. It is accepted exactly when the daemon runs, the request is not active
  -- already and fewer resurrections are active than the configuration allows. Once accepted it is being
  -- processed, and asking again says so; when its flow ends, whatever comes of it, the active ones are
  -- those from before. One that is not accepted changes nothing.
  pub record IsAnswered (r : PendingRequest) (d : CarrierDaemon) : Type 0 where
    pub accepts : ((add_request cfg r d).0 ≡ accepted) ↔ (
        (d.running ≡ true)
        × (includes d.active_resurrections (key_of r) ≡ false)
        × (length d.active_resurrections < cfg.max_concurrent_resurrections))
    pub processes :
        (add_request cfg r d).0 ≡ accepted
        → (add_request cfg r (add_request cfg r d).1).0 ≡ already_processing
    pub ends :
        (add_request cfg r d).0 ≡ accepted
        → (x : Option CarrierResurrectionRecord)
        → (settle cfg r x (add_request cfg r d).1).active_resurrections ≡ d.active_resurrections
    pub refuses : (add_request cfg r d).0 ≢ accepted → (add_request cfg r d).1 ≡ d

  -- The daemon behind an accepted request.
  abbrev active_with : PendingRequest → CarrierDaemon → CarrierDaemon
  active_with r d = record d { active_resurrections = d.active_resurrections ++ (key_of r ∷ []) }

  add_request-state :
      (r : PendingRequest) (d : CarrierDaemon)
      → (add_request cfg r d).0 ≡ accepted
      → (add_request cfg r d).1 ≡ active_with r d
  unfolding add_request
  add_request-state r d e =
      let (running, other, free) = (add_request-accepted r d).0 e in
      let open_place : leb cfg.max_concurrent_resurrections (length d.active_resurrections)
          ≡ false =
        ground arith in
      rw (running, other, open_place) refl

  settle-active :
      (r : PendingRequest) (x : Option CarrierResurrectionRecord) (d : CarrierDaemon)
      → (settle cfg r x d).active_resurrections ≡ remove (key_of r) d.active_resurrections
  unfolding settle
  settle-active r none d = refl
  settle-active r (some x) d = refl

  processing :
      (r : PendingRequest) (d : CarrierDaemon)
      → d.running ≡ true
      → (add_request cfg r (active_with r d)).0 ≡ already_processing
  unfolding add_request
  processing r d e = rw (e, includes-append_own d.active_resurrections (key_of r)) refl

  refused :
      (r : PendingRequest) (d : CarrierDaemon)
      → (add_request cfg r d).0 ≢ accepted
      → (add_request cfg r d).1 ≡ d
  unfolding add_request
  refused r d =
      let P : AddRequestResult × CarrierDaemon → Type 0 = λ t. t.0 ≢ accepted → t.1 ≡ d in
      if_both P (not d.running) _ _ (λ _ _. refl)
        (λ _.
          if_both P (includes d.active_resurrections (key_of r)) _ _ (λ _ _. refl)
            (λ _.
              if_both P (leb cfg.max_concurrent_resurrections (length d.active_resurrections)) _ _
                (λ _ _. refl) (λ _ n. absurd (n refl))))

  -- Every request of every daemon is answered as `IsAnswered` says.
  pub add_request-IsAnswered : (r : PendingRequest) (d : CarrierDaemon) → IsAnswered r d
  add_request-IsAnswered r d = record {
    accepts = add_request-accepted r d;
    processes =
        λ e. rw (add_request-state r d e) (processing r d ((add_request-accepted r d).0 e).0);
    ends = λ e x.
        settle-active r x (add_request cfg r d).1
        ∙ rw (add_request-state r d e) (
            remove-append_own (key_of r) d.active_resurrections ((add_request-accepted r d).0 e).1);
    refuses = refused r d;
  }
