-- ===== src/Carrier/Flow/Outcome.antt =====
-- What the result of the flow says of what was done.
use claw_mem.Task.{◌>>◌}
use claw_mem.Prelude.{
  ℕ, ◌≡◌, sym, ◌∙◌, Bool, true, false, Option, none, some, List, [], ◌∷◌, Bool-cases, Result, ok,
  err, if_both, String, refl, inl, inr, Result-cases, ◌↔◌,
}
use claw_mem.Carrier.Flow
use claw_mem.Carrier.Flow.{
  FlowEnv, Effect, spawned, stopped, check_shutdown, confirm, prepare, ResurrectionRequest,
  fetch_backup, conclude, give_up, launch, wait_for_readiness, validate, Task, health_checking,
  ResurrectionResult, result_of, Restored, execute_resurrection_flow, resurrection_complete,
  run_flow, pure, fresh,
}
use claw_mem.Task.{and_then}

-- The process that was spawned and not stopped.
abbrev pub alive : List Effect → Option ℕ
alive [] = none
alive (spawned pid ∷ es) = some pid
alive (stopped pid ∷ es) = none
alive (Flow.confirmed ∷ es) = alive es
alive (Flow.restored ∷ es) = alive es
alive (Flow.completed ∷ es) = alive es
alive (Flow.beaten ∷ es) = alive es

abbrev pub is_completed : List Effect → Bool
is_completed [] = false
is_completed (Flow.completed ∷ es) = true
is_completed (spawned pid ∷ es) = is_completed es
is_completed (stopped pid ∷ es) = is_completed es
is_completed (Flow.confirmed ∷ es) = is_completed es
is_completed (Flow.restored ∷ es) = is_completed es
is_completed (Flow.beaten ∷ es) = is_completed es

module _ (env : FlowEnv) where
  -- Nothing has been spawned or completed.
  abbrev Quiet : Flow.Flow → Type 0
  Quiet f = (f.agent_pid ≡ none) × (alive f.effects ≡ none) × (is_completed f.effects ≡ false)

  abbrev Spawned : ℕ → Flow.Flow → Type 0
  Spawned pid f = (alive f.effects ≡ some pid) × (is_completed f.effects ≡ false)

  abbrev Running : ℕ → Flow.Flow → Type 0
  Running pid f = (f.agent_pid ≡ some pid) × Spawned pid f

  abbrev Failed : Flow.Flow → Type 0
  Failed f = (alive f.effects ≡ f.agent_pid) × (is_completed f.effects ≡ false)

  abbrev Done : ℕ → Flow.Flow → Type 0
  Done pid f =
      (f.agent_pid ≡ some pid) × (alive f.effects ≡ some pid) × (is_completed f.effects ≡ true)

  Quiet-Failed : (f : Flow.Flow) → Quiet f → Failed f
  Quiet-Failed f (p, a, c) = (a ∙ sym p, c)

  Running-Failed : (pid : ℕ) (f : Flow.Flow) → Running pid f → Failed f
  Running-Failed pid f (p, (a, c)) = (a ∙ sym p, c)

  fetch-Quiet : (f : Flow.Flow) → Quiet f → Quiet (fetch_backup env f).1
  unfolding fetch_backup
  fetch-Quiet f q = elim (Result-cases (wait_for_readiness env.polls)) [
    | inr (_, w) ↦ rw w q
    | inl (_, w) ↦ elim (Bool-cases env.aborted_before_download) [
      | inl b ↦ rw (w, b) q
      | inr b ↦ elim (Result-cases env.auto_restore) [
        | inr (_, r) ↦ rw (w, b, r) q
        | inl (_, r) ↦ rw (w, b, r) q
      ]
    ]
  ]

  prepare-Quiet : (f : Flow.Flow) → Quiet f → Quiet (prepare env f).1
  unfolding prepare confirm
  prepare-Quiet f q =
      elim (Result-cases (validate env.agent_id env.carrier_id env.is_offline env.request)) [
        | inr (_, v) ↦ rw v q
        | inl (request, v) ↦ elim (Bool-cases request.carrier_confirmed) [
          | inl b ↦ rw (v, b) (fetch-Quiet (record f { state = Flow.carrier_confirmed }) q)
          | inr b ↦ elim (Result-cases env.confirm_carrier) [
            | inr (_, c) ↦ rw (v, b, c) q
            | inl (_, c) ↦
                rw (v, b, c)
                  (fetch-Quiet
                    (record f {
                      state = Flow.carrier_confirmed;
                      effects = Flow.confirmed ∷ f.effects;
                    })
                    q)
          ]
        ]
      ]

  -- A flow that returned, and one that threw.
  abbrev Outcome : Result String (Unit {0}) × Flow.Flow → Type 0
  Outcome (ok u, f) =
      (pid : ℕ) × (f.agent_pid ≡ some pid)
      × (alive f.effects ≡ some pid)
      × (is_completed f.effects ≡ true)
  Outcome (err e, f) = Failed f

  conclude-Outcome : (pid : ℕ) (f : Flow.Flow) → Running pid f → Outcome (conclude env f)
  unfolding conclude
  conclude-Outcome pid f h = elim (Bool-cases env.aborted_before_complete) [
    | inl a ↦ rw a (Running-Failed pid f h)
    | inr a ↦ elim (Result-cases env.complete_resurrection) [
      | inr (_, c) ↦ rw (a, c) (Running-Failed pid f h)
      | inl (_, c) ↦ elim (Bool-cases env.aborted_before_heartbeat) [
        | inl b ↦ rw (a, c, b) (pid, h.0, h.1.0, refl)
        | inr b ↦ elim (Result-cases env.heartbeat) [
          | inr (_, d) ↦ rw (a, c, b, d) (pid, h.0, h.1.0, refl)
          | inl (_, d) ↦ rw (a, c, b, d) (pid, h.0, h.1.0, refl)
        ]
      ]
    ]
  ]

  give_up-Outcome : (pid : ℕ) (f : Flow.Flow) → Running pid f → Outcome (give_up env pid f)
  unfolding give_up
  give_up-Outcome pid f h = elim (Result-cases env.stop_agent) [
    | inr (_, e) ↦ rw e (Running-Failed pid f h)
    | inl (_, e) ↦ elim (Bool-cases env.aborted_at_failure) [
      | inl b ↦ rw (e, b) (refl, h.1.1)
      | inr b ↦ rw (e, b) (refl, h.1.1)
    ]
  ]

  launch-Outcome : (f : Flow.Flow) → Quiet f → Outcome (launch env f)
  unfolding launch
  launch-Outcome f q = elim (Bool-cases env.aborted_before_spawn) [
    | inl a ↦ rw a (Quiet-Failed f q)
    | inr a ↦ elim (Result-cases env.spawn_agent) [
      | inr (_, e) ↦ rw (a, e) (Quiet-Failed f q)
      | inl (pid, e) ↦ elim (Result-cases env.wait_for_healthy) [
        | inr (_, w) ↦ rw (a, e, w) (refl, q.2)
        | inl (healthy, w) ↦
            rw (a, e, w)
              (if_both
                (λ (t : Task Flow.Flow Unit). Outcome (
                  t (record f {
                    agent_pid = some pid;
                    state = health_checking;
                    effects = spawned pid ∷ f.effects;
                  })))
                healthy _ _ (λ _. conclude-Outcome pid _ (refl, (refl, q.2)))
                (λ _. give_up-Outcome pid _ (refl, (refl, q.2))))
      ]
    ]
  ]

  -- What the result says: the process that it names is the one that is alive, it is complete exactly
  -- when the registry was told so, and then there is a process and no error.
  abbrev pub Truthful : ResurrectionResult → List Effect → Type 0
  Truthful r es =
      (alive es ≡ r.agent_pid)
      × ((r.state ≡ resurrection_complete) ↔ (is_completed es ≡ true))
      × (r.state ≡ resurrection_complete
          → (r.error ≡ none) × ((pid : ℕ) × (r.agent_pid ≡ some pid)))

  Failed-Truthful :
      (e : String) (f : Flow.Flow) → Failed f → Truthful (result_of env (err e, f)) f.effects
  Failed-Truthful e f (a, c) = (a, (λ h. cc h, λ h. cc (c, h)), λ h. cc h)

  launched :
      (r : Restored) (x : Result String (Unit {0}) × Flow.Flow)
      → Outcome x
      → Truthful
          (result_of env (and_then x.0 (λ u. pure r) x.1))
          (and_then x.0 (λ u. pure r) x.1).1.effects
  launched r (ok u, f) (pid, p, a, c) = (a ∙ sym p, (λ h. c, λ h. refl), λ h. (refl, (pid, p)))
  launched r (err e, f) h = Failed-Truthful e f h

  prepared :
      (x : Result String Restored × Flow.Flow)
      → Quiet x.1
      → Truthful
          (result_of env (and_then x.0 (λ r. launch env >> pure r) x.1))
          (and_then x.0 (λ r. launch env >> pure r) x.1).1.effects
  prepared (ok r, f) q = launched r (launch env f) (launch-Outcome f q)
  prepared (err e, f) q = Failed-Truthful e f (Quiet-Failed f q)

  -- Whatever the services answer and whenever the daemon shuts down: the process that the result
  -- names is the one that was spawned and not stopped; the result is complete exactly when
  -- `completeResurrection` succeeded; and a complete result names a process and no error.
  pub execute_resurrection_flow-Truthful :
      Truthful (execute_resurrection_flow env) (run_flow env).1.effects
  unfolding execute_resurrection_flow run_flow
  execute_resurrection_flow-Truthful =
      prepared (prepare env fresh) (prepare-Quiet fresh (refl, refl, refl))
