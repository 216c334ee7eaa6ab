-- ===== src/Httpx/Server.antt =====
-- crates/httpx/src/server.rs: the built-in handlers, and the life of the server with its readiness
-- gate; the metrics middleware is in `Metrics`. Routing, sockets and signals are axum's and tokio's.
use rust_basics.Prelude.{
  ℕ, ◌≡◌, refl, sym, ap, subst, ◌∙◌, ◌⊎◌, ◌↔◌, true, false, Option, none, some, List, [], ◌∷◌,
  String, Result, ok, err, arith, if◌then◌else◌,
}
use rust_basics.Httpx.Health.{Health, set_ready, is_ready, run_checks, run_checks-AllOk, AllOk}

-- The answer of `/readyz`: the status, the label, and the results of the checks if they ran.
pub record ReadyResponse : Type 0 where
  pub status : ℕ
  pub label : String
  pub checks : Option (List (String × String))

-- What happens to a server: its address does not parse, its socket is bound or not, the signal to
-- stop arrives, the requests in flight are drained or `serve` fails.
pub data Event : Type 0 where
  bad_addr bind_failed bound signal drained serve_failed : Event

-- Where an error of `run` comes from.
pub data RunError : Type 0 where
  addr bind serve : RunError

pub data Phase : Type 0 where
  created listening draining : Phase
  stopped : Result RunError (Unit {0}) → Phase

pub record Server (C : Type 0) : Type 0 where
  pub phase : Phase
  pub health : Health C

module _ {C : Type 0} where
  run_step : Phase → Event → Server C → Server C
  run_step created bad_addr s = record s { phase = stopped (err addr) }
  run_step created bind_failed s = record s { phase = stopped (err bind) }
  run_step created bound s = record s { phase = listening; health = set_ready s.health true }
  run_step listening signal s = record s { phase = draining; health = set_ready s.health false }
  run_step listening serve_failed s = record s { phase = stopped (err serve) }
  run_step draining drained s = record s { phase = stopped (ok tt) }
  run_step draining serve_failed s = record s { phase = stopped (err serve) }
  run_step _ _ s = s

  -- `run`, event by event.
  unfoldable pub run : List Event → Server C → Server C
  unfolding run_step set_ready
  run [] s = s
  run (e ∷ rest) s = run rest (run_step s.phase e s)

  abbrev pub GateFits : Server C → Type 0
  GateFits s =
      (s.phase ≡ listening → is_ready s.health ≡ true)
      × (is_ready s.health ≡ true → (s.phase ≡ listening) ⊎ (s.phase ≡ stopped (err serve)))

  run_step-GateFits : (e : Event) (s : Server C) → GateFits s → GateFits (run_step s.phase e s)
  unfolding run_step set_ready is_ready
  run_step-GateFits e s h = (ground arith, ground arith)

  steps-GateFits : (events : List Event) (s : Server C) → GateFits s → GateFits (run events s)
  unfolding run
  steps-GateFits [] s g = g
  steps-GateFits (e ∷ rest) s g =
      steps-GateFits rest (run_step s.phase e s) (run_step-GateFits e s g)

  run_step-checks :
      (e : Event) (s : Server C) → (run_step s.phase e s).health.checks ≡ s.health.checks
  unfolding run_step set_ready
  run_step-checks e s = ground arith

  -- The life of the server changes none of its checks.
  pub run-checks :
      (events : List Event) (s : Server C) → (run events s).health.checks ≡ s.health.checks
  unfolding run
  run-checks [] s = refl
  run-checks (e ∷ rest) s = run-checks rest (run_step s.phase e s) ∙ run_step-checks e s

  -- From a server that is created with its gate closed, whatever happens: the gate is open while the
  -- server listens, and it is open otherwise only if serving failed while it listened. So it is
  -- closed before the socket is bound and from the signal on.
  run-GateFits :
      (events : List Event) (h : Health C)
      → is_ready h ≡ false
      → GateFits (run events (record { phase = created; health = h }))
  unfolding is_ready
  run-GateFits events h closed =
      steps-GateFits events (record { phase = created; health = h }) (λ e. cc, λ e. cc)

module _ {C : Type 0} (probe : C → Result String (Unit {0})) where
  -- The handler of `/readyz`.
  unfoldable pub ready : Health C → ReadyResponse
  unfolding is_ready
  ready h =
      let (all_ok, checks) = run_checks probe h in
      if is_ready h
      then (if all_ok
          then record { status = 200; label = "ready"; checks = some checks }
          else record { status = 503; label = "degraded"; checks = some checks })
      else record { status = 503; label = "not_ready"; checks = none }

  -- `/readyz` answers 200 exactly when the gate is open and every check succeeds, and 503 otherwise.
  pub ready-status :
      (h : Health C)
      → (((ready h).status ≡ 200) ↔ ((is_ready h ≡ true) × AllOk probe h.checks))
        × (((ready h).status ≡ 200) ⊎ ((ready h).status ≡ 503))
  unfolding ready
  ready-status h = let all = run_checks-AllOk probe h in (ground arith, ground arith)

  -- `/readyz` of a server over its life: 200 exactly when the gate is open and every check that was
  -- registered at the start succeeds.
  pub run-ready :
      (events : List Event) (s : Server C) (h : Health C)
      → s ≡ record { phase = created; health = h }
      → is_ready h ≡ false
      → (((ready (run events s).health).status ≡ 200)
          ↔ ((is_ready (run events s).health ≡ true) × AllOk probe h.checks))
        × GateFits (run events s)
  run-ready events s h begun closed =
      let server = run events s in
      let (status, _) = ready-status server.health in
      let checks : server.health.checks ≡ h.checks =
        run-checks events s ∙ ap (λ x. x.health.checks) begun in
      (
        (
          λ e. let (gate, all) = status.0 e in (gate, subst (AllOk probe) checks all),
          λ (gate, all). status.1 (gate, subst (AllOk probe) (sym checks) all),
        ),
        subst (λ x. GateFits (run events x)) (sym begun) (run-GateFits events h closed),
      )
