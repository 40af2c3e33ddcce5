-- ===== src/Router/Dispatch/Stream.antt =====
-- Streaming completions of src/routerbot/router/router.py, on one deployment without retries. The
-- stream, with its consumer, is one call: it comes to its chunks, or to the exception that ended it.
use routerbot.Base.{
  ◌-◌, ◌*◌, ◌≡◌, refl, ap, ◌∙◌, String, Bool, true, false, map, arith, if◌then◌else◌,
}
use routerbot.Errors.{Error, Outcome, returned, raised}
use routerbot.Router.Cooldown.{record_success, record_failure}
use routerbot.Router.Deployment.{Deployment}
use routerbot.Router.Strategies.{Random}
use routerbot.Router.Dispatch.{
  World, with_cooldown, select_deployment, update, make_provider, run_provider, finish,
  start_request,
}
use routerbot.Router.Dispatch.Accounting.{
  active, at_ref, registry_counts, select_deployment-active, make_provider-active,
  run_provider-active, registry_counts-update, end-Counts, start-Counts, all_up_down,
}

-- isinstance(exc, Exception); CancelledError is a BaseException only.
abbrev pub is_exception : Error → Bool
is_exception Error.cancelled = false
is_exception _ = true

module _ {P A : Type 0} where
  abbrev pub settle_stream : String → Outcome A × World P → Outcome A × World P
  settle_stream name (returned a, w) =
      (returned a, with_cooldown (record_success name w.router.cooldown) w)
  settle_stream name (raised e, w) = (
    raised e,
    if is_exception e then with_cooldown (record_failure w.now name w.router.cooldown) w else w,
  )

  abbrev pub stream_deployment :
      (Deployment → Outcome P)
      → (P → World P → Outcome A × World P)
      → Outcome Deployment × World P
      → Outcome A × World P
  stream_deployment build chunks (raised e, w) = (raised e, w)
  stream_deployment build chunks (returned d, w) =
      let w' = update d.ref start_request w in
      finish d w'.now (settle_stream d.name (run_provider chunks (make_provider build d w')))

  unfoldable pub stream_completion :
      (Deployment → Outcome P)
      → (World P → Random)
      → String
      → (P → World P → Outcome A × World P)
      → World P
      → Outcome A × World P
  stream_completion build rng model chunks w =
      stream_deployment build chunks (select_deployment rng model w)

  settle_stream-active :
      (name : String) (o : Outcome A) (w : World P)
      → active (settle_stream name (o, w)).1 ≡ active w
  settle_stream-active name (returned a) w = refl
  settle_stream-active name (raised e) w = ground arith

  stream_deployment-active :
      (build : Deployment → Outcome P) (chunks : P → World P → Outcome A × World P)
      (o : Outcome Deployment) (w : World P)
      → ((q : P) (v : World P) → active (chunks q v).1 ≡ active v)
      → active (stream_deployment build chunks (o, w)).1 ≡ active w
  stream_deployment-active build chunks (raised e) w keeps = refl
  stream_deployment-active build chunks (returned d) w keeps =
      let w₂ = update d.ref start_request w in
      let (o, w₃) = make_provider build d w₂ in
      let (r, w₄) = run_provider chunks (o, w₃) in
      let (_, w₅) = settle_stream d.name (r, w₄) in
      registry_counts-update d.ref (end-Counts ((w₅.now - w₂.now) * 1000)) w₅.router.deployments
      ∙ ap (map (at_ref d.ref (λ n. n - 1))) (
          settle_stream-active d.name r w₄
          ∙ run_provider-active chunks o w₃ keeps
          ∙ ap registry_counts (make_provider-active build d w₂)
          ∙ registry_counts-update d.ref start-Counts w.router.deployments)
      ∙ all_up_down d.ref (active w)

  -- However a stream ends, by its last chunk, a failure or a client that goes away, one that leaves
  -- the counts of active requests alone leaves them, once closed, as they were.
  pub stream_completion-active :
      (build : Deployment → Outcome P) (rng : World P → Random) (model : String)
      (chunks : P → World P → Outcome A × World P) (w : World P)
      → ((q : P) (v : World P) → active (chunks q v).1 ≡ active v)
      → active (stream_completion build rng model chunks w).1 ≡ active w
  unfolding stream_completion
  stream_completion-active build rng model chunks w keeps =
      let (o, w') = select_deployment rng model w in
      stream_deployment-active build chunks o w' keeps
      ∙ ap registry_counts (select_deployment-active rng model w)
