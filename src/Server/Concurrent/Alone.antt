-- ===== src/Server/Concurrent/Alone.antt =====
-- A request that no other comes between: its moves are the handler of its route.
use skialith.Common.{
  ℕ, ◌≡◌, refl, sym, ap, ◌∙◌, inl, inr, String, Option, some, none, some-inj, subst, Result-cases,
  Bool-cases, ◌==◌, Result, ok, arith,
}
use skialith.Trace.Table.{TraceTable}
use skialith.Limits.{u32_max}
use skialith.Limits.Limiter.{RateLimiter, Meter, wait}
use skialith.Limits.Interleaved.{top}
use skialith.Limits.Interleaved.Alone.{wait_loop-Moves}
use skialith.Limits.Interleaved.Alone as LimiterAlone
use skialith.Store.SaveEvent.{Services, StateOf, ErrorOf, publish_and_enqueue, save_event}
use skialith.Store.SaveEvent.Interleaved.{ready}
use skialith.Store.SaveEvent.Interleaved.Alone.{publish_and_enqueue-Moves}
use skialith.Store.SaveEvent.Interleaved.Alone as StoreAlone
use skialith.Server.{
  SaveEventRequest, CheckpointRequest, health, save_event_handler, checkpoint, to_value, after_save,
}
use skialith.Server.Checkpoint.{checkpoint_message}
use skialith.Server.Requests.{
  Request, health_request, event_request, checkpoint_request, state_request, unrouted, Response,
  App, respond, status_or_error, handled,
}
use skialith.Server.Concurrent.{
  Task, arrived, limiting, saving, answered, with_limiter, with_store, with_clock, Move,
  answers_health, not_routed, waits, not_limited, in_limiter, admitted, in_store, responds,
  not_published, published, acknowledged, resumed, time_passes,
}

module _ (v : Services) (t : TraceTable v.json.Value) (Nats : Type 0) where
  open v use {json.{Value}, jet_stream.{publish, await_ack}}

  pub data Moves (limit : ℕ)
      : App v t Nats → Task v t Nats → App v t Nats → Task v t Nats → Type 0 where
    done : {app : App v t Nats} {p : Task v t Nats} → Moves limit app p app p
    then :
        {app app' app'' : App v t Nats} {p p' p'' : Task v t Nats}
        → Move v t Nats limit app p app' p'
        → Moves limit app' p' app'' p''
        → Moves limit app p app'' p''

  module _ (limit : ℕ) where
    joined :
        {app app' app'' : App v t Nats} {p p' p'' : Task v t Nats}
        → Moves limit app p app' p'
        → Moves limit app' p' app'' p''
        → Moves limit app p app'' p''
    joined done ms = ms
    joined (then mv rest) ms = then mv (joined rest ms)

    with_limiter-Moves :
        (app : App v t Nats) (a : String) (b : SaveEventRequest Value) {r r' : RateLimiter}
        {p p' : _}
        → LimiterAlone.Moves limit r p r' p'
        → Moves limit
            (with_limiter v t Nats app r)
            (limiting a b p)
            (with_limiter v t Nats app r')
            (limiting a b p')
    with_limiter-Moves app a b LimiterAlone.done = done
    with_limiter-Moves app a b (LimiterAlone.then mv rest) =
        then (in_limiter a b mv) (with_limiter-Moves app a b rest)

    with_store-Moves :
        (app : App v t Nats) {s s' : StateOf v} {p p' : _}
        → StoreAlone.Moves v s p s' p'
        → Moves limit
            (with_store v t Nats app s)
            (saving p)
            (with_store v t Nats app s')
            (saving p')
    with_store-Moves app StoreAlone.done = done
    with_store-Moves app (StoreAlone.then mv rest) = then (in_store mv) (with_store-Moves app rest)

    waited :
        (fuel : ℕ) (now : ℕ → ℕ → ℕ) (app : App v t Nats) (a : String) (b : SaveEventRequest Value)
        (r : RateLimiter) (m : Meter)
        → wait fuel limit now app.store.clock app.store.rate_limiter ≡ some (r, m)
        → Moves limit app
            (limiting a b top)
            (with_clock v t Nats (with_limiter v t Nats app r) m)
            (saving (ready (a, b.event_id, ok b.payload)))
    unfolding wait
    waited fuel now app a b r m h = elim (Bool-cases (limit == u32_max)) [
      | inl unlimited ↦
          subst
            (λ x.
              Moves limit app (limiting a b top)
                (with_clock v t Nats (with_limiter v t Nats app x.0) x.1)
                (saving (ready (a, b.event_id, ok b.payload))))
            (some-inj (rw unlimited at h)) (then (not_limited a b (ground arith)) done)
      | inr limited ↦
          let (s, claimed) =
            wait_loop-Moves limit now (λ e. ground arith) fuel app.store.clock m
              app.store.rate_limiter r (rw limited at h) in
          joined (with_limiter-Moves app a b claimed)
            (then (time_passes _ m) (then (admitted a b s) done))
    ]

    -- The rest of `save_event`, from what the rate limiter returned.
    abbrev behind_limiter :
        String
        → SaveEventRequest Value
        → StateOf v
        → Option (RateLimiter × Meter)
        → Option (Result (ErrorOf v) (Unit {0}) × StateOf v)
    behind_limiter a b s none = none
    behind_limiter a b s (some (r, m)) = some (
        publish_and_enqueue v a b.event_id (ok b.payload)
          (record s { rate_limiter = r; clock = m }))

    save_event_lem :
        (fuel : ℕ) (now : ℕ → ℕ → ℕ) (a : String) (b : SaveEventRequest Value) (s : StateOf v)
        (w : Option (RateLimiter × Meter))
        → wait fuel limit now s.clock s.rate_limiter ≡ w
        → save_event v (to_value v t Nats) fuel now limit a b.event_id b.payload s
          ≡ behind_limiter a b s w
    unfolding save_event
    save_event_lem fuel now a b s none e = rw (e, save_event) refl
    save_event_lem fuel now a b s (some (r, m)) e = rw (e, save_event) refl

    respond_event :
        (fuel : ℕ) (now : ℕ → ℕ → ℕ) (a : String) (b : SaveEventRequest Value) (app : App v t Nats)
        (w : Option (RateLimiter × Meter))
        → wait fuel limit now app.store.clock app.store.rate_limiter ≡ w
        → respond v t Nats fuel now limit (event_request a b) app
          ≡ handled v t Nats (after_save v t Nats app (behind_limiter a b app.store w))
    unfolding respond save_event_handler
    respond_event fuel now a b app w e =
        ap (λ o. handled v t Nats (after_save v t Nats app o))
          (save_event_lem fuel now a b app.store w e)

    event_request-Moves :
        (fuel : ℕ) (now : ℕ → ℕ → ℕ) (a : String) (b : SaveEventRequest Value) (app : App v t Nats)
        (out : Response Value × App v t Nats) (w : Option (RateLimiter × Meter))
        → wait fuel limit now app.store.clock app.store.rate_limiter ≡ w
        → handled v t Nats (after_save v t Nats app (behind_limiter a b app.store w)) ≡ some out
        → Moves limit app (arrived (event_request a b)) out.1 (answered (event_request a b) out.0)
    event_request-Moves fuel now a b app out none e h =
        absurd (subst (λ o. elim o [ none ↦ Unit {0} | some _ ↦ ⊥ ]) h tt)
    event_request-Moves fuel now a b app out (some (r, m)) e h =
        let slot : StateOf v = record app.store { rate_limiter = r; clock = m } in
        let p = publish_and_enqueue v a b.event_id (ok b.payload) slot in
        subst
          (λ x.
            Moves limit app (arrived (event_request a b)) x.1 (answered (event_request a b) x.0))
          (some-inj h)
          (then (waits a b) (
            joined (waited fuel now app a b r m e) (
              joined
                (with_store-Moves app
                  (publish_and_enqueue-Moves v a b.event_id (ok b.payload) slot))
                (then (responds a b.event_id b.payload p.0) done))))

    checkpoint-Moves :
        (a : String) (b : CheckpointRequest Value) (app : App v t Nats)
        → let out = checkpoint v t Nats a b app in
          Moves limit app
            (arrived (checkpoint_request a b))
            out.1
            (answered (checkpoint_request a b) (status_or_error v t Nats out.0))
    unfolding checkpoint
    checkpoint-Moves a b app =
        let m = checkpoint_message v t Nats a b in
        elim (Result-cases (publish m app.store.js).0) [
          | inr (x, e) ↦ rw e (then (not_published a b x e) done)
          | inl (f, e) ↦ rw e (then (published a b f e) (then (acknowledged a b f) done))
        ]

    -- The overlapping requests move as the handlers do: whatever `respond` answers a request that is
    -- alone, the moves of a task that no other comes between lead to that answer and to that state, on
    -- every branch of every route.
    pub respond-Moves :
        (fuel : ℕ) (now : ℕ → ℕ → ℕ) (q : Request Value) (app : App v t Nats)
        (out : Response Value × App v t Nats)
        → respond v t Nats fuel now limit q app ≡ some out
        → Moves limit app (arrived q) out.1 (answered q out.0)
    unfolding respond health
    respond-Moves fuel now health_request app out h =
        subst (λ x. Moves limit app (arrived health_request) x.1 (answered health_request x.0))
          (some-inj h) (then answers_health done)
    respond-Moves fuel now (event_request a b) app out h =
        event_request-Moves fuel now a b app out _ refl
          (sym (respond_event fuel now a b app _ refl) ∙ h)
    respond-Moves fuel now (checkpoint_request a b) app out h =
        subst
          (λ x.
            Moves limit app (arrived (checkpoint_request a b)) x.1
              (answered (checkpoint_request a b) x.0))
          (some-inj h) (checkpoint-Moves a b app)
    respond-Moves fuel now (state_request a) app out h =
        subst
          (λ x. Moves limit app (arrived (state_request a)) x.1 (answered (state_request a) x.0))
          (some-inj h) (then (resumed a) done)
    respond-Moves fuel now unrouted app out h =
        subst (λ x. Moves limit app (arrived unrouted) x.1 (answered unrouted x.0)) (some-inj h)
          (then not_routed done)
