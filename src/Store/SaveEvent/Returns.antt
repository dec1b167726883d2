-- ===== src/Store/SaveEvent/Returns.antt =====
-- The return of `save_event` from its wait for a slot.
use skialith.Common.{
  Result-cases, err, ok, ℕ, ◌/◌, ◌≤◌, ◌≡◌, refl, inl, inr, String, Bool-cases, some, ◌==◌, Result,
}
use skialith.External.JetStream.{Acknowledges}
use skialith.Limits.{u32_max}
use skialith.Limits.Limiter.{RateLimiter, Meter, look, wait}
use skialith.Limits.Sleep.{IsSteady, wait_loop_returns}
use skialith.Store.Mpsc.{Delivers}
use skialith.Store.SaveEvent.{
  Services, StateOf, ErrorOf, Serializes, publish_and_enqueue, save_event, envelope, message_of,
}
use skialith.Store.SaveEvent.Branches.{Saved, publish_and_enqueue-Saved}

wait_returns :
    (limit : ℕ) (now : ℕ → ℕ → ℕ) (m : Meter) (r : RateLimiter)
    → IsSteady now
    → r.window_start ≤ look now m / 1000
    → (r' : RateLimiter) × (m' : Meter) × (wait 2 limit now m r ≡ some (r', m'))
      × (r'.window_start ≤ look now m' / 1000)
unfolding wait
wait_returns limit now m r steady h = elim (Bool-cases (limit == u32_max)) [
  | inl unlimited ↦ (r, m, rw unlimited, h)
  | inr limited ↦
      let (r', m', e, _, h', _) = wait_loop_returns limit now steady m r h in
      (r', m', rw limited e, h')
]

module _ (v : Services) where
  -- Behind the limiter, the limiter and the clock are left alone.
  pub publish_and_enqueue-limiter :
      (agent_id event_id : String) (serialized : Result v.json.Error v.json.Value) (s : StateOf v)
      → let s' = (publish_and_enqueue v agent_id event_id serialized s).1 in
        (s'.rate_limiter ≡ s.rate_limiter) × (s'.clock ≡ s.clock)
  unfolding publish_and_enqueue
  publish_and_enqueue-limiter agent_id event_id (err e) s = (refl, refl)
  publish_and_enqueue-limiter agent_id event_id (ok payload) s =
      let m = message_of v agent_id (v.json.to_vec (envelope v agent_id event_id payload)) in
      elim (Result-cases (v.jet_stream.publish m s.js).0) [
        | inr (e, h) ↦ rw h (refl, refl)
        | inl (f, h) ↦
            rw h (elim (Result-cases (v.jet_stream.await_ack f (v.jet_stream.publish m s.js).1).0) [
              | inr (e, k) ↦ rw k (refl, refl)
              | inl (u, k) ↦ rw k (refl, refl)
            ])
      ]

module _ (v : Services) {T : Type 0} (to_value : Serializes v T) where
  -- A lone call gets its slot, and goes on behind the limiter with the log and the queue as they were.
  pub save_event_slot :
      (now : ℕ → ℕ → ℕ) (rate_limit : ℕ) (agent_id event_id : String) (payload : T) (s : StateOf v)
      → IsSteady now
      → s.rate_limiter.window_start ≤ look now s.clock / 1000
      → (slot : StateOf v) × (save_event v to_value 2 now rate_limit agent_id event_id payload s
          ≡ some (publish_and_enqueue v agent_id event_id (to_value payload) slot))
        × (slot.js ≡ s.js)
        × (slot.enqueue_tx ≡ s.enqueue_tx)
        × (slot.rate_limiter.window_start ≤ look now slot.clock / 1000)
  unfolding save_event
  save_event_slot now rate_limit agent_id event_id payload s steady h =
      let (r', m', e, h') = wait_returns rate_limit now s.clock s.rate_limiter steady h in
      (record s { rate_limiter = r'; clock = m' }, rw (e, save_event) refl, refl, refl, h')

module _ (v : Services) (acks : Acknowledges v.jet_stream) (delivers : Delivers v.queue) where
  -- On a clock that is not set back, and with a window that does not lie in the future, a
  -- lone call of `save_event` returns after at most two passes of the limiter's loop, has
  -- touched neither the log nor the queue until then, ends in one of the four ways of
  -- `publish_and_enqueue`, and leaves a limiter from which the next call returns too.
  pub save_event_returns :
      {T : Type 0} (to_value : Serializes v T) (now : ℕ → ℕ → ℕ) (rate_limit : ℕ)
      (agent_id event_id : String) (payload : T) (s : StateOf v)
      → IsSteady now
      → s.rate_limiter.window_start ≤ look now s.clock / 1000
      → (r : Result (ErrorOf v) (Unit {0})) × (s' : StateOf v) × (slot : StateOf v) × (save_event v
            to_value 2 now rate_limit agent_id event_id payload s
          ≡ some (r, s'))
        × (slot.js ≡ s.js)
        × (slot.enqueue_tx ≡ s.enqueue_tx)
        × Saved v agent_id event_id (to_value payload) slot r s'
        × (s'.rate_limiter.window_start ≤ look now s'.clock / 1000)
  save_event_returns to_value now rate_limit agent_id event_id payload s steady h =
      let (slot, e, js, queue, h') =
        save_event_slot v to_value now rate_limit agent_id event_id payload s steady h in
      let out = publish_and_enqueue v agent_id event_id (to_value payload) slot in
      let same = publish_and_enqueue-limiter v agent_id event_id (to_value payload) slot in
      (
        out.0,
        out.1,
        slot,
        e,
        js,
        queue,
        publish_and_enqueue-Saved v agent_id event_id (to_value payload) acks delivers slot,
        rw (same.0, same.1) h',
      )
