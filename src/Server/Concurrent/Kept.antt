-- ===== src/Server/Concurrent/Kept.antt =====
-- What every move of a request leaves alone: the request itself, and in the store the limiter.
use skialith.Common.{ℕ, ◌≡◌, refl}
use skialith.Trace.Table.{TraceTable}
use skialith.Store.SaveEvent.{Services, StateOf}
use skialith.Store.SaveEvent.Interleaved.{
  Pc as StorePc, Move as StoreMove, serialize_fails, publish_fails, publishes, ack_fails,
  acknowledged as log_acknowledged, sends,
}
use skialith.Server.Requests.{App}
use skialith.Server.Concurrent.{
  Task, request_of, request_of_store, Move, answers_health, not_routed, waits, not_limited,
  in_limiter, admitted, in_store, responds, not_published, published, acknowledged, resumed,
  time_passes, leaves_event, leaves_checkpoint, lands, goes_away,
}

module _ (v : Services) (t : TraceTable v.json.Value) (Nats : Type 0) where
  pub Move-limiter :
      {s s' : StateOf v} {p p' : StorePc v}
      → StoreMove v s p s' p'
      → s'.rate_limiter ≡ s.rate_limiter
  Move-limiter (serialize_fails a e x) = refl
  Move-limiter (publish_fails a e p x h) = refl
  Move-limiter (publishes a e p f h) = refl
  Move-limiter (ack_fails a e p f x h) = refl
  Move-limiter (log_acknowledged a e p f h) = refl
  Move-limiter (sends a e p) = refl

  request_of-StoreMove :
      {s s' : StateOf v} {p p' : StorePc v}
      → StoreMove v s p s' p'
      → request_of_store v t Nats p' ≡ request_of_store v t Nats p
  request_of-StoreMove (serialize_fails a e x) = refl
  request_of-StoreMove (publish_fails a e p x h) = refl
  request_of-StoreMove (publishes a e p f h) = refl
  request_of-StoreMove (ack_fails a e p f x h) = refl
  request_of-StoreMove (log_acknowledged a e p f h) = refl
  request_of-StoreMove (sends a e p) = refl

  pub request_of-Move :
      {limit : ℕ} {app app' : App v t Nats} {p p' : Task v t Nats}
      → Move v t Nats limit app p app' p'
      → request_of v t Nats p' ≡ request_of v t Nats p
  request_of-Move (in_store mv) = request_of-StoreMove mv
  request_of-Move answers_health = refl
  request_of-Move not_routed = refl
  request_of-Move (waits a b) = refl
  request_of-Move (not_limited a b h) = refl
  request_of-Move (in_limiter a b mv) = refl
  request_of-Move (admitted a b s) = refl
  request_of-Move (responds a e x r) = refl
  request_of-Move (not_published a b x h) = refl
  request_of-Move (published a b f h) = refl
  request_of-Move (acknowledged a b f) = refl
  request_of-Move (resumed a) = refl
  request_of-Move (leaves_event a e x f) = refl
  request_of-Move (leaves_checkpoint a b f) = refl
  request_of-Move (lands q f) = refl
  request_of-Move (goes_away p h) = refl
  request_of-Move (time_passes p m) = refl
