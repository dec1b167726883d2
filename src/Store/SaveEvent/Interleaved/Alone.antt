-- ===== src/Store/SaveEvent/Interleaved/Alone.antt =====
-- A call that no other comes between: its moves are `publish_and_enqueue`.
use skialith.Common.{inl, inr, String, Result, ok, err, Result-cases}
use skialith.Store.SaveEvent.{Services, StateOf, publish_and_enqueue}
use skialith.Store.SaveEvent.Interleaved.{
  Pc, ready, returned, message, Move, serialize_fails, publish_fails, publishes, ack_fails,
  acknowledged, sends,
}

module _ (v : Services) where
  open v use {json.{Value}, jet_stream.{publish, await_ack}}

  pub data Moves : StateOf v → Pc v → StateOf v → Pc v → Type 0 where
    done : {s : StateOf v} {p : Pc v} → Moves s p s p
    then :
        {s s' s'' : StateOf v} {p p' p'' : Pc v}
        → Move v s p s' p'
        → Moves s' p' s'' p''
        → Moves s p s'' p''

  Moves-logged :
      (a e : String) (p : Value) (s : StateOf v)
      → Moves s
          (ready (a, e, ok p))
          (publish_and_enqueue v a e (ok p) s).1
          (returned (a, e, ok p) (publish_and_enqueue v a e (ok p) s).0)
  unfolding publish_and_enqueue
  Moves-logged a e p s =
      let js = (publish (message v a e p) s.js).1 in
      elim (Result-cases (publish (message v a e p) s.js).0) [
        | inr (x, h) ↦ rw h (then (publish_fails a e p x h) done)
        | inl (f, h) ↦ rw h (elim (Result-cases (await_ack f js).0) [
          | inr (x, k) ↦ rw k (then (publishes a e p f h) (then (ack_fails a e p f x k) done))
          | inl (u, k) ↦
              rw k (
                then (publishes a e p f h)
                  (then (acknowledged a e p f k) (then (sends a e p) done)))
        ])
      ]

  -- The moves of `Interleaved` are those of the code: a call whose moves come one after another takes
  -- the store where `publish_and_enqueue` takes it, and returns what that returns, on every branch.
  pub publish_and_enqueue-Moves :
      (a e : String) (serialized : Result v.json.Error Value) (s : StateOf v)
      → Moves s
          (ready (a, e, serialized))
          (publish_and_enqueue v a e serialized s).1
          (returned (a, e, serialized) (publish_and_enqueue v a e serialized s).0)
  unfolding publish_and_enqueue
  publish_and_enqueue-Moves a e (err x) s = then (serialize_fails a e x) done
  publish_and_enqueue-Moves a e (ok p) s = Moves-logged a e p s
