-- ===== src/Main/Ran.antt =====
-- How the example program ends.
use skialith.Common.{◌≡◌, refl, ap, String, Option, none, some, Result, ok, err, map_err, arith}
use skialith.External.JetStream.{Acknowledges}
use skialith.License.{Keys}
use skialith.Lock.{KeyValue, Heartbeat}
use skialith.Limits.Sleep.{IsSteady}
use skialith.Store.Mpsc.{Delivers}
use skialith.Store.Config.{SkialithStore}
use skialith.Store.SaveEvent.{Services, StateOf}
use skialith.Store.SaveEvent.Branches.{Saved}
use skialith.Store.SaveEvent.Returns.{save_event_returns}
use skialith.Store.Connect.{Stop, returned, panic, connect_panic}
use skialith.Store.Connect.Fresh.{connect-rate_limiter}
use skialith.Main.{
  MainError, no_variable, store, migrate, Surroundings, Process, StoreError, Outcome, payload_value,
  example, opened, connected, migrated, with_store, with_url, main,
}

module _ (v : Services) (keys : Keys) (k : KeyValue) (Tx Migrate : Type 0) where
  -- The ways in which a run can end that answers `r` and leaves `p'`.
  pub data Ran (w : Surroundings v keys k Tx Migrate) (p : Process v keys k Tx Migrate)
      (r : Result (MainError (StoreError v keys k Tx Migrate) Migrate) (Unit {0}))
      (p' : Process v keys k Tx Migrate) : Type 0 where
    no_url : w.vars "TIDB_URL" ≡ none → r ≡ err (no_variable "TIDB_URL") → p' ≡ p → Ran w p r p'
    refused :
        (url : String) (e : StoreError v keys k Tx Migrate)
        → w.vars "TIDB_URL" ≡ some url
        → (connected v keys k Tx Migrate w url p.kv).0 ≡ err (returned e)
        → r ≡ err (store e)
        → p'.state ≡ p.state
        → Ran w p r p'
    not_migrated :
        (url : String) (s : SkialithStore Tx Heartbeat) (e : Migrate)
        → w.vars "TIDB_URL" ≡ some url
        → (connected v keys k Tx Migrate w url p.kv).0 ≡ ok s
        → w.migrations ≡ err e
        → r ≡ err (migrate e)
        → p'.state ≡ p.state
        → Ran w p r p'
    called :
        (url : String) (s : SkialithStore Tx Heartbeat) (slot : StateOf v)
        (saved : Result (StoreError v keys k Tx Migrate) (Unit {0}))
        → w.vars "TIDB_URL" ≡ some url
        → (connected v keys k Tx Migrate w url p.kv).0 ≡ ok s
        → slot.js ≡ p.state.js
        → slot.enqueue_tx ≡ p.state.enqueue_tx
        → Saved v "agent-123" "event-001"
            (payload_value v keys k Tx Migrate (example v keys k Tx Migrate))
            slot
            saved
            p'.state
        → r ≡ map_err store saved
        → Ran w p r p'

  module _ (acks : Acknowledges v.jet_stream) (delivers : Delivers v.queue)
      (w : Surroundings v keys k Tx Migrate) (steady : IsSteady w.now) where
    abbrev here : Result v.json.Error v.json.Value
    here = payload_value v keys k Tx Migrate (example v keys k Tx Migrate)

    saved_run :
        (p : Process v keys k Tx Migrate) (url : String) (s : SkialithStore Tx Heartbeat)
        (kv : k.Kv) (u : Unit {0})
        → w.vars "TIDB_URL" ≡ some url
        → (connected v keys k Tx Migrate w url p.kv).0 ≡ ok s
        → w.migrations ≡ ok u
        → (r : Result (MainError (StoreError v keys k Tx Migrate) Migrate) (Unit {0}))
          × (p' : Process v keys k Tx Migrate) × (migrated v keys k Tx Migrate 2 w s
                (ok u)
                (record { kv = kv; state = p.state })
              ≡ some (r, p'))
          × Ran w p r p'
    saved_run p url s kv u found held done =
        let unused =
          connect-rate_limiter keys k _ _ _ _ _ _ Tx w.license_now w.ha_now w.lock_now _ w.managed _
            _ _ p.kv s held in
        let (saved, state', slot, e, js, queue, ran, _) =
          save_event_returns v acks delivers (payload_value v keys k Tx Migrate) w.now s.rate_limit
            "agent-123" "event-001" (example v keys k Tx Migrate)
            (opened v keys k Tx Migrate s p.state) steady
            (omega (arith, ap (λ l. l.window_start) unused)) in
        (
          map_err store saved,
          record { kv = kv; state = state' },
          rw e refl,
          called url s slot saved found held js queue ran refl,
        )

    abbrev pub Ends : Process v keys k Tx Migrate → Outcome v keys k Tx Migrate → Type 0
    Ends p o =
        (r : Result (MainError (StoreError v keys k Tx Migrate) Migrate) (Unit {0})) × (p' : Process
          v keys k Tx Migrate)
        × (o ≡ some (r, p'))
        × Ran w p r p'

    Ends-migrated :
        (p : Process v keys k Tx Migrate) (url : String) (s : SkialithStore Tx Heartbeat)
        (kv : k.Kv) (m : Result Migrate (Unit {0}))
        → w.vars "TIDB_URL" ≡ some url
        → (connected v keys k Tx Migrate w url p.kv).0 ≡ ok s
        → w.migrations ≡ m
        → Ends p (migrated v keys k Tx Migrate 2 w s m (record { kv = kv; state = p.state }))
    Ends-migrated p url s kv (err e) found held failed =
        (_, _, refl, not_migrated url s e found held failed refl refl)
    Ends-migrated p url s kv (ok u) found held done = saved_run p url s kv u found held done

    Ends-with_store :
        (p : Process v keys k Tx Migrate) (url : String)
        (c : Result (Stop (StoreError v keys k Tx Migrate)) (SkialithStore Tx Heartbeat) × k.Kv)
        → w.vars "TIDB_URL" ≡ some url
        → connected v keys k Tx Migrate w url p.kv ≡ c
        → Ends p (with_store v keys k Tx Migrate 2 w p.state c)
    Ends-with_store p url (err (panic message), kv) found c =
        let no_channel =
          connect_panic keys k _ _ _ _ _ _ Tx w.license_now w.ha_now w.lock_now _ w.managed _ _ _
            p.kv message (ap (λ x. x.0) c) in
        absurd (omega (arith, no_channel))
    Ends-with_store p url (err (returned e), kv) found c =
        (_, _, refl, refused url e found (ap (λ x. x.0) c) refl refl)
    Ends-with_store p url (ok s, kv) found c =
        Ends-migrated p url s kv w.migrations found (ap (λ x. x.0) c) refl

    Ends-with_url :
        (p : Process v keys k Tx Migrate) (url : Option String)
        → w.vars "TIDB_URL" ≡ url
        → Ends p (with_url v keys k Tx Migrate 2 w url p)
    Ends-with_url p none missing = (_, _, refl, no_url missing refl refl)
    Ends-with_url p (some url) found =
        Ends-with_store p url (connected v keys k Tx Migrate w url p.kv) found refl

    -- On a clock that is not set back the example program ends, with no condition on its limiter, which
    -- is new: without a database URL it touches nothing; a refused connection or a failed migration
    -- leaves the log and the queue as they were; otherwise the call of `save_event` is made on a
    -- connected store, and what it answers in one of its four ways is the answer of the program.
    pub main-Ran : (p : Process v keys k Tx Migrate) → Ends p (main v keys k Tx Migrate 2 w p)
    unfolding main
    main-Ran p = Ends-with_url p (w.vars "TIDB_URL") refl
