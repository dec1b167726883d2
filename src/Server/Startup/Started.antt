-- ===== src/Server/Startup/Started.antt =====
-- How the sidecar starts, and what it then answers.
use skialith.Common.{ℕ, ◌≡◌, refl, ap, String, Option, none, some, List, Result, ok, err, arith}
use skialith.External.JetStream.{Acknowledges}
use skialith.License.{Keys}
use skialith.Lock.{KeyValue, Heartbeat}
use skialith.Limits.Limiter.{default}
use skialith.Limits.Sleep.{IsSteady}
use skialith.Trace.Table.{TraceTable}
use skialith.Trace.Keyed.{IsKeyed}
use skialith.Store.Mpsc.{Delivers}
use skialith.Store.Config.{SkialithStore}
use skialith.Store.SaveEvent.{Services, ErrorOf}
use skialith.Store.SaveEvent.WriteAhead.{WriteAhead}
use skialith.Store.Connect.{Stop, returned, panic, connect_panic}
use skialith.Store.Connect.Fresh.{connect-rate_limiter}
use skialith.Server.{AppState}
use skialith.Server.Requests.{Request, Response}
use skialith.Server.Requests.Served.{AllAnswer, Sound, serve-Sound}
use skialith.Server.Concurrent.Moved.{Holds}
use skialith.Server.Startup.{
  panicked, store, nats, bind, Surroundings, Outcome, nats_url, port, connected, app_of, bound,
  with_manager, with_store, with_port, with_url, main,
}

module _ (v : Services) (keys : Keys) (k : KeyValue) (t : TraceTable v.json.Value)
    (Tx Nats Io : Type 0) where
  open v use {json.{Value}}
  open t use {rows}

  abbrev pub Around : Type 0
  Around = Surroundings v keys k t Tx Nats Io

  abbrev pub App : Type 0
  App = AppState v t Nats

  -- The ways in which a start can end.
  pub data Started (w : Around) (requests : List (Request Value)) (kv : k.Kv) (app : App)
      (o : Outcome v keys k t Tx Nats Io) : Type 0 where
    no_url :
        w.vars "TIDB_URL" ≡ none
        → o ≡ err (panicked "TIDB_URL environment variable is required")
        → Started w requests kv app o
    no_port :
        port v keys k t Tx Nats Io w ≡ none
        → o ≡ err (panicked "SERVER_PORT must be a valid port number")
        → Started w requests kv app o
    refused :
        (url : String) (e : ErrorOf v)
        → w.vars "TIDB_URL" ≡ some url
        → (connected v keys k t Tx Nats Io w url kv).0 ≡ err (returned e)
        → o ≡ err (store e)
        → Started w requests kv app o
    no_manager :
        (e : v.Connect)
        → w.manager_at (nats_url v keys k t Tx Nats Io w) ≡ err e
        → o ≡ err (nats e)
        → Started w requests kv app o
    port_taken :
        (p : ℕ) (e : Io)
        → port v keys k t Tx Nats Io w ≡ some p
        → w.bind_at p ≡ err e
        → o ≡ err (bind e)
        → Started w requests kv app o
    serving :
        (url : String) (p : ℕ) (s : SkialithStore Tx Heartbeat) (rs : List (Response Value))
        (app' : App)
        → w.vars "TIDB_URL" ≡ some url
        → port v keys k t Tx Nats Io w ≡ some p
        → (connected v keys k t Tx Nats Io w url kv).0 ≡ ok s
        → o ≡ ok (some (rs, app'))
        → AllAnswer v t Nats (rows app.tidb) requests rs
        → Sound v t Nats w.now (rows app.tidb) app'
        → Holds v t Nats s.rate_limit (rows app.tidb) (app_of v keys k t Tx Nats Io s app)
        → Started w requests kv app o

  module _ (acks : Acknowledges v.jet_stream) (delivers : Delivers v.queue) (keyed : IsKeyed t)
      (w : Around) (steady : IsSteady w.now) (requests : List (Request Value)) (kv : k.Kv)
      (app : App) (logged : WriteAhead v app.store) where
    unused :
        (url : String) (s : SkialithStore Tx Heartbeat)
        → (connected v keys k t Tx Nats Io w url kv).0 ≡ ok s
        → s.rate_limiter ≡ default
    unused url s held =
        connect-rate_limiter keys k _ _ _ _ _ _ Tx w.license_now w.ha_now w.lock_now _ w.managed _ _
          _ kv s held

    Sound-app_of :
        (url : String) (s : SkialithStore Tx Heartbeat)
        → (connected v keys k t Tx Nats Io w url kv).0 ≡ ok s
        → Sound v t Nats w.now (rows app.tidb) (app_of v keys k t Tx Nats Io s app)
    Sound-app_of url s held = record {
      write_ahead = logged;
      in_window = omega (arith, ap (λ l. l.window_start) (unused url s held));
      same_rows = refl;
    }

    Holds-app_of :
        (url : String) (s : SkialithStore Tx Heartbeat)
        → (connected v keys k t Tx Nats Io w url kv).0 ≡ ok s
        → Holds v t Nats s.rate_limit (rows app.tidb) (app_of v keys k t Tx Nats Io s app)
    Holds-app_of url s held = record {
      counted = omega (arith, ap (λ l. l.count) (unused url s held));
      write_ahead = logged;
      same_rows = refl;
    }

    Started-bound :
        (url : String) (p : ℕ) (s : SkialithStore Tx Heartbeat) (r : Result Io (Unit {0}))
        → w.vars "TIDB_URL" ≡ some url
        → port v keys k t Tx Nats Io w ≡ some p
        → (connected v keys k t Tx Nats Io w url kv).0 ≡ ok s
        → w.bind_at p ≡ r
        → Started w requests kv app (bound v keys k t Tx Nats Io 2 w requests s app r)
    Started-bound url p s (err e) found given held b = port_taken p e given b refl
    Started-bound url p s (ok u) found given held b =
        let (rs, app', e, right, sound) =
          serve-Sound v t Nats acks delivers keyed w.now steady s.rate_limit (rows app.tidb)
            requests (app_of v keys k t Tx Nats Io s app) (Sound-app_of url s held) in
        serving url p s rs app' found given held (ap ok e) right sound (Holds-app_of url s held)

    Started-with_manager :
        (url : String) (p : ℕ) (s : SkialithStore Tx Heartbeat) (r : Result v.Connect (Unit {0}))
        → w.vars "TIDB_URL" ≡ some url
        → port v keys k t Tx Nats Io w ≡ some p
        → (connected v keys k t Tx Nats Io w url kv).0 ≡ ok s
        → w.manager_at (nats_url v keys k t Tx Nats Io w) ≡ r
        → Started w requests kv app (with_manager v keys k t Tx Nats Io 2 w requests p s app r)
    Started-with_manager url p s (err e) found given held m = no_manager e m refl
    Started-with_manager url p s (ok u) found given held m =
        Started-bound url p s (w.bind_at p) found given held refl

    Started-with_store :
        (url : String) (p : ℕ) (r : Result (Stop (ErrorOf v)) (SkialithStore Tx Heartbeat))
        → w.vars "TIDB_URL" ≡ some url
        → port v keys k t Tx Nats Io w ≡ some p
        → (connected v keys k t Tx Nats Io w url kv).0 ≡ r
        → Started w requests kv app (with_store v keys k t Tx Nats Io 2 w requests p app r)
    Started-with_store url p (err (returned e)) found given held = refused url e found held refl
    Started-with_store url p (err (panic message)) found given held =
        let no_channel =
          connect_panic keys k _ _ _ _ _ _ Tx w.license_now w.ha_now w.lock_now _ w.managed _ _ _ kv
            message held in
        absurd (omega (arith, no_channel))
    Started-with_store url p (ok s) found given held =
        Started-with_manager url p s _ found given held refl

    Started-with_port :
        (url : String) (p : Option ℕ)
        → w.vars "TIDB_URL" ≡ some url
        → port v keys k t Tx Nats Io w ≡ p
        → Started w requests kv app (with_port v keys k t Tx Nats Io 2 w requests url kv app p).0
    Started-with_port url none found missing = no_port missing refl
    Started-with_port url (some p) found given = Started-with_store url p _ found given refl

    Started-with_url :
        (url : Option String)
        → w.vars "TIDB_URL" ≡ url
        → Started w requests kv app (with_url v keys k t Tx Nats Io 2 w requests kv app url).0
    Started-with_url none missing = no_url missing refl
    Started-with_url (some url) found =
        Started-with_port url (port v keys k t Tx Nats Io w) found refl

    -- From the start of the sidecar to its answers, on a clock that is not set back, where the queue is in
    -- the log at the start: it stops before it serves for one of five reasons (no database URL, no port,
    -- a store that is refused, a client for the manager or a port that is not to be had), or it answers
    -- every request of any sequence with an answer of its route; then the queue is still in the log, and
    -- the table of traces is as it was at the start, so that a state is answered from those rows alone,
    -- whatever events and checkpoints came before. It begins to serve with the
    -- count of its limiter within the limit, the queue in the log and that table, on which requests that
    -- overlap rely.
    pub main-Started : Started w requests kv app (main v keys k t Tx Nats Io 2 w requests kv app).0
    unfolding main
    main-Started = Started-with_url (w.vars "TIDB_URL") refl
