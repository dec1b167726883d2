-- ===== src/Tests/Starting.antt =====
-- The two programs at concrete surroundings.
use skialith.Common.{
  ◌≡◌, refl, false, Option, none, some, List, [], ◌∷◌, String, Result, ok, str_eq, if◌then◌else◌,
}
use skialith.Main
use skialith.Main.Ran.{Ran, main-Ran}
use skialith.Store.SaveEvent.{ErrorOf}
use skialith.Server.Requests.{Request, state_request, checkpoint_request, event_request, unrouted}
use skialith.Server.Startup.{parse_digits, parse_u16, without_plus}
use skialith.Server.Startup
use skialith.Server.Startup.Port.{ReadsPort, main-ReadsPort}
use skialith.Server.Startup.Started.{Started, main-Started}
use skialith.Tests.Doubles.{Value, services, jet_stream-Acknowledges, unbounded-Delivers}
use skialith.Tests.Tables.{agent_traces, agent_traces-IsKeyed}
use skialith.Tests.Saving.{clock, clock-IsSteady, idle, body, app, request}
use skialith.Tests.Locking.{Bucket, bucket}
use skialith.Tests.Licensing.{keys}

abbrev vars : String → Option String
vars name = if str_eq name "TIDB_URL" then some "mysql://db" else none

abbrev unused : Bucket
unused = record { count = 0; revision = 0; written = 0 }

abbrev around : Main.Surroundings services keys bucket (Unit {0}) (Unit {0})
around = record {
  managed = false;
  vars = vars;
  nats_at = λ url. ok tt;
  tidb_at = λ url. ok tt;
  migrations = ok tt;
  license_now = 5;
  ha_now = 5;
  lock_now = 5;
  now = clock;
}

abbrev process : Main.Process services keys bucket (Unit {0}) (Unit {0})
process = record { kv = unused; state = idle }

main-Ran_example :
    (r : Result (Main.MainError (ErrorOf services) (Unit {0})) (Unit {0})) × (p' : Main.Process
      services keys bucket
      (Unit {0})
      (Unit {0}))
    × (Main.main services keys bucket (Unit {0}) (Unit {0}) 2 around process ≡ some (r, p'))
    × Ran services keys bucket (Unit {0}) (Unit {0}) around process r p'
main-Ran_example =
    main-Ran services keys bucket (Unit {0}) (Unit {0}) jet_stream-Acknowledges
      (unbounded-Delivers _) around clock-IsSteady process

abbrev port_vars : String → Option String
port_vars name = if str_eq name "SERVER_PORT" then some "+08081" else vars name

abbrev beside :
    Startup.Surroundings services keys bucket agent_traces (Unit {0}) (Unit {0}) (Unit {0})
beside = record {
  managed = false;
  vars = port_vars;
  nats_at = λ url. ok tt;
  tidb_at = λ url. ok tt;
  manager_at = λ url. ok tt;
  bind_at = λ p. ok tt;
  license_now = 5;
  ha_now = 5;
  lock_now = 5;
  now = clock;
}

abbrev requests : List (Request Value)
requests =
    event_request "a" request ∷ checkpoint_request "a" body ∷ state_request "a" ∷ unrouted ∷ []

main-Started_example :
    Started services keys bucket agent_traces
      (Unit {0})
      (Unit {0})
      (Unit {0})
      beside
      requests
      unused
      app
      (Startup.main services keys bucket agent_traces
        (Unit {0})
        (Unit {0})
        (Unit {0})
        2
        beside
        requests
        unused
        app).0
main-Started_example =
    main-Started services keys bucket agent_traces (Unit {0}) (Unit {0}) (Unit {0})
      jet_stream-Acknowledges (unbounded-Delivers _) agent_traces-IsKeyed beside clock-IsSteady
      requests unused app tt

main-ReadsPort_example :
    ReadsPort services keys bucket agent_traces
      (Unit {0})
      (Unit {0})
      (Unit {0})
      2
      beside
      requests
      unused
      app
      "mysql://db"
      (Startup.main services keys bucket agent_traces
        (Unit {0})
        (Unit {0})
        (Unit {0})
        2
        beside
        requests
        unused
        app)
main-ReadsPort_example =
    main-ReadsPort services keys bucket agent_traces (Unit {0}) (Unit {0}) (Unit {0}) 2 beside
      requests unused app "mysql://db" refl

port_read : parse_u16 "+08081" ≡ some 8081
unfolding parse_u16 parse_digits
port_read = refl

port_too_large : parse_u16 "65536" ≡ none
unfolding parse_u16 parse_digits
port_too_large = refl
