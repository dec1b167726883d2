-- ===== src/Tests/Licensing.antt =====
-- Licences, and stores that are connected with and without one.
use skialith.Common.{
  ℕ, suc, ◌<◌, ◌≡◌, refl, ◌↔◌, inr, String, true, false, none, some, List, [], ◌∷◌, arith, ok,
}
use skialith.Common.Text.{split_once_dot, trim}
use skialith.License.{Keys, LicensePayload, parse_and_verify, load, effective_rate_limit, allows_ha}
use skialith.License.Terms.{License}
use skialith.License.Signed.{IsSigned, granted-IsSigned, parse_and_verify_iff}
use skialith.Limits.{max_batch_size, min_flush_interval_ms}
use skialith.Lock.{Heartbeat}
use skialith.Store.Config.{default as default_cfg}
use skialith.Store.Connect.{Store, connect, connect-IsSigned}
use skialith.Tests.Locking.{bucket}

abbrev pub sixty_four : List ℕ
sixty_four = bytes 64
  where
    bytes : ℕ → List ℕ
    bytes ℕ.zero = []
    bytes (suc n) = n ∷ bytes n

abbrev pub terms : LicensePayload
terms = record {
  customer_id = "acme";
  max_events_per_second = some 5000;
  allow_ha = true;
  expires_at = 2000;
}

abbrev pub keys : Keys
keys = record {
  Key = Unit {0};
  Signature = List ℕ;
  decode = λ s. some sixty_four;
  key_from_bytes = λ bytes. some tt;
  signature_from_bytes = λ bytes. bytes;
  verify = λ key payload signature. true;
  from_slice = λ bytes. some terms;
}

abbrev license : License
license = record {
  customer_id = "acme";
  max_events_per_second = some 5000;
  allow_ha = true;
  expires_at = 2000;
}

parse_and_verify_iff_example :
    (parse_and_verify keys "p.s" ≡ some license) ↔ IsSigned keys "p.s" license
parse_and_verify_iff_example = parse_and_verify_iff keys "p.s" license

license_accepted : parse_and_verify keys "p.s" ≡ some license
unfolding parse_and_verify split_once_dot
license_accepted = refl

granted-IsSigned_example :
    (raw : String) × (lic : License) × (some " p.s" ≡ some raw)
    × IsSigned keys (trim raw) lic
    × (1000 < lic.expires_at)
unfolding load allows_ha split_once_dot trim
granted-IsSigned_example = granted-IsSigned keys 1000 (some " p.s") (inr refl)

abbrev connected :
    Store keys bucket (Unit {0}) (Unit {0}) (Unit {0}) (Unit {0}) (Unit {0}) (Unit {0}) (Unit {0})
connected = record {
  capacity = 10000;
  writer = record {
    cfg = record { max_batch_size = 64; max_batch_linger = 250; channel_capacity = 10000 };
    dead_letter_tx = none;
  };
  spawned =
      record {
        cfg = record { max_batch_size = 64; max_batch_linger = 250; channel_capacity = 10000 };
        dead_letter_tx = none;
      }
      ∷ [];
  dead_letter_tx = none;
  rate_limiter = record { window_start = 0; count = 0 };
  rate_limit = 5000;
  instance_lock = some Heartbeat.pending;
}

connect-IsSigned_example :
    (raw : String) × (lic : License) × (some " p.s" ≡ some raw)
    × IsSigned keys (trim raw) lic
    × (1000 < lic.expires_at)
unfolding connect load effective_rate_limit split_once_dot trim max_batch_size min_flush_interval_ms
connect-IsSigned_example =
    connect-IsSigned keys bucket (Unit {0}) (Unit {0}) (Unit {0}) (Unit {0}) (Unit {0}) (Unit {0})
      (Unit {0}) 1000 1001 1002 (some " p.s") false default_cfg (ok tt) (ok tt)
      (record { count = 0; revision = 0; written = 0 }) connected refl (λ e. omega (arith, e))
