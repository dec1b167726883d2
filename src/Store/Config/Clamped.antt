-- ===== src/Store/Config/Clamped.antt =====
-- The limits of an edition on the configuration of a batch writer.
use skialith.Common.{◌<◌, Bool, Option, none, some, ◌≤◌, ◌≡◌, ◌↔◌}
use skialith.Limits.{max_batch_size, min_flush_interval_ms}
use skialith.Store.Config.{SkialithConfig, SkialithStore}

-- Within the limits of the edition.
pub record IsWithin (managed : Bool) (cfg : SkialithConfig) : Type 0 where
  pub batch : cfg.max_batch_size ≤ max_batch_size managed
  pub linger : min_flush_interval_ms managed ≤ cfg.max_batch_linger

-- What `new` makes of a configuration.
pub data Created {Tx Lock : Type 0} (managed : Bool) (cfg : SkialithConfig)
    : Option (SkialithStore Tx Lock) → Type 0 where
  no_channel : cfg.channel_capacity ≡ 0 → Created managed cfg none
  created :
      (s : SkialithStore Tx Lock)
      → 0 < cfg.channel_capacity
      → s.capacity ≡ cfg.channel_capacity
      → IsWithin managed s.writer.cfg
      → (s.writer.cfg ≡ cfg) ↔ IsWithin managed cfg
      → Created managed cfg (some s)
