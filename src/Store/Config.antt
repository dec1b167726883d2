-- ===== src/Store/Config.antt =====
-- `SkialithConfig`, the construction of a store, and the configurations under which the batch writers run.
pub mod Clamped
use skialith.Common.{Option, none, some, List, [], ◌∷◌, ℕ, Bool, min, max, ◌==◌, if◌then◌else◌}
use skialith.Limits.Limiter.{RateLimiter}
use skialith.Limits.Limiter
use skialith.Limits.{community_rate_limit, max_batch_size, min_flush_interval_ms}

-- `max_batch_linger` is in milliseconds.
pub record SkialithConfig : Type 0 where
  pub max_batch_size : ℕ
  pub max_batch_linger : ℕ
  pub channel_capacity : ℕ

-- `SkialithConfig::default()`
abbrev pub default : SkialithConfig
default = record { max_batch_size = 256; max_batch_linger = 250; channel_capacity = 10000 }

-- The first statement of `SkialithStore::new`.
unfoldable pub clamp : Bool → SkialithConfig → SkialithConfig
clamp managed cfg = record cfg {
  max_batch_size = min cfg.max_batch_size (max_batch_size managed);
  max_batch_linger = max cfg.max_batch_linger (min_flush_interval_ms managed);
}

-- A spawned `run_tidb_batch_writer`: its configuration, and whether it was given a dead-letter sender.
pub record WriterTask (Tx : Type 0) : Type 0 where
  pub cfg : SkialithConfig
  pub dead_letter_tx : Option Tx

-- `SkialithStore`, without the handles that only connect it: `writer` is the task that `enqueue_tx`
-- feeds, `capacity` the bound of that channel, and `spawned` has all tasks, the newest first.
pub record SkialithStore (Tx Lock : Type 0) : Type 0 where
  pub capacity : ℕ
  pub writer : WriterTask Tx
  pub spawned : List (WriterTask Tx)
  pub dead_letter_tx : Option Tx
  pub rate_limiter : RateLimiter
  pub rate_limit : ℕ
  pub instance_lock : Option Lock

abbrev spawn : {Tx : Type 0} → SkialithConfig → Option Tx → WriterTask Tx
spawn cfg tx = record { cfg = cfg; dead_letter_tx = tx }

module _ {Tx Lock : Type 0} where
  -- `SkialithStore::new`; `none`: `mpsc::channel` panics for a capacity of 0.
  unfoldable pub new : Bool → SkialithConfig → ℕ → Option Lock → Option (SkialithStore Tx Lock)
  unfolding clamp
  new managed cfg rate_limit lock =
      if (clamp managed cfg).channel_capacity == 0
      then none
      else some (record {
        capacity = (clamp managed cfg).channel_capacity;
        writer = spawn (clamp managed cfg) none;
        spawned = spawn (clamp managed cfg) none ∷ [];
        dead_letter_tx = none;
        rate_limiter = Limiter.default;
        rate_limit = rate_limit;
        instance_lock = lock;
      })

  unfoldable pub new_unchecked : Bool → SkialithConfig → Option (SkialithStore Tx Lock)
  unfolding new
  new_unchecked managed cfg = new managed cfg community_rate_limit none

  unfoldable pub with_dead_letter : Tx → SkialithStore Tx Lock → SkialithStore Tx Lock
  with_dead_letter tx s = record s {
    dead_letter_tx = some tx;
    capacity = 10000;
    writer = spawn default (some tx);
    spawned = spawn default (some tx) ∷ s.spawned;
  }
