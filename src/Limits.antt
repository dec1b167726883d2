-- ===== src/Limits.antt =====
-- src/limits.rs: the constants of the two editions. Whether the `managed` feature is compiled in
-- is an argument.
pub mod Limiter
pub mod Sleep
pub mod Throughput
pub mod Interleaved
pub mod Overrun
use skialith.Common.{ℕ, Bool, ◌-◌, ◌^◌, if◌then◌else◌}

abbrev pub u32_max : ℕ
u32_max = 2 ^ 32 - 1

-- The program runs on 64-bit targets: `usize::MAX`.
abbrev pub usize_max : ℕ
usize_max = 2 ^ 64 - 1

abbrev pub community_rate_limit : ℕ
community_rate_limit = 1000

unfoldable pub max_batch_size : Bool → ℕ
max_batch_size managed = if managed then usize_max else 64

unfoldable pub min_flush_interval_ms : Bool → ℕ
min_flush_interval_ms managed = if managed then 0 else 100
