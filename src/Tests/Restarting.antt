-- ===== src/Tests/Restarting.antt =====
-- A start that fails at the database, and the next one.
use skialith.Common.{◌≡◌, refl, none, false, ok, err, arith}
use skialith.License.{load, allows_ha}
use skialith.Lock.{already_running, acquire}
use skialith.Store.Config.{default as default_cfg}
use skialith.Store.SaveEvent.{instance_lock}
use skialith.Store.Connect.{returned, connect, display_lock}
use skialith.Store.Connect.LockedOut.{failed_connect_locks_out}
use skialith.Tests.Locking.{Bucket, bucket, bucket-ComparesAndSwaps, bucket-IsAvailable}
use skialith.Tests.Licensing.{keys}

abbrev unused : Bucket
unused = record { count = 0; revision = 0; written = 0 }

failed_connect_locks_out_example :
    (connect keys bucket
      (Unit {0})
      (Unit {0})
      (Unit {0})
      (Unit {0})
      (Unit {0})
      (Unit {0})
      (Unit {0})
      110
      110
      110
      none
      false
      default_cfg
      (ok tt)
      (ok tt)
      (connect keys bucket
        (Unit {0})
        (Unit {0})
        (Unit {0})
        (Unit {0})
        (Unit {0})
        (Unit {0})
        (Unit {0})
        100
        100
        100
        none
        false
        default_cfg
        (ok tt)
        (err tt)
        unused).1).0
    ≡ err (returned (instance_lock (display_lock already_running)))
unfolding connect load allows_ha acquire
failed_connect_locks_out_example =
    failed_connect_locks_out keys bucket (Unit {0}) (Unit {0}) (Unit {0}) (Unit {0}) (Unit {0})
      (Unit {0}) (Unit {0}) bucket-ComparesAndSwaps bucket-IsAvailable 100 100 100 none false
      default_cfg tt unused 110 110 110 default_cfg (ok tt) refl refl (omega arith) (omega arith)
