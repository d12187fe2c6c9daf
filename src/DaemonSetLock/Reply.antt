-- ===== src/DaemonSetLock/Reply.antt =====
-- pkg/daemonsetlock/daemonsetlock.go: what the methods of the interface `Lock` return.
use kured.Common.{Bool, false, Option, some, [], Text}
use kured.DaemonSetLock.Value.{LockAnnotationValue, no_lock}

pub data LockError : Type 0 where
  timed_out bad_annotation marshal_failed update_failed lock_not_held : LockError
  not_lock_holder : Text → LockError

pub record AcquireReply : Type 0 where
  pub acquired : Bool
  pub holder : Text
  pub error : Option LockError

pub record HoldingReply : Type 0 where
  pub holding : Bool
  pub data_ : LockAnnotationValue
  pub error : Option LockError

abbrev pub not_acquired : LockError → AcquireReply
not_acquired e = record { acquired = false; holder = []; error = some e }

abbrev pub not_holding : Option LockError → HoldingReply
not_holding e = record { holding = false; data_ = no_lock; error = e }
