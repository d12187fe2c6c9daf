-- ===== src/DaemonSetLock/Value.antt =====
-- pkg/daemonsetlock/daemonsetlock.go: the data of the lock and its expiry. Times are nanoseconds
-- since the year 1, Go's zero time.
use kured.Common.{
  ℕ, ◌-◌, min, Bool, false, ◌&&◌, Option, none, some, List, [], map, Text, ℤ, pos, negsuc, leb, ltb,
}

pub record NodeMeta : Type 0 where
  pub unschedulable : Bool

pub record LockAnnotationValue : Type 0 where
  pub node_id : Text
  pub metadata : NodeMeta
  pub created : ℕ
  pub ttl : ℤ

-- `none` is the nil slice.
pub record MultiLockAnnotationValue : Type 0 where
  pub max_owners : ℤ
  pub locks : Option (List LockAnnotationValue)

-- The zero values of the two structs.
abbrev pub no_lock : LockAnnotationValue
no_lock = record {
  node_id = [];
  metadata = record { unschedulable = false };
  created = 0;
  ttl = pos 0;
}

abbrev pub no_multi_lock : MultiLockAnnotationValue
no_multi_lock = record { max_owners = pos 0; locks = none }

abbrev pub elements : Option (List LockAnnotationValue) → List LockAnnotationValue
elements none = []
elements (some l) = l

-- A duration is at most 2^63 - 1 nanoseconds, and `time.Since` saturates there. A time in the future
-- counts as 0 here: `ttl_expired` compares the result with a positive duration only.
abbrev pub max_duration : ℕ
max_duration = 9223372036854775807

abbrev pub time_since : ℕ → ℕ → ℕ
time_since now created = min (now - created) max_duration

unfoldable pub ttl_expired : ℕ → ℕ → ℤ → Bool
ttl_expired now created (pos ttl) = ltb 0 ttl && leb ttl (time_since now created)
ttl_expired now created (negsuc ttl) = false

abbrev pub is_expired : ℕ → LockAnnotationValue → Bool
is_expired now v = ttl_expired now v.created v.ttl

unfoldable pub node_ids_from_multi_lock : MultiLockAnnotationValue → List Text
node_ids_from_multi_lock a = map (λ l. l.node_id) (elements a.locks)

pub record GenericLock : Type 0 where
  pub ttl : ℤ
  pub release_delay : ℤ

-- The client is bound to the API server that a method is given.
pub record DaemonSetLock : Type 0 where
  pub node_id : Text
  pub namespace : Text
  pub name : Text
  pub annotation : Text

pub record DaemonSetSingleLock : Type 0 where
  pub generic : GenericLock
  pub open generic use *
  pub lock : DaemonSetLock
  pub open lock use *

pub record DaemonSetMultiLock : Type 0 where
  pub generic : GenericLock
  pub open generic use *
  pub lock : DaemonSetLock
  pub open lock use *
  pub max_owners : ℤ

-- The implementations of the interface `Lock`.
pub data Lock : Type 0 where
  single : DaemonSetSingleLock → Lock
  multi : DaemonSetMultiLock → Lock
