-- ===== src/DaemonSetLock/Multi.antt =====
-- pkg/daemonsetlock/daemonsetlock.go: the methods of `DaemonSetMultiLock`, and `New`.
pub mod Space
pub mod Removal
pub mod Decide
pub mod Nodes
pub mod Reentry
pub mod Exclusion
pub mod Runs
pub mod Alone
use kured.Common.{
  ℕ, Bool, true, false, ◌&&◌, ◌||◌, not, Option, none, some, List, [], ◌∷◌, ◌++◌, Text, text_eq,
  codes, ℤ, pos, length, less_than_int, is_none, if◌then◌else◌, ltb,
}
use kured.DaemonSetLock.Value.{
  NodeMeta, LockAnnotationValue, MultiLockAnnotationValue, no_lock, no_multi_lock, elements,
  is_expired, ttl_expired, node_ids_from_multi_lock, DaemonSetLock, DaemonSetMultiLock, Lock,
  single, multi,
}
use kured.DaemonSetLock.Api.{DaemonSet, get_annotation, set_annotation, ApiServer, Codec}
use kured.DaemonSetLock.Reply.{
  LockError, timed_out, bad_annotation, marshal_failed, update_failed, lock_not_held, AcquireReply,
  HoldingReply, not_acquired, not_holding,
}
use kured.DaemonSetLock.Retry.{Decision, answer, write, Method, Turn, get_daemon_set, run}

-- `append` to a slice.
abbrev pub append_lock :
    Option (List LockAnnotationValue) → LockAnnotationValue → Option (List LockAnnotationValue)
append_lock l v = some (elements l ++ v ∷ [])

-- The loop of `canAcquireMultiple`, with its variables `freeSpace` and `newAnnotation`.
unfoldable pub drop_expired :
    ℕ
    → List LockAnnotationValue
    → Bool
    → Option (List LockAnnotationValue)
    → Bool × Option (List LockAnnotationValue)
unfolding ttl_expired
drop_expired now [] free_space kept = (free_space, kept)
drop_expired now (v ∷ vs) free_space kept =
    drop_expired now vs (is_expired now v || free_space)
      (if is_expired now v then kept else append_lock kept v)

abbrev pub add_owner :
    ℤ
    → LockAnnotationValue
    → Bool × Option (List LockAnnotationValue)
    → Bool × MultiLockAnnotationValue
add_owner max_owners v (true, kept) =
    (true, record { max_owners = max_owners; locks = append_lock kept v })
add_owner max_owners v (false, kept) = (false, no_multi_lock)

unfoldable pub can_acquire_multiple :
    DaemonSetLock
    → MultiLockAnnotationValue
    → NodeMeta
    → (ttl max_owners : ℤ) → (now : ℕ) → Bool × MultiLockAnnotationValue
unfolding drop_expired
can_acquire_multiple dsl annotation metadata ttl max_owners now =
    add_owner max_owners
      (record { node_id = dsl.node_id; metadata = metadata; created = now; ttl = ttl })
      (if is_none annotation.locks || less_than_int (length (elements annotation.locks)) max_owners
        then (true, annotation.locks)
        else drop_expired now (elements annotation.locks) false none)

-- `strings.Join`.
abbrev pub join_from : Text → List Text → Text → Text
join_from s [] sep = s
join_from s (t ∷ ts) sep = s ++ sep ++ join_from t ts sep

abbrev pub join : List Text → Text → Text
join [] sep = []
join (s ∷ ts) sep = join_from s ts sep

-- `Holding` looks for a lock of the node that has not expired.
unfoldable pub find_holding : Text → ℕ → List LockAnnotationValue → Option LockAnnotationValue
unfolding ttl_expired
find_holding node now [] = none
find_holding node now (v ∷ vs) =
    if text_eq v.node_id node && not (is_expired now v) then some v else find_holding node now vs

abbrev pub cons_rest :
    LockAnnotationValue → Option (List LockAnnotationValue) → Option (List LockAnnotationValue)
cons_rest v none = none
cons_rest v (some vs) = some (v ∷ vs)

-- The loop of `Release`: the list without the node's first lock, or `none` if it was not modified.
unfoldable pub remove_lock : Text → List LockAnnotationValue → Option (List LockAnnotationValue)
remove_lock node [] = none
remove_lock node (v ∷ vs) =
    if text_eq v.node_id node then some vs else cons_rest v (remove_lock node vs)

module _ (codec : Codec MultiLockAnnotationValue) (dsl : DaemonSetMultiLock) where
  open codec use {marshal, unmarshal}

  -- An annotation that is missing is read as the empty value.
  abbrev pub read_annotation : Option Text → Option MultiLockAnnotationValue
  read_annotation none = some no_multi_lock
  read_annotation (some text) = unmarshal text

  abbrev pub holders : MultiLockAnnotationValue → Text
  holders a = join (node_ids_from_multi_lock a) (codes ",")

  abbrev pub store_acquired :
      DaemonSet → MultiLockAnnotationValue → Option Text → Decision AcquireReply
  store_acquired ds new none = answer (not_acquired marshal_failed)
  store_acquired ds new (some text) =
      write (record ds { annotations = set_annotation dsl.annotation text ds.annotations })
        (record { acquired = true; holder = holders new; error = none })

  abbrev pub acquire_possible : DaemonSet → Bool × MultiLockAnnotationValue → Decision AcquireReply
  acquire_possible ds (false, new) =
      answer (record { acquired = false; holder = holders new; error = none })
  acquire_possible ds (true, new) = store_acquired ds new (marshal new)

  abbrev pub acquire_annotation :
      NodeMeta → ℕ → DaemonSet → Option MultiLockAnnotationValue → Decision AcquireReply
  acquire_annotation meta now ds none = answer (not_acquired bad_annotation)
  acquire_annotation meta now ds (some a) =
      acquire_possible ds (can_acquire_multiple dsl.lock a meta dsl.ttl dsl.max_owners now)

  unfoldable pub acquire_decide : NodeMeta → ℕ → DaemonSet → Decision AcquireReply
  unfolding can_acquire_multiple node_ids_from_multi_lock
  acquire_decide meta now ds =
      acquire_annotation meta now ds
        (read_annotation (get_annotation dsl.annotation ds.annotations))

  abbrev pub holding_found : Option LockAnnotationValue → HoldingReply
  holding_found none = not_holding none
  holding_found (some v) = record { holding = true; data_ = v; error = none }

  abbrev pub holding_value : ℕ → Option MultiLockAnnotationValue → HoldingReply
  holding_value now none = not_holding (some bad_annotation)
  holding_value now (some a) = holding_found (find_holding dsl.node_id now (elements a.locks))

  abbrev pub holding_annotation : ℕ → Option Text → HoldingReply
  holding_annotation now none = not_holding none
  holding_annotation now (some text) = holding_value now (unmarshal text)

  abbrev pub holding_daemon_set : ℕ → Option DaemonSet → HoldingReply
  holding_daemon_set now none = not_holding (some timed_out)
  holding_daemon_set now (some ds) =
      holding_annotation now (get_annotation dsl.annotation ds.annotations)

  abbrev pub store_released : DaemonSet → Option Text → Decision (Option LockError)
  store_released ds none = answer (some marshal_failed)
  store_released ds (some text) =
      write (record ds { annotations = set_annotation dsl.annotation text ds.annotations }) none

  abbrev pub release_modified :
      DaemonSet → ℤ → Option (List LockAnnotationValue) → Decision (Option LockError)
  release_modified ds max_owners none = answer (some lock_not_held)
  release_modified ds max_owners (some rest) =
      store_released ds (marshal (record { max_owners = max_owners; locks = some rest }))

  abbrev pub release_value :
      DaemonSet → Option MultiLockAnnotationValue → Decision (Option LockError)
  release_value ds none = answer (some bad_annotation)
  release_value ds (some a) =
      release_modified ds a.max_owners (remove_lock dsl.node_id (elements a.locks))

  abbrev pub release_annotation : DaemonSet → Option Text → Decision (Option LockError)
  release_annotation ds none = answer (some lock_not_held)
  release_annotation ds (some text) = release_value ds (unmarshal text)

  unfoldable pub release_decide : ℕ → DaemonSet → Decision (Option LockError)
  unfolding remove_lock
  release_decide now ds = release_annotation ds (get_annotation dsl.annotation ds.annotations)

  abbrev pub acquire_method : NodeMeta → Method AcquireReply
  acquire_method meta = record {
    decide = acquire_decide meta;
    on_timeout = not_acquired timed_out;
    on_failure = not_acquired update_failed;
  }

  abbrev pub release_method : Method (Option LockError)
  release_method = record {
    decide = release_decide;
    on_timeout = some timed_out;
    on_failure = some update_failed;
  }

module _ (api : ApiServer) (codec : Codec MultiLockAnnotationValue) (dsl : DaemonSetMultiLock) where
  open api use {State}

  unfoldable pub acquire : NodeMeta → List (Turn api) → State → Option (AcquireReply × State)
  unfolding run acquire_decide
  acquire meta = run api (acquire_method codec dsl meta)

  unfoldable pub holding : Turn api → State → HoldingReply × State
  unfolding get_daemon_set find_holding
  holding t s =
      let (ds, s') = get_daemon_set api t.attempts s in (holding_daemon_set codec dsl t.now ds, s')

  -- The wait of `releaseDelay` before the first round is part of what others do in its first turn.
  unfoldable pub release : List (Turn api) → State → Option (Option LockError × State)
  unfolding run release_decide
  release = run api (release_method codec dsl)

-- `New`: more than one owner takes the multiple lock.
unfoldable pub new_lock :
    (node_id namespace name annotation : Text) → (ttl concurrency delay : ℤ) → Lock
new_lock node_id namespace name annotation ttl concurrency delay =
    let dsl : DaemonSetLock = record {
      node_id = node_id;
      namespace = namespace;
      name = name;
      annotation = annotation;
    } in
    if less_than_int 1 concurrency
    then multi (record {
      generic = record { ttl = ttl; release_delay = delay };
      lock = dsl;
      max_owners = concurrency;
    })
    else single (record { generic = record { ttl = ttl; release_delay = delay }; lock = dsl })
