-- ===== src/DaemonSetLock/Api.antt =====
-- What pkg/daemonsetlock/daemonsetlock.go uses of packages that are not in the repository: the
-- Kubernetes API server, which keeps the DaemonSet, and a text form of the lock's data.
use kured.Common.{ℕ, ◌<◌, ◌≡◌, ◌⊎◌, Option, none, some, List, [], Text, lookup, insert, delete}

-- `annotations` is `none` for the nil map. A version is a resource version: here the number of the
-- write that stored the object, so that a later write has a greater one.
pub record DaemonSet : Type 0 where
  pub version : ℕ
  pub annotations : Option (List (Text × Text))

-- `ds.Annotations[key]`: a nil map holds nothing.
abbrev pub get_annotation : Text → Option (List (Text × Text)) → Option Text
get_annotation key none = none
get_annotation key (some m) = lookup key m

-- The write of a key, after a nil map has been replaced by an empty one.
abbrev pub set_annotation : Text → Text → Option (List (Text × Text)) → Option (List (Text × Text))
set_annotation key text none = some (insert key text [])
set_annotation key text (some m) = some (insert key text m)

-- `delete(ds.Annotations, key)`.
abbrev pub delete_annotation : Text → Option (List (Text × Text)) → Option (List (Text × Text))
delete_annotation key none = none
delete_annotation key (some m) = some (delete key m)

-- `failed` is any error but a conflict.
pub data UpdateReply : Type 0 where
  updated conflict failed : UpdateReply

-- `now` is what the server has after it stored `new` in place of `old`: only a write of the version
-- that is stored is taken.
pub record Stores (old new now : DaemonSet) : Type 0 where
  pub same_version : new.version ≡ old.version
  pub newer : old.version < now.version
  pub taken : now.annotations ≡ new.annotations

-- One DaemonSet at the API server, with optimistic concurrency. A call that fails by a lost reply may
-- have been carried out.
pub record ApiServer : Type 1 where
  pub State : Type 0
  pub stored : State → DaemonSet
  pub get : State → Option DaemonSet
  pub update : DaemonSet → State → UpdateReply × State
  pub get_stored : (s : State) (ds : DaemonSet) → get s ≡ some ds → ds ≡ stored s
  pub update_updated :
      (ds : DaemonSet) (s : State)
      → (update ds s).0 ≡ updated
      → Stores (stored s) ds (stored (update ds s).1)
  pub update_conflict :
      (ds : DaemonSet) (s : State) → (update ds s).0 ≡ conflict → stored (update ds s).1 ≡ stored s
  pub update_failed :
      (ds : DaemonSet) (s : State)
      → (update ds s).0 ≡ failed
      → (stored (update ds s).1 ≡ stored s) ⊎ Stores (stored s) ds (stored (update ds s).1)

-- `json.Marshal` and `json.Unmarshal` at one type.
pub record Codec (A : Type 0) : Type 0 where
  pub marshal : A → Option Text
  pub unmarshal : Text → Option A
  pub unmarshal-marshal : (a : A) (t : Text) → marshal a ≡ some t → unmarshal t ≡ some a
