-- ===== src/DaemonSetLock/Examples/MultiCodec.antt =====
-- A text form of several locks of pkg/daemonsetlock/daemonsetlock.go, and nodes that share them.
use kured.Common.{
  ℕ, zero, suc, ◌≡◌, refl, Option, none, some, List, [], ◌∷◌, Text, ℤ, pos, negsuc, ◌==◌,
}
use kured.DaemonSetLock.Value.{LockAnnotationValue, MultiLockAnnotationValue, DaemonSetMultiLock}
use kured.DaemonSetLock.Api.{Codec}
use kured.DaemonSetLock.Cluster.{Discipline}
use kured.DaemonSetLock.Multi.Nodes.{nodes, node_lock}
use kured.DaemonSetLock.Examples.Server.{
  flag-eq, node_lock_annotation, kube_system, ds_name, one_minute, flag, decode_ttl,
}

-- A lock is its flag, time, sign and duration after a 0; then come the letters of its name, each
-- after a 1.
abbrev pub encode_name : Text → Text → Text
encode_name [] rest = rest
encode_name (c ∷ cs) rest = 1 ∷ c ∷ encode_name cs rest

abbrev pub sign : ℤ → ℕ
sign (pos n) = 0
sign (negsuc n) = 1

abbrev pub size : ℤ → ℕ
size (pos n) = n
size (negsuc n) = n

abbrev pub encode_locks : List LockAnnotationValue → Text
encode_locks [] = []
encode_locks (v ∷ vs) =
    0
    ∷ flag v.metadata.unschedulable
    ∷ v.created
    ∷ sign v.ttl
    ∷ size v.ttl
    ∷ encode_name v.node_id (encode_locks vs)

abbrev pub add_letter :
    ℕ → Option (Text × List LockAnnotationValue) → Option (Text × List LockAnnotationValue)
add_letter c none = none
add_letter c (some (name, vs)) = some (c ∷ name, vs)

abbrev pub add_lock :
    ℕ → ℕ → ℤ → Option (Text × List LockAnnotationValue) → Option (Text × List LockAnnotationValue)
add_lock f created ttl none = none
add_lock f created ttl (some (name, vs)) = some (
  [],
  record {
    node_id = name;
    metadata = record { unschedulable = f == 1 };
    created = created;
    ttl = ttl;
  }
      ∷ vs,
)

abbrev pub decode_locks : Text → Option (Text × List LockAnnotationValue)
decode_locks [] = some ([], [])
decode_locks (zero ∷ f ∷ created ∷ s ∷ n ∷ rest) =
    add_lock f created (decode_ttl s n) (decode_locks rest)
decode_locks (suc k ∷ c ∷ rest) = add_letter c (decode_locks rest)
decode_locks _ = none

decode_locks-name :
    (name rest : Text) (vs : List LockAnnotationValue)
    → decode_locks rest ≡ some ([], vs)
    → decode_locks (encode_name name rest) ≡ some (name, vs)
decode_locks-name [] rest vs e = e
decode_locks-name (c ∷ cs) rest vs e = rw (decode_locks-name cs rest vs e) refl

decode_ttl-sign : (t : ℤ) → decode_ttl (sign t) (size t) ≡ t
decode_ttl-sign (pos n) = refl
decode_ttl-sign (negsuc n) = refl

decode_locks-encode :
    (vs : List LockAnnotationValue) → decode_locks (encode_locks vs) ≡ some ([], vs)
decode_locks-encode [] = refl
decode_locks-encode (v ∷ vs) =
    rw
      (
        decode_locks-name v.node_id (encode_locks vs) vs (decode_locks-encode vs),
        decode_ttl-sign v.ttl,
        flag-eq v.metadata.unschedulable,
      )
      refl

abbrev pub encode_list : Option (List LockAnnotationValue) → Text
encode_list none = 0 ∷ []
encode_list (some vs) = 1 ∷ encode_locks vs

abbrev pub encode_multi : MultiLockAnnotationValue → Text
encode_multi a = sign a.max_owners ∷ size a.max_owners ∷ encode_list a.locks

abbrev pub with_max : ℤ → Option (Text × List LockAnnotationValue) → Option MultiLockAnnotationValue
with_max max none = none
with_max max (some (name, vs)) = some (record { max_owners = max; locks = some vs })

abbrev pub decode_multi : Text → Option MultiLockAnnotationValue
decode_multi (s ∷ n ∷ zero ∷ rest) = some (record { max_owners = decode_ttl s n; locks = none })
decode_multi (s ∷ n ∷ suc k ∷ rest) = with_max (decode_ttl s n) (decode_locks rest)
decode_multi _ = none

decode_multi-encode :
    (max : ℤ) (o : Option (List LockAnnotationValue))
    → decode_multi (encode_multi (record { max_owners = max; locks = o }))
      ≡ some (record { max_owners = max; locks = o })
decode_multi-encode max none = rw (decode_ttl-sign max) refl
decode_multi-encode max (some vs) = rw (decode_locks-encode vs, decode_ttl-sign max) refl

pub multi_codec_law :
    (a : MultiLockAnnotationValue) (t : Text)
    → some (encode_multi a) ≡ some t
    → decode_multi t ≡ some a
multi_codec_law a t e =
    let same : encode_multi a ≡ t = cc in rw (← same) (decode_multi-encode a.max_owners a.locks)

abbrev pub multi_codec : Codec MultiLockAnnotationValue
multi_codec = record {
  marshal = λ a. some (encode_multi a);
  unmarshal = decode_multi;
  unmarshal-marshal = multi_codec_law;
}

abbrev pub fleet : Discipline
fleet = nodes multi_codec (λ i. one_minute) kube_system ds_name node_lock_annotation 1

abbrev pub lock_of : Text → DaemonSetMultiLock
lock_of = node_lock multi_codec (λ i. one_minute) kube_system ds_name node_lock_annotation 1
