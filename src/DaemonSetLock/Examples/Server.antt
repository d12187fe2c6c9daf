-- ===== src/DaemonSetLock/Examples/Server.antt =====
-- A server in memory, a text form of the single lock of pkg/daemonsetlock/daemonsetlock.go, and two
-- nodes.
use kured.Common.{
  ℕ, zero, suc, ◌≡◌, refl, ap, ◌∙◌, ◌⊎◌, Bool, true, false, Option, none, some, ◌∷◌, Text, codes, ℤ,
  pos, negsuc, arith, ◌==◌, if◌then◌else◌,
}
use kured.DaemonSetLock.Value.{NodeMeta, LockAnnotationValue, GenericLock, DaemonSetSingleLock}
use kured.DaemonSetLock.Api.{
  DaemonSet, UpdateReply, updated, conflict, failed, ApiServer, Codec, Stores,
}
use kured.DaemonSetLock.Single.Nodes.{nodes, node_lock}
use kured.DaemonSetLock.Cluster.{Discipline}

abbrev pub in_memory : DaemonSet → DaemonSet → UpdateReply × DaemonSet
in_memory new old =
    if new.version == old.version
    then (updated, record { version = suc old.version; annotations = new.annotations })
    else (conflict, old)

pub in_memory_updated :
    (new old : DaemonSet) → (in_memory new old).0 ≡ updated → Stores old new (in_memory new old).1
in_memory_updated new old e = ground arith

pub in_memory_conflict :
    (new old : DaemonSet) → (in_memory new old).0 ≡ conflict → (in_memory new old).1 ≡ old
in_memory_conflict new old e = ground arith

pub in_memory_failed :
    (new old : DaemonSet)
    → (in_memory new old).0 ≡ failed
    → ((in_memory new old).1 ≡ old) ⊎ Stores old new (in_memory new old).1
in_memory_failed new old e = absurd (ground arith)

pub in_memory_get : (s ds : DaemonSet) → some s ≡ some ds → ds ≡ s
in_memory_get s ds e = cc

abbrev pub server : ApiServer
server = record {
  State = DaemonSet;
  stored = λ s. s;
  get = some;
  update = in_memory;
  get_stored = in_memory_get;
  update_updated = in_memory_updated;
  update_conflict = in_memory_conflict;
  update_failed = in_memory_failed;
}

-- A text form: flag, time, sign, duration, name.
abbrev pub flag : Bool → ℕ
flag true = 1
flag false = 0

abbrev pub encode_ttl : ℤ → Text → Text
encode_ttl (pos n) rest = 0 ∷ n ∷ rest
encode_ttl (negsuc n) rest = 1 ∷ n ∷ rest

abbrev pub encode_value : LockAnnotationValue → Text
encode_value v = flag v.metadata.unschedulable ∷ v.created ∷ encode_ttl v.ttl v.node_id

abbrev pub decode_ttl : ℕ → ℕ → ℤ
decode_ttl zero n = pos n
decode_ttl (suc k) n = negsuc n

abbrev pub decode_value : Text → Option LockAnnotationValue
decode_value (f ∷ created ∷ sign ∷ n ∷ name) = some (record {
  node_id = name;
  metadata = record { unschedulable = f == 1 };
  created = created;
  ttl = decode_ttl sign n;
})
decode_value _ = none

decode_ttl-encode :
    (f c : ℕ) (t : ℤ) (name : Text)
    → decode_value (f ∷ c ∷ encode_ttl t name)
      ≡ some (record {
        node_id = name;
        metadata = record { unschedulable = f == 1 };
        created = c;
        ttl = t;
      })
decode_ttl-encode f c (pos n) name = refl
decode_ttl-encode f c (negsuc n) name = refl

pub flag-eq : (b : Bool) → (flag b == 1) ≡ b
flag-eq true = refl
flag-eq false = refl

pub decode_value-encode :
    (v : LockAnnotationValue) (t : Text) → some (encode_value v) ≡ some t → decode_value t ≡ some v
decode_value-encode v t e =
    let same : encode_value v ≡ t = cc in
    rw (← same) (
      decode_ttl-encode (flag unschedulable) v.created v.ttl v.node_id
      ∙ ap (λ (b : Bool). some (record v { metadata = record { unschedulable = b } }))
          (flag-eq unschedulable))
  where
    open v use {metadata.{unschedulable}}

abbrev pub value_codec : Codec LockAnnotationValue
value_codec = record {
  marshal = λ v. some (encode_value v);
  unmarshal = decode_value;
  unmarshal-marshal = decode_value-encode;
}

abbrev pub kube_system : Text
kube_system = codes "kube-system"

abbrev pub ds_name : Text
ds_name = codes "kured"

abbrev pub node_lock_annotation : Text
node_lock_annotation = codes "weave.works/kured-node-lock"

abbrev pub one_minute : GenericLock
one_minute = record { ttl = pos 60; release_delay = pos 0 }

abbrev pub fleet : Discipline
fleet = nodes value_codec (λ i. one_minute) kube_system ds_name node_lock_annotation

abbrev pub lock_of : Text → DaemonSetSingleLock
lock_of = node_lock value_codec (λ i. one_minute) kube_system ds_name node_lock_annotation

abbrev pub node_a : Text
node_a = codes "a"

abbrev pub node_b : Text
node_b = codes "b"

abbrev pub schedulable : NodeMeta
schedulable = record { unschedulable = false }
