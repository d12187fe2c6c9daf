-- ===== src/Kube.antt =====
-- What cmd/kured/main.go and pkg/taints/taints.go ask of the world: calls to the Kubernetes API and to
-- its drain helper, and to the interfaces `Checker`, `RebootBlocker`, `Lock` and `Rebooter`. The code
-- is a program over these calls; what answers them is left open.
pub mod Program
pub mod Trace
pub mod Progress
use kured.Common.{ℕ, Bool, true, false, Option, none, some, List, [], ◌∷◌, Text, ℤ}
use kured.DaemonSetLock.Value.{NodeMeta}
use kured.DaemonSetLock.Reply.{AcquireReply, HoldingReply, LockError}

pub record TaintValue : Type 0 where
  pub key : Text
  pub value : Text
  pub effect : Text

pub record Node : Type 0 where
  pub name : Text
  pub unschedulable : Bool
  pub taints : List TaintValue
  pub annotations : Option (List (Text × Text))

-- The operations and paths of the JSON patch that `preferNoSchedule` builds.
pub data Op : Type 0 where
  test add remove : Op

pub data JsonPath : Type 0 where
  spec taints taints_end : JsonPath
  taints_at : ℕ → JsonPath

pub data PatchValue : Type 0 where
  no_value : PatchValue
  the_spec : Node → PatchValue
  the_taints : List TaintValue → PatchValue
  the_taint : TaintValue → PatchValue

pub record PatchTaints : Type 0 where
  pub op : Op
  pub path : JsonPath
  pub value : PatchValue

pub data Call : Type 0 where
  get_node : Text → Call
  patch_taints : Text → List PatchTaints → Call
  patch_annotations : Node → Call
  remove_annotation : Text → Text → Call
  patch_labels : Text → List (Text × Text) → Call
  cordon_or_uncordon : Node → Bool → Call
  drain_node : Text → Call
  send : (url template node : Text) → Call
  sleep : ℤ → Call
  reboot_required : Call
  is_blocked : ℕ → Call
  time_now : Call
  time_now_text : Call
  lock_holding : Call
  lock_acquire : NodeMeta → Call
  lock_release : Call
  reboot : Call

-- A call that returns only an error answers true for nil.
abbrev pub Reply : Call → Type 0
Reply (get_node i) = Option Node
Reply (patch_taints i p) = Bool
Reply (patch_annotations n) = Bool
Reply (remove_annotation i path) = Bool
Reply (patch_labels i l) = Bool
Reply (cordon_or_uncordon n b) = Bool
Reply (drain_node i) = Bool
Reply (send u t n) = Bool
Reply (sleep d) = Unit
Reply reboot_required = Bool
Reply (is_blocked k) = Bool
Reply time_now = ℕ
Reply time_now_text = Text
Reply lock_holding = HoldingReply
Reply (lock_acquire m) = AcquireReply
Reply lock_release = Bool
Reply reboot = Bool
