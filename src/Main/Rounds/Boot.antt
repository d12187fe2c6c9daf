-- ===== src/Main/Rounds/Boot.antt =====
-- The order of the two loops of `rebootAsRequired` in cmd/kured/main.go: a node that comes up with the
-- lock puts itself back before it does anything that takes pods or nodes away.
use kured.Common.{◌≡◌, ◌⊎◌, inl, inr, Bool, true, false, not, ◌||◌, refl, arith}
use kured.Kube.{
  Call, Reply, patch_annotations, patch_taints, cordon_or_uncordon, drain_node, is_blocked,
  time_now, lock_holding, lock_acquire, lock_release, reboot,
}
use kured.Kube.Program.{Stop, waits, fatal, panics, Program, ret, halt, call}
use kured.Kube.Trace.{Monitor, Keeps}
use kured.Main.Startup.{Startup, show, May, startup_monitor}
use kured.Main.Rounds.Steps.{Ends}

-- Whether the lock is known not to be held, or released, and whether the second loop has begun.
pub record Boot : Type 0 where
  pub free : Bool
  pub begun : Bool

abbrev pub coming_up : Boot
coming_up = record { free = false; begun = false }

abbrev pub note : Boot → (c : Call) → Reply c → Boot
note s lock_holding r = record s { free = not r.holding }
note s lock_release r = record s { free = r }
note s time_now r = record s { begun = true }
note s _ r = s

-- The second loop begins with the lock not held, and only it takes pods and the node away.
abbrev pub InOrder : Boot → Call → Type 0
InOrder s time_now = (s.free ≡ true) ⊎ (s.begun ≡ true)
InOrder s (lock_acquire m) = s.begun ≡ true
InOrder s (cordon_or_uncordon n true) = s.begun ≡ true
InOrder s (drain_node i) = s.begun ≡ true
InOrder s reboot = s.begun ≡ true
InOrder s _ = Unit

abbrev pub WaitsInOrder : Boot → Stop → Type 0
WaitsInOrder s waits = s.begun ≡ true
WaitsInOrder s _ = Unit

abbrev pub boot_monitor : Monitor
boot_monitor = record {
  S = Boot;
  start = coming_up;
  observe = note;
  Rule = InOrder;
  StopRule = WaitsInOrder;
}

-- Once the second loop has begun, any call is in order.
begun-InOrder : (s : Boot) (c : Call) → s.begun ≡ true → InOrder s c
begun-InOrder s time_now b = inr b
begun-InOrder s (lock_acquire m) b = b
begun-InOrder s (cordon_or_uncordon n true) b = b
begun-InOrder s (cordon_or_uncordon n false) b = tt
begun-InOrder s (drain_node i) b = b
begun-InOrder s reboot b = b
begun-InOrder s _ b = tt

begun-note : (s : Boot) (c : Call) (r : Reply c) → s.begun ≡ true → (note s c r).begun ≡ true
begun-note s lock_holding r b = b
begun-note s lock_release r b = b
begun-note s time_now r b = refl
begun-note s _ r b = b

abbrev pub Anything : {A : Type 0} → Boot → A → Type 0
Anything s a = Unit

pub begun-Keeps :
    {A : Type 0} (s : Boot) (p : Program A) → s.begun ≡ true → Keeps boot_monitor Anything s p
begun-Keeps s (ret a) b = tt
begun-Keeps s (halt waits) b = b
begun-Keeps s (halt _) b = tt
begun-Keeps s (call c k) b =
    (begun-InOrder s c b, λ r. begun-Keeps (note s c r) (k r) (begun-note s c r b))

-- The lock is free by what the first loop has shown.
abbrev pub Agrees : Startup → Boot → Type 0
Agrees m s = s.free ≡ not m.holding || m.released

-- A call of the first loop is in order, and its reply keeps what the two monitors agree on.
May-InOrder : (m : Startup) (s : Boot) (c : Call) → May m c → InOrder s c
May-InOrder m s (patch_taints i p) h = absurd h
May-InOrder m s (patch_annotations n) h = absurd h
May-InOrder m s (cordon_or_uncordon n true) h = absurd h
May-InOrder m s (cordon_or_uncordon n false) h = tt
May-InOrder m s (drain_node i) h = absurd h
May-InOrder m s (is_blocked k) h = absurd h
May-InOrder m s time_now h = absurd h
May-InOrder m s (lock_acquire l) h = absurd h
May-InOrder m s reboot h = absurd h
May-InOrder m s _ h = tt

Agrees-note :
    (m : Startup) (s : Boot) (c : Call) (r : Reply c)
    → May m c
    → Agrees m s
    → Agrees (show m c r) (note s c r)
Agrees-note m s lock_holding r h a = ground arith
Agrees-note m s lock_release r h a = rw h.0 refl
Agrees-note m s _ r h a = a

abbrev pub IsFree : Boot → Bool → Type 0
IsFree s true = s.free ≡ true
IsFree s false = Unit

Ends-IsFree : (m : Startup) (s : Boot) (b : Bool) → Agrees m s → Ends m b → IsFree s b
Ends-IsFree m s true a (inl h) = ground arith
Ends-IsFree m s true a (inr (h, r)) = ground arith
Ends-IsFree m s false a e = tt

pub startup-Keeps :
    (m : Startup) (s : Boot) (p : Program Bool)
    → Agrees m s
    → Keeps startup_monitor Ends m p
    → Keeps boot_monitor IsFree s p
startup-Keeps m s (ret b) a e = Ends-IsFree m s b a e
startup-Keeps m s (halt fatal) a e = tt
startup-Keeps m s (halt panics) a e = tt
startup-Keeps m s (halt waits) a e = absurd e
startup-Keeps m s (call c k) a (may, rest) = (
  May-InOrder m s c may,
  λ r. startup-Keeps (show m c r) (note s c r) (k r) (Agrees-note m s c r may a) (rest r),
)
