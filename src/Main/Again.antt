-- ===== src/Main/Again.antt =====
-- `Enable` and `Disable` of pkg/taints/taints.go, called again.
use kured.Common.{
  ℕ, ◌≡◌, ◌≢◌, refl, inl, inr, Bool, true, false, none, List, [], text_eq, text_eq_iff, pos, subst,
  arith, Bool-cases,
}
use kured.Kube.Program.{ret}
use kured.Kube.Trace.{Keeps-exec, EndsIn, World, exec, Event, done}
use kured.Taints.{Taint, enable, disable}
use kured.Main.Flags.{Flags}
use kured.Main.Status.{Status, nothing_seen, tick_monitor}
use kured.Main.Safety.TaintSteps.{enable-Keeps, disable-Keeps}

-- The monitor of a tick sees nothing of the taint, whatever the flags.
abbrev no_flags : Flags
no_flags = record {
  node_id = [];
  force_reboot = false;
  drain_delay = pos 0;
  reboot_delay = pos 0;
  notify_url = [];
  message_template_drain = [];
  message_template_reboot = [];
  message_template_uncordon = [];
  pre_reboot_node_labels = none;
  post_reboot_node_labels = none;
  annotate_nodes = false;
  prefer_no_schedule_taint_name = [];
  blockers = [];
}

abbrev never : ℕ → Bool
never t = false

-- The taint is known to be there, or not, unless it has no name.
abbrev IsKnown : Bool → Status → Taint → Type 0
IsKnown b s t = t.taint_name ≢ [] → t.exists ≡ b

enabled :
    (w : World) (t : Taint)
    → EndsIn (tick_monitor no_flags never) (IsKnown true) (exec w [] (enable t))
enabled w t =
    (Keeps-exec (tick_monitor no_flags never) (IsKnown true) w [] (enable t) tt
      (enable-Keeps no_flags never (IsKnown true) nothing_seen t (λ t' known. known))).1

disabled :
    (w : World) (t : Taint)
    → EndsIn (tick_monitor no_flags never) (IsKnown false) (exec w [] (disable t))
disabled w t =
    (Keeps-exec (tick_monitor no_flags never) (IsKnown false) w [] (disable t) tt
      (disable-Keeps no_flags never (IsKnown false) nothing_seen t (λ t' known. known))).1

-- After an `Enable` that returned, whatever the API answered, another one makes no call.
pub enable-again :
    (w : World) (t t' : Taint) (h : List Event)
    → exec w [] (enable t) ≡ (done t', h)
    → enable t' ≡ ret t'
unfolding enable
enable-again w t t' h e =
    let known : IsKnown true nothing_seen t' =
      subst (EndsIn (tick_monitor no_flags never) (λ s u. IsKnown true nothing_seen u)) e
        (enabled w t) in
    elim (Bool-cases (text_eq t'.taint_name [])) [
      | inl x ↦ rw x refl
      | inr x ↦
          let there : t'.exists ≡ true =
            known (λ same. ground (arith, text_eq_iff t'.taint_name [])) in
          rw x (simp there refl)
    ]

-- After a `Disable` that returned, whatever the API answered, another one makes no call.
pub disable-again :
    (w : World) (t t' : Taint) (h : List Event)
    → exec w [] (disable t) ≡ (done t', h)
    → disable t' ≡ ret t'
unfolding disable
disable-again w t t' h e =
    let known : IsKnown false nothing_seen t' =
      subst (EndsIn (tick_monitor no_flags never) (λ s u. IsKnown false nothing_seen u)) e
        (disabled w t) in
    elim (Bool-cases (text_eq t'.taint_name [])) [
      | inl x ↦ rw x refl
      | inr x ↦
          let gone : t'.exists ≡ false =
            known (λ same. ground (arith, text_eq_iff t'.taint_name [])) in
          rw x (simp gone refl)
    ]
