-- ===== src/Main/Safety/TaintSteps.antt =====
-- The taint of pkg/taints/taints.go in a tick of cmd/kured/main.go's second loop.
use kured.Common.{
  ℕ, ◌≡◌, ◌≢◌, inl, inr, refl, Bool, true, false, Option, none, some, [], Text, text_eq,
  text_eq_iff, Bool-cases,
}
use kured.Kube.{Node}
use kured.Kube.Program.{Program, ret, ◌>>=◌, ◌>>◌}
use kured.Kube.Trace.{Keeps}
use kured.Taints.{Taint, enable, disable, prefer_no_schedule, apply_taint, or_fatal, search_node}
use kured.Main.Flags.{Flags}
use kured.Main.Status.{Status, tick_monitor}

module _ (f : Flags) (contains : ℕ → Bool) where
  -- The taint's patches show nothing; what the process remembers of the taint changes.
  taint-then :
      {A : Type 0} (Q : Status → A → Type 0) (s : Status) (node_id name effect : Text) (b : Bool)
      (p : Program A)
      → Keeps (tick_monitor f contains) Q s p
      → Keeps (tick_monitor f contains) Q s (prefer_no_schedule node_id name effect b >> p)
  unfolding prefer_no_schedule
  taint-then Q s node_id name effect b p h = (tt, λ node. searched node)
    where
      patched : (r : Bool) → Keeps (tick_monitor f contains) Q s (or_fatal r >> p)
      patched true = h
      patched false = tt

      applied :
          (c : Bool) (found : Bool × ℕ × Node)
          → Keeps (tick_monitor f contains) Q s (apply_taint node_id name effect c found >> p)
      applied true (true, i, n) = h
      applied false (false, i, n) = h
      applied true (false, i, n) = (tt, patched)
      applied false (true, i, n) = (tt, patched)

      searched :
          (node : Option Node)
          → Keeps
              (tick_monitor f contains)
              Q
              s
              (search_node name node >>= apply_taint node_id name effect b >> p)
      searched none = tt
      searched (some n) = applied b _

  pub enable-Keeps :
      (Q : Status → Taint → Type 0) (s : Status) (t : Taint)
      → ((t' : Taint) → (t'.taint_name ≢ [] → t'.exists ≡ true) → Q s t')
      → Keeps (tick_monitor f contains) Q s (enable t)
  unfolding enable
  enable-Keeps Q s t q = elim (Bool-cases (text_eq t.taint_name [])) [
    | inl e ↦ rw e (q t λ named. absurd (named ((text_eq_iff t.taint_name []).0 e)))
    | inr e ↦ rw e (elim (Bool-cases t.exists) [
      | inl x ↦ simp x (q t λ named. x)
      | inr x ↦ rw x (
          taint-then Q s t.node_id t.taint_name t.effect true (ret (record t { exists = true }))
            (q _ λ named. refl))
    ])
  ]

  pub disable-Keeps :
      (Q : Status → Taint → Type 0) (s : Status) (t : Taint)
      → ((t' : Taint) → (t'.taint_name ≢ [] → t'.exists ≡ false) → Q s t')
      → Keeps (tick_monitor f contains) Q s (disable t)
  unfolding disable
  disable-Keeps Q s t q = elim (Bool-cases (text_eq t.taint_name [])) [
    | inl e ↦ rw e (q t λ named. absurd (named ((text_eq_iff t.taint_name []).0 e)))
    | inr e ↦ rw e (elim (Bool-cases t.exists) [
      | inl x ↦ rw x (
          taint-then Q s t.node_id t.taint_name t.effect false (ret (record t { exists = false }))
            (q _ λ named. refl))
      | inr x ↦ simp x (q t λ named. x)
    ])
  ]
