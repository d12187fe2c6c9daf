-- ===== src/Main/Safety/Steps.antt =====
-- The parts of a tick of cmd/kured/main.go's second loop, each with what follows it.
use kured.Common.{
  ℕ, ◌≡◌, inl, inr, refl, sym, subst, Bool, true, false, not, ◌&&◌, ◌||◌, Option, none, some, List,
  [], ◌∷◌, ◌++◌, Text, text_eq, Bool-cases, if◌then◌else◌, is_positive, ℤ,
}
use mathlib.Core.List.{append_assoc, append-nil}
use kured.Kube.{Node, sleep, drain_node}
use kured.Kube.Program.{Program, ret, halt, fatal, ask, ◌>>◌}
use kured.Kube.Trace.{Keeps}
use kured.Blockers.{reboot_blocked}
use kured.Main.Flags.{Flags, reboot_in_progress_annotation}
use kured.Main.Labels.{update_node_labels, labels_map, patch_node_labels}
use kured.Main.Nodes.{
  drain, cordon_and_drain, uncordon, update_labels, notify, annotate_found, patch_node,
}
use kured.Main.Loop.{mark_reboot, reboot_annotations, in_annotations}
use kured.Main.Status.{Status, IsClear, IsArmed, tick_monitor}

module _ (f : Flags) (contains : ℕ → Bool) {A : Type 0} (Q : Status → A → Type 0) where
  abbrev Kept : Status → Program A → Type 0
  Kept = Keeps (tick_monitor f contains) Q

  -- Steps that show nothing to the monitor.
  pub labels-then :
      (s : Status) (node : Node) (l : Option (List Text)) (p : Program A)
      → Kept s p
      → Kept s (update_labels node l >> p)
  unfolding update_node_labels
  labels-then s node none p h = h
  labels-then s node (some l) p h = patched (labels_map l [])
    where
      patched : (m : Option (List (Text × Text))) → Kept s (patch_node_labels node m >> p)
      patched none = tt
      patched (some m) = (tt, λ ok. h)

  pub sleep-then :
      (s : Status) (d : ℤ) (p : Program A)
      → Kept s p
      → Kept s ((if is_positive d then ask (sleep d) else ret tt) >> p)
  sleep-then s d p h = elim (Bool-cases (is_positive d)) [
    | inl e ↦ rw e (tt, λ r. h)
    | inr e ↦ rw e h
  ]

  pub notify-then :
      (s : Status) (template node : Text) (p : Program A)
      → Kept s p
      → Kept s (notify f template node >> p)
  notify-then s template node p h = elim (Bool-cases (text_eq f.notify_url [])) [
    | inl e ↦ rw e h
    | inr e ↦ rw e (tt, λ r. h)
  ]

-- `drain` fails with the lock still held and nothing drained, or succeeds.
module _ (f : Flags) (contains : ℕ → Bool) where
  pub drain-Keeps :
      (Q : Status → Bool → Type 0) (s : Status) (node : Node)
      → IsArmed f contains s
      → ((s' : Status) → IsArmed f contains s' → s'.failed ≡ true → Q s' false)
      → ((s' : Status) → IsClear f contains s' → s'.locked ≡ true → s'.release_tried ≡ false → s'.drained ≡ true → Q s' true)
      → Keeps (tick_monitor f contains) Q s (drain f node)
  unfolding drain
  drain-Keeps Q s node armed failed drained =
      labels-then f contains Q s node f.pre_reboot_node_labels
        ((if is_positive f.drain_delay then ask (sleep f.drain_delay) else ret tt)
          >> (notify f f.message_template_drain node.name >> cordon_and_drain node))
        (sleep-then f contains Q s f.drain_delay
          (notify f f.message_template_drain node.name >> cordon_and_drain node)
          (notify-then f contains Q s f.message_template_drain node.name (cordon_and_drain node)
            (armed, cordoned)))
    where
      emptied : (r : Bool) → Q (record s { cordoned = true; drained = r; failed = not r }) r
      emptied true = drained _ armed.0 armed.1 armed.5 refl
      emptied false = failed _ (armed.0, armed.1, refl, armed.3, armed.4, armed.5) refl

      cordoned :
          (r : Bool)
          → Keeps
              (tick_monitor f contains)
              Q
              (record s { cordoned = r; failed = not r })
              (if r then ask (drain_node node.name) else ret false)
      cordoned true = ((armed, refl), emptied)
      cordoned false = failed _ armed refl

  -- `uncordon` returns true, or the process ends.
  pub uncordon-Keeps :
      (Q : Status → Bool → Type 0) (s : Status) (node : Node)
      → s.release_tried ≡ true
      → s.failed ≡ true
      → f.force_reboot ≡ false
      → Q s true
      → Keeps (tick_monitor f contains) Q s (uncordon f node)
  unfolding uncordon
  uncordon-Keeps Q s node tried failed unforced q =
      ((tried, failed, unforced), λ r. uncordoned r)
    where
      uncordoned :
          (r : Bool)
          → Keeps
              (tick_monitor f contains)
              Q
              s
              (if r then update_labels node f.post_reboot_node_labels >> ret true else halt fatal)
      uncordoned true = labels-then f contains Q s node f.post_reboot_node_labels (ret true) q
      uncordoned false = tt

  -- Marking the node shows nothing.
  pub mark_reboot-Keeps :
      (Q : Status → Bool → Type 0) (s : Status) (node : Node)
      → ((r : Bool) → Q s r)
      → Keeps (tick_monitor f contains) Q s (mark_reboot f node)
  unfolding mark_reboot
  mark_reboot-Keeps Q s node q =
      elim (Bool-cases
        (f.annotate_nodes && not (in_annotations reboot_in_progress_annotation node.annotations))) [
          | inl e ↦ rw e (tt, λ now. (tt, λ found. annotated (reboot_annotations f now) found))
          | inr e ↦ rw e (q true)
        ]
    where
      patched :
          (n : Node) (m : Option (Option (List (Text × Text))))
          → Keeps (tick_monitor f contains) Q s (patch_node n m)
      patched n none = tt
      patched n (some m) = (tt, q)

      annotated :
          (kvs : List (Text × Text)) (found : Option Node)
          → Keeps (tick_monitor f contains) Q s (annotate_found kvs found)
      annotated kvs none = q false
      annotated kvs (some n) = patched n _

  -- The blockers are asked in turn until one blocks.
  pub reboot_blocked-Keeps :
      (Q : Status → Bool → Type 0) (s : Status) (bs : List ℕ)
      → s.in_window ≡ true
      → s.required ≡ true
      → s.blocked ≡ false
      → ((asked : List ℕ) → Q (record s { asked = asked; blocked = true }) true)
      → Q (record s { asked = s.asked ++ bs; blocked = false }) false
      → Keeps (tick_monitor f contains) Q s (reboot_blocked bs)
  unfolding reboot_blocked
  reboot_blocked-Keeps Q s [] window required free yes' no' =
      subst (λ s'. Q s' false)
        (λ i. record s { asked = append-nil s.asked i; blocked = sym free i }) no'
  reboot_blocked-Keeps Q s (b ∷ bs) window required free yes' no' = (
    (window, required, free),
    λ r. asked (λ s' w q u y n. reboot_blocked-Keeps Q s' bs w q u y n) r,
  )
    where
      asked :
          ((s' : Status)
            → s'.in_window ≡ true
            → s'.required ≡ true
            → s'.blocked ≡ false
            → ((a : List ℕ) → Q (record s' { asked = a; blocked = true }) true)
            → Q (record s' { asked = s'.asked ++ bs; blocked = false }) false
            → Keeps (tick_monitor f contains) Q s' (reboot_blocked bs))
          → (r : Bool)
          → Keeps
              (tick_monitor f contains)
              Q
              (record s { asked = s.asked ++ b ∷ []; blocked = r || s.blocked })
              (elim r [ true ↦ ret true | false ↦ reboot_blocked bs ])
      asked ih true = yes' (s.asked ++ b ∷ [])
      asked ih false =
          ih (record s { asked = s.asked ++ b ∷ [] }) window required free yes'
            (rw (append_assoc s.asked (b ∷ []) bs) no')
