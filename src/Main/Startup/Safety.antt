-- ===== src/Main/Startup/Safety.antt =====
-- The first loop of `rebootAsRequired` in cmd/kured/main.go keeps the rules of Main/Startup.
use kured.Common.{
  ◌≡◌, ◌⊎◌, inl, inr, refl, Bool, true, false, not, Option, none, some, List, [], Text, Bool-cases,
  if◌then◌else◌, text_eq, ◌∙◌,
}
use kured.DaemonSetLock.Reply.{HoldingReply}
use kured.Kube.{Node, get_node, lock_holding, lock_release}
use kured.Kube.Program.{Program, ret, halt, fatal, ask, ◌>>=◌, ◌>>◌}
use kured.Kube.Trace.{Keeps, Keeps-bind, Keeps-exec, World, exec, Obeys, EndsIn}
use kured.Main.Flags.{Flags, reboot_in_progress_annotation}
use kured.Main.Labels.{update_node_labels, labels_map, patch_node_labels}
use kured.Main.Nodes.{notify, uncordon, update_labels, delete_node_annotation}
use kured.Main.Loop.{
  startup_uncordon, startup_unannotate, startup_node, startup_tick, unannotate, in_annotations,
}
use kured.Main.Startup.{Startup, nothing_shown, show, IsRestored, startup_monitor, LeavesBy}

module _ {A : Type 0} (Q : Startup → A → Type 0) where
  abbrev Kept : Startup → Program A → Type 0
  Kept = Keeps startup_monitor Q

  labels-then :
      (s : Startup) (node : Node) (l : Option (List Text)) (p : Program A)
      → Kept s p
      → Kept s (update_labels node l >> p)
  unfolding update_node_labels
  labels-then s node none p h = h
  labels-then s node (some l) p h = patched (labels_map l [])
    where
      patched : (m : Option (List (Text × Text))) → Kept s (patch_node_labels node m >> p)
      patched none = tt
      patched (some m) = (tt, λ ok. h)

  notify-then :
      (f : Flags) (s : Startup) (template node : Text) (p : Program A)
      → Kept s p
      → Kept s (notify f template node >> p)
  notify-then f s template node p h = elim (Bool-cases (text_eq f.notify_url [])) [
    | inl e ↦ rw e h
    | inr e ↦ rw e (tt, λ r. h)
  ]

module _ (f : Flags) where
  -- `uncordon` returns nil, or the process ends.
  startup_uncordon-Keeps :
      (Q : Startup → Bool → Type 0) (s : Startup) (held : HoldingReply) (node : Node)
      → s.holding ≡ true
      → s.was_unschedulable ≡ held.data_.metadata.unschedulable
      → Q (record s { uncordoned = true }) true
      → (s.was_unschedulable ≡ true → Q s true)
      → Keeps startup_monitor Q s (startup_uncordon f held node)
  unfolding startup_uncordon uncordon
  startup_uncordon-Keeps Q s held node holds known done kept =
      elim (Bool-cases held.data_.metadata.unschedulable) [
        | inl e ↦ rw e (kept (known ∙ e))
        | inr e ↦ rw e ((holds, known ∙ e), uncordoned)
      ]
    where
      restored : Startup
      restored = record s { uncordoned = true }

      tell : Bool → Program Bool
      tell ok = if ok then notify f f.message_template_uncordon f.node_id >> ret true else ret false

      labelled :
          Keeps startup_monitor Q restored
            (update_labels node f.post_reboot_node_labels >> ret true >>= tell)
      labelled =
          Keeps-bind startup_monitor Q tell restored
            (update_labels node f.post_reboot_node_labels >> ret true)
            (labels-then (λ s' ok. Keeps startup_monitor Q s' (tell ok)) restored node
              f.post_reboot_node_labels (ret true)
              (notify-then Q f restored f.message_template_uncordon f.node_id (ret true) done))

      uncordoned :
          (r : Bool)
          → Keeps startup_monitor Q
              (record s { uncordoned = r })
              ((if r then update_labels node f.post_reboot_node_labels >> ret true else halt fatal)
                >>= tell)
      uncordoned true = labelled
      uncordoned false = tt

  -- Held, restored, and not released.
  abbrev IsBack : Startup → Type 0
  IsBack s = (s.holding ≡ true) × IsRestored s × (s.released ≡ false)

  startup_unannotate-Keeps :
      (Q : Startup → Bool → Type 0) (s : Startup) (node : Node)
      → IsBack s
      → s.unannotate_failed ≡ false
      → ((s' : Startup) (ok : Bool) → IsBack s' → s'.unannotate_failed ≡ not ok → Q s' ok)
      → Keeps startup_monitor Q s (startup_unannotate f node)
  unfolding startup_unannotate delete_node_annotation
  startup_unannotate-Keeps Q s node (holds, restored, unreleased) well q =
      elim (Bool-cases f.annotate_nodes) [
        | inl e ↦ rw e (
          (holds, restored),
          λ r. asked r (Bool-cases (in_annotations reboot_in_progress_annotation node.annotations)),
        )
        | inr e ↦ rw e (q s true (holds, restored, unreleased) well)
      ]
    where
      removed :
          (s' : Startup)
          → IsBack s'
          → s'.required ≡ false
          → Keeps startup_monitor Q s'
              (delete_node_annotation f.node_id reboot_in_progress_annotation)
      removed s' (h, r, u) unrequired =
          ((h, r, unrequired), λ ok. q (record s' { unannotate_failed = not ok }) ok (h, r, u) refl)

      asked :
          (r : Bool)
          → (in_annotations reboot_in_progress_annotation node.annotations ≡ true)
            ⊎ (in_annotations reboot_in_progress_annotation node.annotations ≡ false)
          → Keeps startup_monitor Q (record s { required = r }) (unannotate f node r)
      asked true e = q (record s { required = true }) true (holds, restored, unreleased) well
      asked false (inl e) =
          rw e (removed (record s { required = false }) (holds, restored, unreleased) refl)
      asked false (inr e) =
          rw e (q (record s { required = false }) true (holds, restored, unreleased) well)

  back-Keeps :
      (s : Startup) (node : Node)
      → IsBack s
      → s.unannotate_failed ≡ false
      → Keeps startup_monitor LeavesBy s
          (startup_unannotate f node >>= (λ ok. if ok then ask lock_release else ret false))
  back-Keeps s node back well =
      Keeps-bind startup_monitor LeavesBy (λ ok. if ok then ask lock_release else ret false) s
        (startup_unannotate f node) (startup_unannotate-Keeps _ s node back well left)
    where
      released : (s' : Startup) → IsBack s' → (r : Bool) → LeavesBy (record s' { released = r }) r
      released s' (h, r, u) true = inr (refl, r)
      released s' (h, r, u) false = (h, refl)

      left :
          (s' : Startup) (ok : Bool)
          → IsBack s'
          → s'.unannotate_failed ≡ not ok
          → Keeps startup_monitor LeavesBy s' (if ok then ask lock_release else ret false)
      left s' true b e = ((b.0, b.1, e), released s' b)
      left s' false b e = (b.0, b.2)

  startup_node-Keeps :
      (s : Startup) (held : HoldingReply) (node : Option Node)
      → s.holding ≡ true
      → s.was_unschedulable ≡ held.data_.metadata.unschedulable
      → s.unannotate_failed ≡ false
      → s.released ≡ false
      → Keeps startup_monitor LeavesBy s (startup_node f held node)
  startup_node-Keeps s held none holds known well unreleased = (holds, unreleased)
  startup_node-Keeps s held (some node) holds known well unreleased =
      Keeps-bind startup_monitor LeavesBy _ s (startup_uncordon f held node) (
        startup_uncordon-Keeps _ s held node holds known
          (back-Keeps (record s { uncordoned = true }) node (holds, inr refl, unreleased) well)
          (λ was. back-Keeps s node (holds, inl was, unreleased) well))

  pub startup_tick-Keeps : Keeps startup_monitor LeavesBy nothing_shown (startup_tick f)
  unfolding startup_tick
  startup_tick-Keeps = (tt, λ held. tested held (Bool-cases held.holding))
    where
      holder : HoldingReply → Startup
      holder held = record nothing_shown {
        holding = true;
        was_unschedulable = held.data_.metadata.unschedulable;
      }

      tested :
          (held : HoldingReply)
          → (held.holding ≡ true) ⊎ (held.holding ≡ false)
          → Keeps startup_monitor LeavesBy
              (show nothing_shown lock_holding held)
              (if held.holding then ask (get_node f.node_id) >>= startup_node f held else ret true)
      tested held (inl e) =
          simp e (refl, λ node. startup_node-Keeps (holder held) held node refl refl refl refl)
      tested held (inr e) = simp e (inl refl)

  -- Whatever the world answers, a tick of the first loop makes its calls by these rules: it uncordons
  -- the node only if it holds the lock and the node was schedulable when the lock was taken; it removes
  -- the annotation only after the node was restored and the sentinel said that no reboot is required;
  -- it releases the lock only after the node was restored and no removal failed; and it never cordons,
  -- drains, takes the lock or reboots. The loop ends only if the lock is not held or was released after
  -- the node was restored, and it goes round again only while the lock is held. Here a node is restored
  -- when it was uncordoned or was unschedulable before, and the lock is held if `Holding` says so, whatever its error.
  pub startup_tick-Obeys :
      (w : World)
      → Obeys startup_monitor (exec w [] (startup_tick f)).1
        × EndsIn startup_monitor LeavesBy (exec w [] (startup_tick f))
  startup_tick-Obeys w = Keeps-exec startup_monitor LeavesBy w [] _ tt startup_tick-Keeps
