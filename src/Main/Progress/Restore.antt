-- ===== src/Main/Progress/Restore.antt =====
-- A tick of the first loop of `rebootAsRequired` in cmd/kured/main.go that restores the node.
use kured.Common.{
  ◌≡◌, inl, inr, refl, Bool, true, false, not, ◌&&◌, Option, none, some, List, [], ◌∷◌, arith,
  if◌then◌else◌,
}
use kured.DaemonSetLock.Reply.{HoldingReply}
use kured.Kube.{
  Call, Reply, Node, get_node, remove_annotation, cordon_or_uncordon, reboot_required, lock_holding,
  lock_release,
}
use kured.Kube.Program.{Program, ret, halt, call, fatal, ask, ◌>>=◌, ◌>>◌}
use kured.Kube.Trace.{Event, event, Ending, done, stopped, World, exec, watch, EndsIn}
use kured.Kube.Progress.{IsGood, Leads, Leads-exec, Then, Leads-bind}
use kured.Main.Flags.{Flags, reboot_in_progress_annotation}
use kured.Main.Startup.{Startup, show, startup_monitor, LeavesBy, IsRestored}
use kured.Main.Startup.Safety.{startup_tick-Obeys}
use kured.Main.Nodes.{notify, uncordon, update_labels, delete_node_annotation}
use kured.Main.Loop.{
  in_annotations, startup_uncordon, unannotate, startup_unannotate, startup_node, startup_tick,
}
use kured.Main.Progress.{IsFound, labels_ok, labels-Leads, notify-Leads}

-- The reply to a call of a tick at startup: the lock is held, and no call fails.
abbrev pub Restores : (c : Call) → Reply c → Type 0
Restores lock_holding r = r.holding ≡ true
Restores (get_node i) r = IsFound false r
Restores (cordon_or_uncordon n b) r = r ≡ true
Restores (remove_annotation i path) r = r ≡ true
Restores lock_release r = r ≡ true
Restores _ r = Unit

abbrev Released : Ending Bool → Type 0
Released e = e ≡ done true

module _ (f : Flags) where
  abbrev Ends : Program Bool → Type 0
  Ends = Leads Restores Released

  uncordon-Leads :
      (Q : Ending Bool → Type 0) (node : Node) (k : Bool → Program Bool)
      → labels_ok f.post_reboot_node_labels ≡ true
      → Leads Restores Q (k true)
      → Leads Restores Q (uncordon f node >>= k)
  unfolding uncordon
  uncordon-Leads Q node k ok h = uncordoned
    where
      labelled : Program Bool
      labelled = update_labels node f.post_reboot_node_labels >> ret true

      uncordoned :
          (r : Bool) → r ≡ true → Leads Restores Q ((if r then labelled else halt fatal) >>= k)
      uncordoned true g =
          Leads-bind Restores Q k labelled (
            labels-Leads Restores (Then Restores Q k) node f.post_reboot_node_labels (ret true) ok
              h)
      uncordoned false g = absurd (ground arith)

  startup_uncordon-Leads :
      (held : HoldingReply) (node : Node) (k : Bool → Program Bool)
      → labels_ok f.post_reboot_node_labels ≡ true
      → Ends (k true)
      → Ends (startup_uncordon f held node >>= k)
  unfolding startup_uncordon
  startup_uncordon-Leads held node k ok h = by_lock held.data_.metadata.unschedulable
    where
      then_notify : Bool → Program Bool
      then_notify r =
          if r then notify f f.message_template_uncordon f.node_id >> ret true else ret false

      by_lock :
          (b : Bool) → Ends ((if not b then uncordon f node >>= then_notify else ret true) >>= k)
      by_lock true = h
      by_lock false = Leads-bind Restores Released k (uncordon f node >>= then_notify) (
          uncordon-Leads (Then Restores Released k) node then_notify ok (
            notify-Leads Restores (Then Restores Released k) f f.message_template_uncordon f.node_id
              (ret true) h))

  startup_unannotate-Leads :
      (node : Node) (k : Bool → Program Bool)
      → Ends (k true)
      → Ends (startup_unannotate f node >>= k)
  unfolding startup_unannotate delete_node_annotation
  startup_unannotate-Leads node k h = annotated f.annotate_nodes
    where
      to_remove : Bool
      to_remove = in_annotations reboot_in_progress_annotation node.annotations

      remove : Program Bool
      remove = delete_node_annotation f.node_id reboot_in_progress_annotation

      removed : (b : Bool) → Ends ((if b then remove else ret true) >>= k)
      removed true = λ r g. rw g h
      removed false = h

      annotated :
          (a : Bool)
          → Ends ((if a then ask reboot_required >>= unannotate f node else ret true) >>= k)
      annotated true = λ required g. removed (not required && to_remove)
      annotated false = h

  startup_node-Leads :
      (held : HoldingReply)
      → labels_ok f.post_reboot_node_labels ≡ true
      → (n : Option Node) → IsFound false n
      → Ends (startup_node f held n)
  startup_node-Leads held ok none g = absurd g
  startup_node-Leads held ok (some node) g = startup_uncordon-Leads held node _ ok (
      startup_unannotate-Leads node (λ b. if b then ask lock_release else ret false)
        λ r g'. rw g' refl)

  startup_tick-Ends : labels_ok f.post_reboot_node_labels ≡ true → Ends (startup_tick f)
  unfolding startup_tick
  startup_tick-Ends ok = λ held g. by_lock held held.holding g
    where
      by_lock :
          (held : HoldingReply) (b : Bool)
          → b ≡ true
          → Ends (if b then ask (get_node f.node_id) >>= startup_node f held else ret true)
      by_lock held true g = startup_node-Leads held ok
      by_lock held false g = absurd (ground arith)

-- The lock stays held in what a run shows.
show-holding :
    (s : Startup) (c : Call) (r : Reply c)
    → Restores c r
    → s.holding ≡ true
    → (show s c r).holding ≡ true
show-holding s lock_holding r g h = g
show-holding s (cordon_or_uncordon n b) r g h = h
show-holding s reboot_required r g h = h
show-holding s (remove_annotation i path) r g h = h
show-holding s lock_release r g h = h
show-holding s _ r g h = h

exec-holding :
    {A : Type 0} (w : World) (h : List Event) (p : Program A)
    → IsGood Restores w
    → (watch startup_monitor h).holding ≡ true
    → (watch startup_monitor (exec w h p).1).holding ≡ true
unfolding exec
exec-holding w h (ret a) good e = e
exec-holding w h (halt s) good e = e
exec-holding w h (call c k) good e =
    exec-holding w (event c (w h c) ∷ h) (k (w h c)) good
      (show-holding (watch startup_monitor h) c (w h c) (good h c) e)

module _ (f : Flags) where
  startup_tick-shows :
      (w : World)
      → IsGood Restores w
      → (watch startup_monitor (exec w [] (startup_tick f)).1).holding ≡ true
  unfolding exec startup_tick
  startup_tick-shows w good =
      exec-holding w (event lock_holding (w [] lock_holding) ∷ [])
        (if (w [] lock_holding).holding
          then ask (get_node f.node_id) >>= startup_node f (w [] lock_holding)
          else ret true)
        good (good [] lock_holding)

  -- While the node holds the lock, and if the calls succeed and the labels of the flags have their
  -- equals signs, one tick of the first loop is enough: it ends the loop, with the lock released, and
  -- with the node uncordoned unless it was unschedulable before the reboot.
  pub startup_tick-done :
      (w : World)
      → labels_ok f.post_reboot_node_labels ≡ true
      → IsGood Restores w
      → ((exec w [] (startup_tick f)).0 ≡ done true)
        × ((watch startup_monitor (exec w [] (startup_tick f)).1).released ≡ true)
        × IsRestored (watch startup_monitor (exec w [] (startup_tick f)).1)
  startup_tick-done w ok good =
      let ends : (exec w [] (startup_tick f)).0 ≡ done true =
        Leads-exec Restores Released w [] (startup_tick f) good (startup_tick-Ends f ok) in
      let (left, restored) =
        released (exec w [] (startup_tick f)) ends (startup_tick-shows w good)
          (startup_tick-Obeys f w).1 in
      (ends, left, restored)
    where
      released :
          (run : Ending Bool × List Event)
          → run.0 ≡ done true
          → (watch startup_monitor run.1).holding ≡ true
          → EndsIn startup_monitor LeavesBy run
          → ((watch startup_monitor run.1).released ≡ true)
            × IsRestored (watch startup_monitor run.1)
      released (done true, h) e held (inl free) = absurd (ground arith)
      released (done true, h) e held (inr left) = left
      released (done false, h) e held g = absurd (ground arith)
      released (stopped s, h) e held g = absurd (ground arith)
