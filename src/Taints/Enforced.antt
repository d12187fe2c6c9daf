-- ===== src/Taints/Enforced.antt =====
-- pkg/taints/taints.go: what `preferNoSchedule` makes of the taints of a node that others may change
-- at the same time.
use kured.Common.{
  ℕ, ◌≡◌, refl, sym, ap, ◌∙◌, Bool, true, false, not, Option, none, some, is_some, List, [], ◌∷◌,
  Text, arith,
}
use kured.Kube.{TaintValue, Node, PatchTaints, get_node, patch_taints}
use kured.Kube.Program.{◌>>=◌}
use kured.Kube.Trace.{World, Event, event, done, exec}
use kured.Taints.{
  find_taint, found_taint, search_node, is_empty, new_taint, patches, or_fatal, apply_taint,
  prefer_no_schedule,
}
use kured.Taints.Patch.{Patches, NodeServer}
use kured.Taints.Changes.{has_key, Changes, find_taint-has_key, patches-added, patches-removed}

module _ (w : World) (node_id : Text) (server : NodeServer w node_id) where
  -- How a call that returned went on from a history.
  pub data Enforced (name effect : Text) (should_exist : Bool) (h run : List Event) : Type 0 where
    already :
        (n : Node)
        → run ≡ event (get_node node_id) (some n) ∷ h
        → n ≡ server.at_call h
        → has_key name n.taints ≡ should_exist
        → Enforced name effect should_exist h run
    changed :
        (n : Node) (p : List PatchTaints)
        → run ≡ event (patch_taints node_id p) true ∷ event (get_node node_id) (some n) ∷ h
        → n ≡ server.at_call h
        → has_key name n.taints ≡ not should_exist
        → Changes should_exist
            (new_taint name effect)
            (server.at_call (event (get_node node_id) (some n) ∷ h))
            (server.after_call run)
        → Enforced name effect should_exist h run

has_key-is_empty :
    (name : Text) (ts : List TaintValue) → has_key name ts ≡ true → is_empty ts ≡ false
has_key-is_empty name [] e = absurd (ground arith)
has_key-is_empty name (t ∷ ts) e = refl

module _ (w : World) (node_id name effect : Text) (server : NodeServer w node_id) where
  -- After the patch: if the program goes on, it was carried out.
  patched :
      (should_exist found : Bool) (h : List Event) (n : Node) (i : ℕ)
      → n ≡ server.at_call h
      → has_key name n.taints ≡ not should_exist
      → ((old new : Node)
          → Patches (patches name effect found i n) old new
          → Changes should_exist (new_taint name effect) old new)
      → (r : Bool)
      → w
          (event (get_node node_id) (some n) ∷ h)
          (patch_taints node_id (patches name effect found i n))
        ≡ r
      → (exec w
          (event (patch_taints node_id (patches name effect found i n)) r
            ∷ event (get_node node_id) (some n)
            ∷ h)
          (or_fatal r)).0
        ≡ done tt
      → Enforced w node_id server name effect should_exist h
          (exec w
            (event (patch_taints node_id (patches name effect found i n)) r
              ∷ event (get_node node_id) (some n)
              ∷ h)
            (or_fatal r)).1
  unfolding exec
  patched should_exist found h n i shown key change true e returned =
      changed n (patches name effect found i n) refl shown key (
        change _ _ (
          server.patch_applies (event (get_node node_id) (some n) ∷ h)
            (patches name effect found i n) e))
  patched should_exist found h n i shown key change false e returned = absurd (ground arith)

  searched :
      (should_exist : Bool) (h : List Event) (n : Node) (o : Option ℕ)
      → n ≡ server.at_call h
      → find_taint name n.taints 0 ≡ o
      → (exec w
          (event (get_node node_id) (some n) ∷ h)
          (apply_taint node_id name effect should_exist (found_taint n o))).0
        ≡ done tt
      → Enforced w node_id server name effect should_exist h
          (exec w
            (event (get_node node_id) (some n) ∷ h)
            (apply_taint node_id name effect should_exist (found_taint n o))).1
  unfolding exec
  searched true h n (some i) shown found returned =
      already n refl shown (sym (find_taint-has_key name n.taints 0) ∙ ap is_some found)
  searched false h n none shown found returned =
      already n refl shown (sym (find_taint-has_key name n.taints 0) ∙ ap is_some found)
  searched true h n none shown found returned =
      patched true false h n 0 shown (sym (find_taint-has_key name n.taints 0) ∙ ap is_some found)
        (patches-added name effect 0 n) _ refl returned
  searched false h n (some i) shown found returned =
      let key : has_key name n.taints ≡ true =
        sym (find_taint-has_key name n.taints 0) ∙ ap is_some found in
      patched false true h n i shown key
        (λ old new. patches-removed name effect i n old new (has_key-is_empty name n.taints key)) _
        refl returned

  read :
      (should_exist : Bool) (h : List Event) (o : Option Node)
      → w h (get_node node_id) ≡ o
      → (exec w
          (event (get_node node_id) o ∷ h)
          (search_node name o >>= apply_taint node_id name effect should_exist)).0
        ≡ done tt
      → Enforced w node_id server name effect should_exist h
          (exec w
            (event (get_node node_id) o ∷ h)
            (search_node name o >>= apply_taint node_id name effect should_exist)).1
  unfolding exec
  read should_exist h none e returned = absurd (ground arith)
  read should_exist h (some n) e returned =
      searched should_exist h n (find_taint name n.taints 0) (server.get_shows h n e) refl returned

  -- When `preferNoSchedule` returns, either the node already was as it should be and no patch was sent,
  -- or the one patch that was sent has added the taint behind those that the node had by then, or has
  -- taken away one that equals it, and has changed nothing else: whatever others have done to the node
  -- between the read and the patch.
  pub prefer_no_schedule-Enforced :
      (should_exist : Bool) (h : List Event)
      → (exec w h (prefer_no_schedule node_id name effect should_exist)).0 ≡ done tt
      → Enforced w node_id server name effect should_exist h
          (exec w h (prefer_no_schedule node_id name effect should_exist)).1
  unfolding exec prefer_no_schedule
  prefer_no_schedule-Enforced should_exist h returned =
      read should_exist h (w h (get_node node_id)) refl returned
