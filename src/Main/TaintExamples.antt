-- ===== src/Main/TaintExamples.antt =====
-- The taint of pkg/taints/taints.go at concrete inputs.
use kured.Common.{
  ℕ, ◌≡◌, ◌≢◌, ◌⊎◌, refl, ◌++◌, true, false, Option, is_some, arith, none, some, List, [], ◌∷◌,
  Text, codes, text_eq, All,
}
use kured.Kube.{
  TaintValue, Node, Op, add, JsonPath, taints_end, PatchValue, the_taint, PatchTaints, get_node,
  patch_taints,
}
use kured.Taints.Patch.{Applies, Patches, NodeServer}
use kured.Taints.Enforced.{Enforced, prefer_no_schedule-Enforced}
use kured.Kube.Trace.{World, Event, event, done, exec}
use kured.Taints.{find_taint, prefer_no_schedule}
use kured.Taints.Search.{Found, find_taint-Found}
use kured.Main.Examples.{all_well}

abbrev taint_of : Text → TaintValue
taint_of name = record { key = name; value = []; effect = codes "NoSchedule" }

abbrev node_taints : List TaintValue
node_taints = taint_of (codes "gpu") ∷ taint_of (codes "reboot") ∷ []

find_taint-Found_example :
    ((find_taint (codes "reboot") node_taints 0 ≡ none)
      × All (λ (u : TaintValue). u.key ≢ codes "reboot") node_taints)
    ⊎ ((n : ℕ) × (find_taint (codes "reboot") node_taints 0 ≡ some n)
        × Found (codes "reboot") node_taints 0 n)
find_taint-Found_example = find_taint-Found (codes "reboot") node_taints 0

found_second : find_taint (codes "reboot") node_taints 0 ≡ some 1
unfolding find_taint text_eq
found_second = refl

-- A node with a taint, at a server that takes the patches that add one behind the others.
abbrev gpu_node : Node
gpu_node = record {
  name = codes "a";
  unschedulable = false;
  taints = taint_of (codes "gpu") ∷ [];
  annotations = none;
}

abbrev added_by : Op → JsonPath → PatchValue → Option TaintValue
added_by add taints_end (the_taint t) = some t
added_by _ _ _ = none

abbrev added : List PatchTaints → Option TaintValue
added (p ∷ []) = added_by p.op p.path p.value
added _ = none

abbrev with_last : Option TaintValue → Node
with_last none = gpu_node
with_last (some t) = record gpu_node { taints = gpu_node.taints ++ t ∷ [] }

abbrev patching : World
patching h (get_node i) = some gpu_node
patching h (patch_taints i p) = is_some (added p)
patching h c = all_well h c

abbrev after : List Event → Node
after (event (patch_taints i p) r ∷ h) = with_last (added p)
after _ = gpu_node

shows : (n : Node) → some gpu_node ≡ some n → n ≡ gpu_node
shows n e = cc

added_by-Applies :
    (op : Op) (path : JsonPath) (value : PatchValue)
    → is_some (added_by op path value) ≡ true
    → Applies op path value gpu_node (with_last (added_by op path value))
added_by-Applies add taints_end (the_taint t) e = refl
added_by-Applies _ _ _ e = absurd (ground arith)

added-Patches :
    (p : List PatchTaints) → is_some (added p) ≡ true → Patches p gpu_node (with_last (added p))
added-Patches [] e = absurd (ground arith)
added-Patches (p ∷ []) e = (_, added_by-Applies p.op p.path p.value e, refl)
added-Patches (p ∷ q ∷ ps) e = absurd (ground arith)

abbrev server : NodeServer patching (codes "a")
server = record {
  at_call = λ h. gpu_node;
  after_call = after;
  get_shows = λ h. shows;
  patch_applies = λ h. added-Patches;
}

returns :
    (exec patching []
      (prefer_no_schedule (codes "a") (codes "reboot") (codes "PreferNoSchedule") true)).0
    ≡ done tt
unfolding exec prefer_no_schedule text_eq
returns = refl

prefer_no_schedule-Enforced_example :
    Enforced patching
      (codes "a")
      server
      (codes "reboot")
      (codes "PreferNoSchedule")
      true
      []
      (exec patching []
        (prefer_no_schedule (codes "a") (codes "reboot") (codes "PreferNoSchedule") true)).1
prefer_no_schedule-Enforced_example =
    prefer_no_schedule-Enforced patching (codes "a") (codes "reboot") (codes "PreferNoSchedule")
      server true [] returns
