-- ===== src/Taints/Patch.antt =====
-- What the Kubernetes API server does with the JSON patches of pkg/taints/taints.go: the operations of
-- RFC 6902 on the spec of a node, and a node that others change between the calls.
use kured.Common.{◌≡◌, some, true, List, [], ◌∷◌, ◌++◌, Text, ℕ, length}
use kured.Kube.{
  TaintValue, Node, Op, test, add, remove, JsonPath, spec, taints, taints_end, taints_at,
  PatchValue, no_value, the_spec, the_taints, the_taint, PatchTaints, get_node, patch_taints,
}
use kured.Kube.Trace.{World, Event, event}

-- The list has the taint at the offset, between two others.
pub record Splits (ts : List TaintValue) (i : ℕ) (t : TaintValue) : Type 0 where
  pub before : List TaintValue
  pub after : List TaintValue
  pub whole : ts ≡ before ++ t ∷ after
  pub offset : length before ≡ i

-- One operation takes the node to another, or fails.
abbrev pub Applies : Op → JsonPath → PatchValue → Node → Node → Type 0
Applies test spec (the_spec v) n m =
    (v.unschedulable ≡ n.unschedulable) × (v.taints ≡ n.taints) × (m ≡ n)
Applies test (taints_at i) (the_taint t) n m = Splits n.taints i t × (m ≡ n)
Applies add taints (the_taints ts) n m = m ≡ record n { taints = ts }
Applies add taints_end (the_taint t) n m = m ≡ record n { taints = n.taints ++ t ∷ [] }
Applies remove (taints_at i) no_value n m =
    (t : TaintValue) × (s : Splits n.taints i t) × (m ≡ record n { taints = s.before ++ s.after })
Applies _ _ _ n m = ⊥

-- All operations, in their order; one that fails makes the patch fail.
abbrev pub Patches : List PatchTaints → Node → Node → Type 0
Patches [] n m = m ≡ n
Patches (p ∷ ps) n m = (k : Node) × Applies p.op p.path p.value n k × Patches ps k m

-- The node that the server keeps: when a call is carried out that follows a history, and after the last
-- call of a history. Others may change it between the two.
pub record NodeServer (w : World) (node_id : Text) : Type 0 where
  pub at_call : List Event → Node
  pub after_call : List Event → Node
  pub get_shows : (h : List Event) (n : Node) → w h (get_node node_id) ≡ some n → n ≡ at_call h
  pub patch_applies :
      (h : List Event) (p : List PatchTaints)
      → w h (patch_taints node_id p) ≡ true
      → Patches p (at_call h) (after_call (event (patch_taints node_id p) true ∷ h))
