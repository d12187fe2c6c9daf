-- ===== src/Taints.antt =====
-- pkg/taints/taints.go: the taint of a node, with what the process remembers of it.
pub mod Search
pub mod Patch
pub mod Changes
pub mod Enforced
use kured.Common.{
  ℕ, suc, Bool, true, false, not, Option, none, some, List, [], ◌∷◌, Text, text_eq, if◌then◌else◌,
}
use kured.Kube.{
  TaintValue, Node, test, add, remove, spec, taints, taints_end, taints_at, no_value, the_spec,
  the_taints, the_taint, PatchTaints, get_node, patch_taints,
}
use kured.Kube.Program.{Program, ret, halt, fatal, ask, ◌>>=◌, ◌>>◌}

pub record Taint : Type 0 where
  pub node_id : Text
  pub taint_name : Text
  pub effect : Text
  pub exists : Bool

-- The loop of `taintExists`: the offset of the first taint with the key.
unfoldable pub find_taint : Text → List TaintValue → ℕ → Option ℕ
find_taint name [] i = none
find_taint name (t ∷ ts) i = if text_eq t.key name then some i else find_taint name ts (suc i)

abbrev pub found_taint : Node → Option ℕ → Bool × ℕ × Node
found_taint node none = (false, 0, node)
found_taint node (some i) = (true, i, node)

abbrev pub search_node : Text → Option Node → Program (Bool × ℕ × Node)
search_node name none = halt fatal
search_node name (some node) = ret (found_taint node (find_taint name node.taints 0))

unfoldable pub taint_exists : Text → Text → Program (Bool × ℕ × Node)
unfolding find_taint
taint_exists node_id name = ask (get_node node_id) >>= search_node name

abbrev pub is_empty : List TaintValue → Bool
is_empty [] = true
is_empty (t ∷ ts) = false

abbrev pub new_taint : Text → Text → TaintValue
new_taint name effect = record { key = name; value = []; effect = effect }

unfoldable pub patches : Text → Text → Bool → ℕ → Node → List PatchTaints
patches name effect exists offset node =
    if is_empty node.taints
    then record { op = test; path = spec; value = the_spec node }
      ∷ record { op = add; path = taints; value = the_taints [] }
      ∷ record { op = add; path = taints_end; value = the_taint (new_taint name effect) }
      ∷ []
    else if exists
    then record { op = test; path = taints_at offset; value = the_taint (new_taint name effect) }
      ∷ record { op = remove; path = taints_at offset; value = no_value }
      ∷ []
    else record { op = add; path = taints_end; value = the_taint (new_taint name effect) } ∷ []

abbrev pub or_fatal : Bool → Program (Unit {0})
or_fatal true = ret tt
or_fatal false = halt fatal

-- What `preferNoSchedule` does with what `taintExists` returns.
abbrev pub apply_taint : Text → Text → Text → Bool → Bool × ℕ × Node → Program (Unit {0})
apply_taint node_id name effect true (true, offset, node) = ret tt
apply_taint node_id name effect false (false, offset, node) = ret tt
apply_taint node_id name effect true (false, offset, node) =
    ask (patch_taints node_id (patches name effect false offset node)) >>= or_fatal
apply_taint node_id name effect false (true, offset, node) =
    ask (patch_taints node_id (patches name effect true offset node)) >>= or_fatal

unfoldable pub prefer_no_schedule : Text → Text → Text → Bool → Program (Unit {0})
unfolding taint_exists patches
prefer_no_schedule node_id name effect should_exist =
    taint_exists node_id name >>= apply_taint node_id name effect should_exist

unfoldable pub new : Text → Text → Text → Program Taint
unfolding taint_exists
new node_id name effect = do
  (exists, offset, node) ← taint_exists node_id name
  ret (record { node_id = node_id; taint_name = name; effect = effect; exists = exists })

unfoldable pub enable : Taint → Program Taint
unfolding prefer_no_schedule
enable t =
    if text_eq t.taint_name []
    then ret t
    else if t.exists
    then ret t
    else prefer_no_schedule t.node_id t.taint_name t.effect true >> ret (record t { exists = true })

unfoldable pub disable : Taint → Program Taint
unfolding prefer_no_schedule
disable t =
    if text_eq t.taint_name []
    then ret t
    else if not t.exists
    then ret t
    else prefer_no_schedule t.node_id t.taint_name t.effect false
      >> ret (record t { exists = false })
