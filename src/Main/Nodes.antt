-- ===== src/Main/Nodes.antt =====
-- cmd/kured/main.go: `drain`, `uncordon` and the annotations of a node. A result of type `Bool` is
-- true for a nil error.
use kured.Common.{
  Bool, true, false, Option, none, some, List, [], ◌∷◌, ◌++◌, Text, text_eq, insert, codes,
  is_positive, ◌==◌, if◌then◌else◌,
}
use kured.Kube.{
  Node, get_node, patch_annotations, remove_annotation, cordon_or_uncordon, drain_node, send, sleep,
}
use kured.Kube.Program.{Program, ret, halt, fatal, panics, ask, ◌>>=◌, ◌>>◌}
use kured.Main.Flags.{Flags}
use kured.Main.Labels.{update_node_labels}

abbrev pub update_labels : Node → Option (List Text) → Program (Unit {0})
update_labels node none = ret tt
update_labels node (some labels) = update_node_labels node labels

abbrev pub notify : Flags → Text → Text → Program (Unit {0})
notify f template node =
    if text_eq f.notify_url []
    then ret tt
    else ask (send f.notify_url template node) >>= λ ok. ret tt

abbrev pub cordon_and_drain : Node → Program Bool
cordon_and_drain node = do
  cordoned ← ask (cordon_or_uncordon node true)
  if cordoned then ask (drain_node node.name) else ret false

unfoldable pub drain : Flags → Node → Program Bool
unfolding update_node_labels
drain f node = do
  update_labels node f.pre_reboot_node_labels
  if is_positive f.drain_delay then ask (sleep f.drain_delay) else ret tt
  notify f f.message_template_drain node.name
  cordon_and_drain node

unfoldable pub uncordon : Flags → Node → Program Bool
unfolding update_node_labels
uncordon f node = do
  uncordoned ← ask (cordon_or_uncordon node false)
  if uncordoned then update_labels node f.post_reboot_node_labels >> ret true else halt fatal

-- The write of a list of keys to a map; a write to a nil map panics.
abbrev pub write_all :
    List (Text × Text) → Option (List (Text × Text)) → Option (Option (List (Text × Text)))
write_all [] m = some m
write_all ((k, v) ∷ kvs) none = none
write_all ((k, v) ∷ kvs) (some m) = write_all kvs (some (insert k v m))

abbrev pub patch_node : Node → Option (Option (List (Text × Text))) → Program Bool
patch_node node none = halt panics
patch_node node (some m) = ask (patch_annotations (record node { annotations = m }))

abbrev pub annotate_found : List (Text × Text) → Option Node → Program Bool
annotate_found kvs none = ret false
annotate_found kvs (some node) = patch_node node (write_all kvs node.annotations)

unfoldable pub add_node_annotations : Text → List (Text × Text) → Program Bool
add_node_annotations node_id kvs = ask (get_node node_id) >>= annotate_found kvs

-- `strings.ReplaceAll(key, "/", "~1")`.
unfoldable pub escape_slashes : Text → Text
escape_slashes [] = []
escape_slashes (c ∷ s) = if c == b'/' then b'~' ∷ b'1' ∷ escape_slashes s else c ∷ escape_slashes s

unfoldable pub delete_node_annotation : Text → Text → Program Bool
unfolding escape_slashes
delete_node_annotation node_id key =
    ask (remove_annotation node_id (codes "/metadata/annotations/" ++ escape_slashes key))
