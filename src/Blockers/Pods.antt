-- ===== src/Blockers/Pods.antt =====
-- pkg/blockers/kubernetespod.go: the pods that block a reboot.
use kured.Common.{
  ◌≡◌, ◌↔◌, refl, All, Bool, true, false, ◌||◌, Option, none, some, List, [], ◌∷◌, ◌++◌, Text,
  codes, arith,
}

-- The pods of a list, by their names.
pub record PodList : Type 0 where
  pub items : List Text
  pub continues : Bool

pub record KubernetesBlockingChecker : Type 0 where
  pub node_name : Text
  pub filter : List Text

abbrev pub field_selector : Text → Text
field_selector node_name =
    codes "spec.nodeName="
    ++ node_name
    ++ codes ",status.phase!=Succeeded,status.phase!=Failed,status.phase!=Unknown"

-- One round of the loop of `IsBlocked`: an error blocks, and so does a list that is not empty.
abbrev pub not_empty : List Text → Bool
not_empty [] = false
not_empty (p ∷ ps) = true

abbrev pub blocks : Option PodList → Bool
blocks none = true
blocks (some l) = not_empty l.items

-- The loop: `list` is what the API answers to a label selector and a field selector.
unfoldable pub any_blocks : (Text → Text → Option PodList) → Text → List Text → Bool
any_blocks list fields [] = false
any_blocks list fields (selector ∷ selectors) =
    blocks (list selector fields) || any_blocks list fields selectors

unfoldable pub pods_block : (Text → Text → Option PodList) → KubernetesBlockingChecker → Bool
unfolding any_blocks
pods_block list kb = any_blocks list (field_selector kb.node_name) kb.filter

-- The API answers to the selector with a list of no pods.
abbrev pub HasNoPods : (Text → Text → Option PodList) → Text → Text → Type 0
HasNoPods list fields selector = (l : PodList) × (list selector fields ≡ some l) × (l.items ≡ [])

blocks-HasNoPods :
    (list : Text → Text → Option PodList) (fields selector : Text)
    → (blocks (list selector fields) ≡ false) ↔ HasNoPods list fields selector
blocks-HasNoPods list fields selector = (found (list selector fields) refl, λ h. free h)
  where
    found :
        (o : Option PodList)
        → list selector fields ≡ o
        → blocks o ≡ false
        → HasNoPods list fields selector
    found none e b = absurd (cc)
    found (some l) e b = (l, e, no_items l.items refl b)
      where
        no_items : (ps : List Text) → l.items ≡ ps → blocks (some l) ≡ false → l.items ≡ []
        no_items [] e' b' = e'
        no_items (p ∷ ps) e' b' = absurd (ground arith)

    free : HasNoPods list fields selector → blocks (list selector fields) ≡ false
    free (l, e, empty) = ground arith

any_blocks-HasNoPods :
    (list : Text → Text → Option PodList) (fields : Text) (selectors : List Text)
    → (any_blocks list fields selectors ≡ false) ↔ All (HasNoPods list fields) selectors
unfolding any_blocks
any_blocks-HasNoPods list fields [] = (λ e. tt, λ h. refl)
any_blocks-HasNoPods list fields (selector ∷ selectors) =
    both (any_blocks-HasNoPods list fields selectors)
  where
    both :
        (any_blocks list fields selectors ≡ false) ↔ All (HasNoPods list fields) selectors
        → (blocks (list selector fields) || any_blocks list fields selectors ≡ false)
          ↔ All (HasNoPods list fields) (selector ∷ selectors)
    both (to, from) = (
      λ e. ((blocks-HasNoPods list fields selector).0 (ground arith), to (ground arith)),
      λ h.
          let first = (blocks-HasNoPods list fields selector).1 h.0 in
          let rest = from h.1 in ground arith,
    )

-- The pods block no reboot exactly if, for every selector, the API answers with an empty list of the
-- pods on the node that are not done: an error blocks.
pub pods_block-HasNoPods :
    (list : Text → Text → Option PodList) (kb : KubernetesBlockingChecker)
    → (pods_block list kb ≡ false) ↔ All (HasNoPods list (field_selector kb.node_name)) kb.filter
unfolding pods_block
pods_block-HasNoPods list kb = any_blocks-HasNoPods list (field_selector kb.node_name) kb.filter
