-- ===== src/Main/Notification.antt =====
-- cmd/kured/main.go: `validateNotificationURL` and `stripQuotes`. A text is a list of bytes.
pub mod Quotes
use kured.Common.{
  ℕ, zero, suc, ◌+◌, ◌-◌, Bool, true, false, ◌&&◌, ◌||◌, not, Option, none, some, List, [], ◌∷◌,
  ◌++◌, Text, codes, text_eq, length, ltb, ◌==◌, if◌then◌else◌,
}
use kured.Main.Labels.{split}

-- The last byte of a text that starts with `c`, and the text without it.
unfoldable pub last_byte : ℕ → Text → ℕ
last_byte c [] = c
last_byte c (d ∷ s) = last_byte d s

unfoldable pub drop_last : ℕ → Text → Text
drop_last c [] = []
drop_last c (d ∷ s) = c ∷ drop_last d s

-- `str[1:len(str)-1]`.
abbrev pub inner : Text → Text
inner [] = []
inner (c ∷ s) = drop_last c s

abbrev pub is_quote : ℕ → Bool
is_quote c = c == 34 || c == 39

unfoldable pub strip_quotes : Text → Text
unfolding last_byte drop_last
strip_quotes [] = []
strip_quotes (first ∷ s) =
    if ltb 2 (length (first ∷ s)) && ((first == last_byte first s) && is_quote first)
    then inner s
    else first ∷ s

abbrev pub is_prefix : Text → Text → Bool
is_prefix [] t = true
is_prefix (a ∷ s) [] = false
is_prefix (a ∷ s) (b ∷ t) = a == b && is_prefix s t

-- `strings.ReplaceAll(s, old, "")` for an `old` that is not empty: `skip` bytes of a match are left.
unfoldable pub remove_from : Text → ℕ → Text → Text
remove_from old skip [] = []
remove_from old (suc k) (c ∷ s) = remove_from old k s
remove_from old zero (c ∷ s) =
    let rest = remove_from old zero s in
    let matched = remove_from old (length old - 1) s in
    if is_prefix old (c ∷ s) then matched else c ∷ rest

unfoldable pub remove_all : Text → Text → Text
unfolding remove_from
remove_all old s = remove_from old 0 s

abbrev pub services : Text
services = codes "/services/"

-- The path of a Slack hook: a URL if it has three parts, and else the empty text.
abbrev pub from_path : Option Text → Text
from_path none = []
from_path (some path) =
    if length (split b'/' (remove_all services path)) == 3
    then codes "slack://" ++ remove_all services path
    else []

-- `validateNotificationURL`, with the path that `url.Parse` finds as an argument.
unfoldable pub validate_notification_url :
    (parse : Text → Option Text) → (notify_url slack_hook_url : Text) → Text
unfolding strip_quotes remove_all split
validate_notification_url parse notify_url slack_hook_url =
    if not (text_eq notify_url [])
    then strip_quotes notify_url
    else if not (text_eq slack_hook_url [])
    then from_path (parse (strip_quotes slack_hook_url))
    else []
