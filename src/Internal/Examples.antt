-- ===== src/Internal/Examples.antt =====
-- Concrete choices of internal/validators.go.
use kured.Common.{◌≡◌, refl, Option, none, some, List, [], ◌∷◌, Text, codes, pos, text_eq}
use kured.Internal.{by_signal, file, new_rebooter, new_reboot_checker}

-- A lexer that takes each text as one word.
abbrev one_word : Text → Option (List Text)
one_word t = some (t ∷ [])

signal_39 :
    new_rebooter one_word (codes "signal") [] (pos 39)
    ≡ some (by_signal (record { signal = pos 39 }))
unfolding new_rebooter text_eq
signal_39 = refl

no_such_method : new_rebooter one_word (codes "kexec") (codes "reboot") (pos 39) ≡ none
unfolding new_rebooter text_eq
no_such_method = refl

sentinel_file :
    new_reboot_checker one_word [] (codes "/f") ≡ some (file (record { file_path = codes "/f" }))
unfolding new_reboot_checker text_eq
sentinel_file = refl
