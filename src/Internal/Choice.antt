-- ===== src/Internal/Choice.antt =====
-- What internal/validators.go accepts, and that what it makes never indexes an empty command.
use kured.Common.{
  ◌≡◌, ◌≢◌, ◌↔◌, ◌⊎◌, inl, inr, refl, sym, subst, ◌∙◌, Bool, true, false, Option, none, some, List,
  [], Text, codes, ℤ, pos, text_eq, text_eq_iff, is_positive, if◌then◌else◌, arith, Bool-cases,
  Option-cases,
}
use kured.Checkers.{
  Answer, answered, panics, by_run, Run, succeeded, exit_error, not_run, command_required,
  file_required, new_command_checker, with_command,
}
use kured.Rebooters.{
  Outcome, returned, reboot_by_command, reboot_by_signal, new_command_rebooter, new_signal_rebooter,
  wrapped,
}
use kured.Internal.{
  Rebooter, by_command, by_signal, Checker, command, file, new_rebooter, new_reboot_checker,
  as_command_rebooter, as_signal_rebooter, as_command_checker,
}

module _ (split : Text → Option (List Text)) where
  -- A command that is there and that the lexer takes, or a signal from 1 on.
  abbrev pub IsValid : Text → Text → ℤ → Type 0
  IsValid method reboot_command signal =
      ((method ≡ codes "command") × (reboot_command ≢ []) × (split reboot_command ≢ none))
      ⊎ ((method ≡ codes "signal") × (is_positive signal ≡ true))

  differ : (s t : Text) → text_eq s t ≡ false → s ≢ t
  differ s t e same = let equal = (text_eq_iff s t).1 same in cc

  command-made :
      (reboot_command : Text)
      → (as_command_rebooter (new_command_rebooter split reboot_command) ≢ none)
        ↔ ((reboot_command ≢ []) × (split reboot_command ≢ none))
  unfolding new_command_rebooter
  command-made c = (
    λ made. (
      λ empty. made (let e : text_eq c [] ≡ true = (text_eq_iff c []).1 empty in ground arith),
      λ bad.
          made (elim (Bool-cases (text_eq c [])) [ inl e ↦ ground arith | inr e ↦ ground arith ]),
    ),
    λ valid gone. elim (Bool-cases (text_eq c [])) [
      | inl e ↦ valid.0 ((text_eq_iff c []).0 e)
      | inr e ↦ elim (Option-cases (split c)) [
        | inl bad ↦ valid.1 bad
        | inr (parsed, found) ↦ ground arith
      ]
    ],
  )

  signal-made :
      (signal : ℤ)
      → (as_signal_rebooter (new_signal_rebooter signal) ≢ none) ↔ (is_positive signal ≡ true)
  unfolding new_signal_rebooter
  signal-made signal = elim (Bool-cases (is_positive signal)) [
    | inl e ↦ (λ made. e, λ e' gone. ground arith)
    | inr e ↦ (λ made. absurd (made (ground arith)), λ e' gone. cc)
  ]

  command-ne-signal : codes "command" ≢ codes "signal"
  command-ne-signal e = cc

  -- `NewRebooter` returns no error exactly for the method "command" with a command that is not empty and
  -- that the lexer takes, and for the method "signal" with a signal from 1 on.
  pub new_rebooter-IsValid :
      (method reboot_command : Text) (signal : ℤ)
      → (new_rebooter split method reboot_command signal ≢ none)
        ↔ IsValid method reboot_command signal
  unfolding new_rebooter
  new_rebooter-IsValid method c signal = elim (Bool-cases (text_eq method (codes "command"))) [
    | inl e ↦
        let is : method ≡ codes "command" = (text_eq_iff method (codes "command")).0 e in
        rw e (
          λ made. let (ne, taken) = (command-made c).0 made in inl (is, ne, taken),
          λ valid. elim valid [
            | inl (same, ne, taken) ↦ (command-made c).1 (ne, taken)
            | inr (other, ok) ↦ absurd (command-ne-signal (sym is ∙ other))
          ],
        )
    | inr e ↦ elim (Bool-cases (text_eq method (codes "signal"))) [
      | inl e' ↦
          let is : method ≡ codes "signal" = (text_eq_iff method (codes "signal")).0 e' in
          rw (e, e')
            (
              λ made. inr (is, (signal-made signal).0 made),
              λ valid. elim valid [
                | inl (other, ne, taken) ↦ absurd (command-ne-signal (sym other ∙ is))
                | inr (same, ok) ↦ (signal-made signal).1 ok
              ],
            )
      | inr e' ↦
          rw (e, e')
            (
              λ made. absurd (made refl),
              λ valid. elim valid [
                | inl (same, ne, taken) ↦ absurd (differ _ _ e same)
                | inr (same, ok) ↦ absurd (differ _ _ e' same)
              ],
            )
    ]
  ]

-- `Reboot` of a rebooter.
abbrev pub reboot :
    (run : Text → List Text → Bool) → (find : Bool) → (send : ℤ → Bool) → Rebooter → Outcome
reboot run find send (by_command c) = reboot_by_command run c
reboot run find send (by_signal c) = reboot_by_signal find send c

module _ (split : Text → Option (List Text)) where
  -- What runs a command or finds and signals a process.
  module _ (run : Text → List Text → Bool) (find : Bool) (send : ℤ → Bool) where
    abbrev pub Returns : Option Rebooter → Type 0
    Returns none = Unit
    Returns (some r) = (ok : Bool) × (reboot run find send r ≡ returned ok)

    by_command-Returns : (c : Text) → Returns (as_command_rebooter (new_command_rebooter split c))
    unfolding new_command_rebooter reboot_by_command
    by_command-Returns c = elim (Bool-cases (text_eq c [])) [
      | inl e ↦ rw e tt
      | inr e ↦ rw e (lexed (split c))
    ]
      where
        lexed : (o : Option (List Text)) → Returns (as_command_rebooter (wrapped o))
        lexed none = tt
        lexed (some parsed) = (_, refl)

    by_signal-Returns : (signal : ℤ) → Returns (as_signal_rebooter (new_signal_rebooter signal))
    unfolding new_signal_rebooter reboot_by_signal
    by_signal-Returns signal = elim (Bool-cases (is_positive signal)) [
      | inl e ↦ rw e (sent find)
      | inr e ↦ rw e tt
    ]
      where
        sent :
            (b : Bool)
            → (ok : Bool) × ((if b then returned (send signal) else returned false) ≡ returned ok)
        sent true = (_, refl)
        sent false = (_, refl)

    new_rebooter-Returns :
        (method c : Text) (signal : ℤ) → Returns (new_rebooter split method c signal)
    unfolding new_rebooter
    new_rebooter-Returns method c signal = elim (Bool-cases (text_eq method (codes "command"))) [
      | inl e ↦ rw e (by_command-Returns c)
      | inr e ↦ elim (Bool-cases (text_eq method (codes "signal"))) [
        | inl e' ↦ rw (e, e') (by_signal-Returns signal)
        | inr e' ↦ rw (e, e') tt
      ]
    ]

    -- A rebooter that `NewRebooter` makes returns from `Reboot`, with an error or without one: it never
    -- indexes an empty command.
    pub reboot-new_rebooter :
        (method c : Text) (signal : ℤ) (r : Rebooter)
        → new_rebooter split method c signal ≡ some r
        → (ok : Bool) × (reboot run find send r ≡ returned ok)
    reboot-new_rebooter method c signal r e = subst Returns e (new_rebooter-Returns method c signal)

-- `RebootRequired` of a checker, with the outcomes of commands and files.
abbrev pub reboot_required :
    (run : Text → List Text → Run) → (stat : Text → Bool) → Checker → Answer
reboot_required run stat (command c) = command_required run c
reboot_required run stat (file c) = answered (file_required stat c)

module _ (split : Text → Option (List Text)) (run : Text → List Text → Run)
    (stat : Text → Bool) where
  abbrev Indexes : Option Checker → Type 0
  Indexes none = Unit
  Indexes (some c) = reboot_required run stat c ≢ panics

  command-ne-panics :
      (o : Option (List Text)) → Indexes (as_command_checker (with_command (pos 1) true o))
  unfolding command_required
  command-ne-panics none = tt
  command-ne-panics (some parsed) = answers (run _ _)
    where
      answers : (r : Run) → by_run r ≢ panics
      answers succeeded e = ground arith
      answers (exit_error code) e = ground arith
      answers not_run e = ground arith

  made-Indexes :
      (sentinel_command sentinel_file : Text)
      → Indexes (new_reboot_checker split sentinel_command sentinel_file)
  unfolding new_reboot_checker new_command_checker
  made-Indexes c f = elim (Bool-cases (text_eq c [])) [
    | inl e ↦ rw e (λ bad. ground arith)
    | inr e ↦ rw e (command-ne-panics (split c))
  ]

  -- A checker that `NewRebootChecker` makes never indexes an empty command in `RebootRequired`.
  pub reboot_required-ne-panics :
      (sentinel_command sentinel_file : Text) (c : Checker)
      → new_reboot_checker split sentinel_command sentinel_file ≡ some c
      → reboot_required run stat c ≢ panics
  reboot_required-ne-panics sc sf c e = subst Indexes e (made-Indexes sc sf)
