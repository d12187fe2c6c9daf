-- ===== src/Main/Env/Assigned.antt =====
-- cmd/kured/main.go: the text that `LoadFromEnv` sets a flag to, by its type.
use kured.Common.{
  ◌≡◌, ◌⊎◌, inl, inr, refl, Bool, true, false, Option, none, some, List, [], ◌∷◌, Text, codes,
  text_eq, text_eq_iff, ℤ, arith, Bool-cases, if◌then◌else◌,
}
use kured.TimeWindow.Days.{atoi}
use kured.Main.Env.{
  Flag, FlagSet, one_of, parse_bool, format_bool, itoa, set_int, set_bool, set_from_env,
}
use kured.Main.Env.Numbers.{atoi-itoa-atoi}

-- The types whose flags are set to the text of their variable as it is.
abbrev pub text_types : List Text
text_types = codes "string" ∷ codes "regexp" ∷ codes "stringSlice" ∷ []

abbrev pub supported_types : List Text
supported_types = codes "int" ∷ codes "bool" ∷ codes "duration" ∷ text_types

-- `text` says for a flag of the type what the variable's `value` says.
pub data Denotes (is_duration : Text → Bool) (type_ value : Text) : Text → Type 0 where
  same_int :
      {text : Text} (z : ℤ)
      → type_ ≡ codes "int"
      → atoi value ≡ some z
      → atoi text ≡ some z
      → Denotes is_duration type_ value text
  same_bool :
      {text : Text} (b : Bool)
      → type_ ≡ codes "bool"
      → parse_bool value ≡ some b
      → parse_bool text ≡ some b
      → Denotes is_duration type_ value text
  duration :
      type_ ≡ codes "duration" → is_duration value ≡ true → Denotes is_duration type_ value value
  as_it_is : one_of type_ text_types ≡ true → Denotes is_duration type_ value value

pub parse_bool-format_bool : (b : Bool) → parse_bool (format_bool b) ≡ some b
unfolding parse_bool text_eq
parse_bool-format_bool true = refl
parse_bool-format_bool false = refl

module _ (flag : FlagSet) (lookup_env : Text → Option Text) (is_duration : Text → Bool) where
  open flag use {State, set, value, set_other}

  -- A call of `Set` with what the variable says.
  abbrev pub SetTo : Flag → Text → State → State → Type 0
  SetTo f v s s' =
      (text : Text) × Denotes is_duration f.type_ v text × (set f.name text s ≡ some s')

  set_int-SetTo :
      (f : Flag) (v : Text) (o : Option ℤ) (s s' : State)
      → f.type_ ≡ codes "int"
      → atoi v ≡ o
      → set_int flag lookup_env is_duration f.name o s ≡ some s'
      → SetTo f v s s'
  set_int-SetTo f v none s s' ty read e = absurd (ground arith)
  set_int-SetTo f v (some z) s s' ty read e =
      (itoa z, same_int z ty read (atoi-itoa-atoi v z read), e)

  set_bool-SetTo :
      (f : Flag) (v : Text) (o : Option Bool) (s s' : State)
      → f.type_ ≡ codes "bool"
      → parse_bool v ≡ o
      → set_bool flag lookup_env is_duration f.name o s ≡ some s'
      → SetTo f v s s'
  set_bool-SetTo f v none s s' ty read e = absurd (ground arith)
  set_bool-SetTo f v (some b) s s' ty read e =
      (format_bool b, same_bool b ty read (parse_bool-format_bool b), e)

  set_duration-SetTo :
      (f : Flag) (v : Text) (b : Bool) (s s' : State)
      → f.type_ ≡ codes "duration"
      → is_duration v ≡ b
      → (if b then set f.name v s else none) ≡ some s'
      → SetTo f v s s'
  set_duration-SetTo f v true s s' ty read e = (v, duration ty read, e)
  set_duration-SetTo f v false s s' ty read e = absurd (ground arith)

  pub unchanged : (s s' : State) → some s ≡ some s' → s' ≡ s
  unchanged s s' e = cc

  pub set_from_env-SetTo :
      (f : Flag) (v : Text) (s s' : State)
      → set_from_env flag lookup_env is_duration f v s ≡ some s'
      → SetTo f v s s' ⊎ ((one_of f.type_ supported_types ≡ false) × (s' ≡ s))
  unfolding set_from_env
  set_from_env-SetTo f v s s' e = elim (Bool-cases (text_eq f.type_ (codes "int"))) [
    | inl x ↦ inl (set_int-SetTo f v (atoi v) s s' ((text_eq_iff _ _).0 x) refl (rw x at e))
    | inr int ↦ elim (Bool-cases (text_eq f.type_ (codes "string"))) [
      | inl x ↦ inl (v, as_it_is (rw x refl), rw (int, x) at e)
      | inr string ↦ elim (Bool-cases (text_eq f.type_ (codes "bool"))) [
        | inl x ↦ inl (
            set_bool-SetTo f v (parse_bool v) s s' ((text_eq_iff _ _).0 x) refl
              (rw (int, string, x) at e))
        | inr bool ↦ elim (Bool-cases (text_eq f.type_ (codes "duration"))) [
          | inl x ↦ inl (
              set_duration-SetTo f v (is_duration v) s s' ((text_eq_iff _ _).0 x) refl
                (rw (int, string, bool, x) at e))
          | inr dur ↦ elim (Bool-cases (text_eq f.type_ (codes "regexp"))) [
            | inl x ↦ inl (v, as_it_is (rw (string, x) refl), rw (int, string, bool, dur, x) at e)
            | inr regexp ↦ elim (Bool-cases (text_eq f.type_ (codes "stringSlice"))) [
              | inl x ↦ inl (
                v,
                as_it_is (rw (string, regexp, x) refl),
                rw (int, string, bool, dur, regexp, x) at e,
              )
              | inr slice ↦ inr (
                rw (int, bool, dur, string, regexp, slice) refl,
                unchanged s s' (rw (int, string, bool, dur, regexp, slice) at e),
              )
            ]
          ]
        ]
      ]
    ]
  ]
