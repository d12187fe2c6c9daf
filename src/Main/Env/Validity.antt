-- ===== src/Main/Env/Validity.antt =====
-- cmd/kured/main.go: when `LoadFromEnv` returns, and when it exits.
use kured.Common.{
  ◌≡◌, inl, inr, refl, sym, subst, ◌∙◌, Bool, true, false, ◌&&◌, Option, none, some, List, [], ◌∷◌,
  Text, codes, text_eq, text_eq_iff, ℤ, arith, Bool-cases, is_some, if◌then◌else◌,
}
use kured.TimeWindow.Days.{atoi}
use kured.Main.Env.{
  Flag, FlagSet, env_var_name, parse_bool, format_bool, itoa, set_int, set_bool, set_from_env,
  then_with, load_flag, load_from_env,
}
use kured.Main.Env.Numbers.{atoi-itoa-atoi}
use kured.Main.Env.Assigned.{
  Denotes, same_int, same_bool, duration, as_it_is, parse_bool-format_bool,
}

module _ (flag : FlagSet) (lookup_env : Text → Option Text) (is_duration : Text → Bool) where
  open flag use {State, set}

  -- A variable says something if its text can be read by the type.
  abbrev pub says_something : Text → Text → Bool
  says_something type_ v =
      if text_eq type_ (codes "int")
      then is_some (atoi v)
      else if text_eq type_ (codes "bool")
      then is_some (parse_bool v)
      else if text_eq type_ (codes "duration")
      then is_duration v
      else true

  abbrev pub variable_ok : Text → Option Text → Bool
  variable_ok type_ none = true
  variable_ok type_ (some v) = says_something type_ v

  abbrev pub all_ok : List Flag → Bool
  all_ok [] = true
  all_ok (f ∷ fs) = variable_ok f.type_ (lookup_env (env_var_name f.name)) && all_ok fs

  -- `Set` takes the texts that say what the flag's variable says.
  abbrev pub Takes : Flag → Text → Type 0
  Takes f v =
      (text : Text) (s : State)
      → Denotes is_duration f.type_ v text
      → is_some (set f.name text s) ≡ true

  set_int-is_some :
      (name v : Text) (o : Option ℤ) (s : State)
      → Takes (record { name = name; type_ = codes "int" }) v
      → atoi v ≡ o
      → is_some (set_int flag lookup_env is_duration name o s) ≡ is_some o
  set_int-is_some name v none s takes e = refl
  set_int-is_some name v (some z) s takes e =
      takes (itoa z) s (same_int z refl e (atoi-itoa-atoi v z e))

  set_bool-is_some :
      (name v : Text) (o : Option Bool) (s : State)
      → Takes (record { name = name; type_ = codes "bool" }) v
      → parse_bool v ≡ o
      → is_some (set_bool flag lookup_env is_duration name o s) ≡ is_some o
  set_bool-is_some name v none s takes e = refl
  set_bool-is_some name v (some b) s takes e =
      takes (format_bool b) s (same_bool b refl e (parse_bool-format_bool b))

  set_duration-is_some :
      (name v : Text) (b : Bool) (s : State)
      → Takes (record { name = name; type_ = codes "duration" }) v
      → is_duration v ≡ b
      → is_some (if b then set name v s else none) ≡ b
  set_duration-is_some name v true s takes e = takes v s (duration refl e)
  set_duration-is_some name v false s takes e = refl

  -- What is to be shown for a type.
  abbrev IsRight : Text → Text → State → Text → Type 0
  IsRight name v s type_ =
      Takes (record { name = name; type_ = type_ }) v
      → is_some
          (set_from_env flag lookup_env is_duration (record { name = name; type_ = type_ }) v s)
        ≡ says_something type_ v

  IsRight-int : (name v : Text) (s : State) → IsRight name v s (codes "int")
  unfolding set_from_env text_eq
  IsRight-int name v s takes = set_int-is_some name v (atoi v) s takes refl

  IsRight-string : (name v : Text) (s : State) → IsRight name v s (codes "string")
  unfolding set_from_env text_eq
  IsRight-string name v s takes = takes v s (as_it_is refl)

  IsRight-bool : (name v : Text) (s : State) → IsRight name v s (codes "bool")
  unfolding set_from_env text_eq
  IsRight-bool name v s takes = set_bool-is_some name v (parse_bool v) s takes refl

  IsRight-duration : (name v : Text) (s : State) → IsRight name v s (codes "duration")
  unfolding set_from_env text_eq
  IsRight-duration name v s takes = set_duration-is_some name v (is_duration v) s takes refl

  set_from_env-IsRight : (name type_ v : Text) (s : State) → IsRight name v s type_
  unfolding set_from_env
  set_from_env-IsRight name ty v s = elim (Bool-cases (text_eq ty (codes "int"))) [
    | inl x ↦ known (codes "int") x (IsRight-int name v s)
    | inr int ↦ elim (Bool-cases (text_eq ty (codes "string"))) [
      | inl x ↦ known (codes "string") x (IsRight-string name v s)
      | inr string ↦ elim (Bool-cases (text_eq ty (codes "bool"))) [
        | inl x ↦ known (codes "bool") x (IsRight-bool name v s)
        | inr bool ↦ elim (Bool-cases (text_eq ty (codes "duration"))) [
          | inl x ↦ known (codes "duration") x (IsRight-duration name v s)
          | inr dur ↦ elim (Bool-cases (text_eq ty (codes "regexp"))) [
            | inl x ↦
                λ takes. rw (int, string, bool, dur, x) (takes v s (as_it_is (rw (string, x) refl)))
            | inr regexp ↦ elim (Bool-cases (text_eq ty (codes "stringSlice"))) [
              | inl x ↦ λ takes.
                  rw (int, string, bool, dur, regexp, x)
                    (takes v s (as_it_is (rw (string, regexp, x) refl)))
              | inr slice ↦ λ takes. rw (int, string, bool, dur, regexp, slice) refl
            ]
          ]
        ]
      ]
    ]
  ]
    where
      known :
          (known_type : Text)
          → text_eq ty known_type ≡ true
          → IsRight name v s known_type
          → IsRight name v s ty
      known t e right = subst (IsRight name v s) (sym ((text_eq_iff ty t).0 e)) right

  -- Every set variable is one whose text `Set` takes if it says something.
  abbrev pub TakesAll : List Flag → Type 0
  TakesAll [] = Unit
  TakesAll (f ∷ fs) =
      ((v : Text) → lookup_env (env_var_name f.name) ≡ some v → Takes f v) × TakesAll fs

  load_flag-is_some :
      (f : Flag) (o : Option Text) (s : State)
      → lookup_env (env_var_name f.name) ≡ o
      → ((v : Text) → lookup_env (env_var_name f.name) ≡ some v → Takes f v)
      → is_some (load_flag flag lookup_env is_duration f o s) ≡ variable_ok f.type_ o
  load_flag-is_some f none s e takes = refl
  load_flag-is_some f (some v) s e takes = set_from_env-IsRight f.name f.type_ v s (takes v e)

  then_with-is_some :
      (o : Option State) (k : State → Option State) (a b : Bool)
      → is_some o ≡ a
      → ((m : State) → is_some (k m) ≡ b)
      → is_some (then_with o k) ≡ a && b
  then_with-is_some none k a b e h = ground arith
  then_with-is_some (some m) k a b e h = h m ∙ ground arith

  -- `LoadFromEnv` returns exactly if the text of each variable that is set for a flag of type int, bool
  -- or duration can be read by its type, and else it exits; provided that the flags take the texts
  -- that say the same as their variables.
  pub load_from_env-is_some :
      (fs : List Flag) (s : State)
      → TakesAll fs
      → is_some (load_from_env flag lookup_env is_duration fs s) ≡ all_ok fs
  unfolding load_from_env
  load_from_env-is_some [] s takes = refl
  load_from_env-is_some (f ∷ fs) s (first, rest) =
      then_with-is_some
        (load_flag flag lookup_env is_duration f (lookup_env (env_var_name f.name)) s)
        (load_from_env flag lookup_env is_duration fs)
        (variable_ok f.type_ (lookup_env (env_var_name f.name))) (all_ok fs)
        (load_flag-is_some f (lookup_env (env_var_name f.name)) s refl first)
        (λ m. load_from_env-is_some fs m rest)
