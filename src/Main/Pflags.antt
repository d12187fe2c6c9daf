-- ===== src/Main/Pflags.antt =====
-- cmd/kured/pflags.go: the value of a flag that is a regular expression. `Regexp`, its compiler and the
-- text it was compiled from are those of Go's package.
use kured.Common.{
  ◌≡◌, refl, Bool, true, false, Option, none, some, [], Text, codes, if◌then◌else◌, Option-cases,
  inl, inr,
}

pub record RegexpValue (Regexp : Type 0) : Type 0 where
  pub regexp : Option Regexp

module _ {Regexp : Type 0} (compile : Text → Option Regexp) (source : Regexp → Text) where
  abbrev pub source_or_empty : Option Regexp → Text
  source_or_empty none = []
  source_or_empty (some r) = source r

  unfoldable pub string : RegexpValue Regexp → Text
  string rev = source_or_empty rev.regexp

  -- `Set` returns an error or nil, here true, and may change its receiver.
  abbrev pub set_compiled : Option Regexp → RegexpValue Regexp → Bool × RegexpValue Regexp
  set_compiled none rev = (false, rev)
  set_compiled (some value) rev = (true, record rev { regexp = some value })

  unfoldable pub set : Text → RegexpValue Regexp → Bool × RegexpValue Regexp
  set s rev = set_compiled (compile s) rev

  abbrev pub type_name : Text
  type_name = codes "regexp"

  -- After `Set` the value prints as the text it was set to, if that compiles, and else as before.
  pub string-set :
      ((s : Text) (r : Regexp) → compile s ≡ some r → source r ≡ s)
      → (s : Text) (rev : RegexpValue Regexp)
      → string (set s rev).1 ≡ (if (set s rev).0 then s else string rev)
  unfolding string set
  string-set compiled s rev = elim (Option-cases (compile s)) [
    | inl bad ↦ rw bad refl
    | inr (r, good) ↦ rw good (compiled s r good)
  ]
