-- ===== src/Kube/Progress.antt =====
-- What a program comes to in a world whose replies are known to be good: the counterpart of the
-- monitors of Kube/Trace, which hold whatever the replies.
use kured.Common.{List, ◌∷◌}
use kured.Kube.{Call, Reply}
use kured.Kube.Program.{Program, ret, halt, call, ◌>>=◌}
use kured.Kube.Trace.{Event, event, Ending, done, stopped, World, exec}

-- `Good c r`: the reply `r` to the call `c` is one that the program may count on.
module _ (Good : (c : Call) → Reply c → Type 0) where
  -- A world that answers like that after any history.
  abbrev pub IsGood : World → Type 0
  IsGood w = (h : List Event) (c : Call) → Good c (w h c)

  abbrev pub Leads : {A : Type 0} → (Ending A → Type 0) → Program A → Type 0
  Leads Q (ret a) = Q (done a)
  Leads Q (halt s) = Q (stopped s)
  Leads Q (call c k) = (r : Reply c) → Good c r → Leads Q (k r)

  pub Leads-exec :
      {A : Type 0} (Q : Ending A → Type 0) (w : World) (h : List Event) (p : Program A)
      → IsGood w
      → Leads Q p
      → Q (exec w h p).0
  unfolding exec
  Leads-exec Q w h (ret a) good l = l
  Leads-exec Q w h (halt s) good l = l
  Leads-exec Q w h (call c k) good l =
      Leads-exec Q w (event c (w h c) ∷ h) (k (w h c)) good (l (w h c) (good h c))

  -- What the first part of a program has to come to.
  abbrev pub Then : {A B : Type 0} → (Ending B → Type 0) → (A → Program B) → Ending A → Type 0
  Then Q k (done a) = Leads Q (k a)
  Then Q k (stopped s) = Q (stopped s)

  pub Leads-bind :
      {A B : Type 0} (Q : Ending B → Type 0) (k : A → Program B) (p : Program A)
      → Leads (Then Q k) p
      → Leads Q (p >>= k)
  Leads-bind Q k (ret a) l = l
  Leads-bind Q k (halt s) l = l
  Leads-bind Q k (call c next) l = λ r good. Leads-bind Q k (next r) (l r good)
