-- ===== src/Kube/Trace.antt =====
-- Runs of programs over the calls, and monitors: what a run has shown so far, and the rules that its
-- next call has to keep.
use kured.Common.{List, [], ◌∷◌}
use kured.Kube.{Call, Reply}
use kured.Kube.Program.{Stop, Program, ret, halt, call, ◌>>=◌}

pub data Event : Type 0 where
  event : (c : Call) → Reply c → Event

-- How a program ends.
pub data Ending (A : Type 0) : Type 0 where
  done : A → Ending A
  stopped : Stop → Ending A

-- A world answers a call by all that has happened before it. The latest event is the first.
abbrev pub World : Type 0
World = List Event → (c : Call) → Reply c

unfoldable pub exec : {A : Type 0} → World → List Event → Program A → Ending A × List Event
exec w h (ret a) = (done a, h)
exec w h (halt s) = (stopped s, h)
exec w h (call c k) = exec w (event c (w h c) ∷ h) (k (w h c))

-- A monitor `S` of the events, a rule for each call, and one for each way to stop.
pub record Monitor : Type 1 where
  pub S : Type 0
  pub start : S
  pub observe : S → (c : Call) → Reply c → S
  pub Rule : S → Call → Type 0
  pub StopRule : S → Stop → Type 0

module _ (mon : Monitor) where
  open mon use {S, start, observe, Rule, StopRule}

  abbrev pub watch : List Event → S
  watch [] = start
  watch (event c r ∷ h) = observe (watch h) c r

  -- Each call fits what was seen before it.
  abbrev pub Obeys : List Event → Type 0
  Obeys [] = Unit
  Obeys (event c r ∷ h) = Rule (watch h) c × Obeys h

  -- The end fits what was seen.
  abbrev pub EndsIn : {A : Type 0} → (S → A → Type 0) → Ending A × List Event → Type 0
  EndsIn Q (done a, h) = Q (watch h) a
  EndsIn Q (stopped x, h) = StopRule (watch h) x

  module _ {A : Type 0} (Q : S → A → Type 0) where
    -- Whatever the replies, the program keeps the rules, and `Q` when it returns.
    abbrev pub Keeps : S → Program A → Type 0
    Keeps m (ret a) = Q m a
    Keeps m (halt s) = StopRule m s
    Keeps m (call c k) = Rule m c × ((r : Reply c) → Keeps (observe m c r) (k r))

    pub Keeps-exec :
        (w : World) (h : List Event) (p : Program A)
        → Obeys h
        → Keeps (watch h) p
        → Obeys (exec w h p).1 × EndsIn Q (exec w h p)
    unfolding exec
    Keeps-exec w h (ret a) o k = (o, k)
    Keeps-exec w h (halt s) o k = (o, k)
    Keeps-exec w h (call c k) o (rule, rest) =
        Keeps-exec w (event c (w h c) ∷ h) (k (w h c)) (rule, o) (rest (w h c))

  pub Keeps-bind :
      {A B : Type 0} (Q : S → B → Type 0) (k : A → Program B) (m : S) (p : Program A)
      → Keeps (λ m' a. Keeps Q m' (k a)) m p
      → Keeps Q m (p >>= k)
  Keeps-bind Q k m (ret a) h = h
  Keeps-bind Q k m (halt s) h = h
  Keeps-bind Q k m (call c next) (rule, rest) =
      (rule, λ r. Keeps-bind Q k (observe m c r) (next r) (rest r))

  pub Keeps-mono :
      {A : Type 0} (Q Q' : S → A → Type 0)
      → ((m : S) (a : A) → Q m a → Q' m a)
      → (m : S) (p : Program A) → Keeps Q m p
      → Keeps Q' m p
  Keeps-mono Q Q' le m (ret a) h = le m a h
  Keeps-mono Q Q' le m (halt s) h = h
  Keeps-mono Q Q' le m (call c k) (rule, rest) =
      (rule, λ r. Keeps-mono Q Q' le (observe m c r) (k r) (rest r))
