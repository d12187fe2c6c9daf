-- ===== src/Kube/Program.antt =====
-- Programs over the calls: a program returns, makes a call and goes on with the reply, or stops.
use kured.Kube.{Call, Reply}

-- `fatal` is `log.Fatal`, `panics` a run-time panic, and `waits` the endless wait for the reboot.
pub data Stop : Type 0 where
  fatal panics waits : Stop

pub data Program (A : Type 0) : Type 0 where
  ret : A → Program A
  halt : Stop → Program A
  call : (c : Call) → (Reply c → Program A) → Program A

infixl 5 ◌>>=◌ ◌>>◌
abbrev pub ◌>>=◌ : {A B : Type 0} → Program A → (A → Program B) → Program B
ret a >>= f = f a
halt s >>= f = halt s
call c k >>= f = call c (λ r. k r >>= f)

abbrev pub ◌>>◌ : {B : Type 0} → Program (Unit {0}) → Program B → Program B
m >> k = m >>= λ _. k

-- One call, and its reply.
abbrev pub ask : (c : Call) → Program (Reply c)
ask c = call c ret
