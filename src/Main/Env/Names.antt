-- ===== src/Main/Env/Names.antt =====
-- cmd/kured/main.go: the names of the variables that `LoadFromEnv` looks up.
use kured.Common.{ℕ, ◌≡◌, refl, Bool, true, ◌&&◌, ◌||◌, [], ◌∷◌, map, Text, leb, ◌==◌, arith}
use kured.Main.Env.{underscore, upper, env_var_name}

-- A name of a flag has lower-case letters and dashes.
abbrev pub is_flag_name : Text → Bool
is_flag_name [] = true
is_flag_name (c ∷ s) = (leb 97 c && leb c 122 || c == b'-') && is_flag_name s

byte_injective :
    (a b : ℕ)
    → (leb 97 a && leb a 122 || a == 45) ≡ true
    → (leb 97 b && leb b 122 || b == 45) ≡ true
    → upper (underscore a) ≡ upper (underscore b)
    → a ≡ b
byte_injective a b p q e = ground arith

bytes_injective :
    (s t : Text)
    → is_flag_name s ≡ true
    → is_flag_name t ≡ true
    → map upper (map underscore s) ≡ map upper (map underscore t)
    → s ≡ t
bytes_injective [] [] p q e = refl
bytes_injective [] (c ∷ t) p q e = absurd (ground arith)
bytes_injective (c ∷ s) [] p q e = absurd (ground arith)
bytes_injective (a ∷ s) (b ∷ t) p q e =
    let same : a ≡ b = byte_injective a b (ground arith) (ground arith) (ground arith) in
    let rest : s ≡ t = bytes_injective s t (ground arith) (ground arith) (ground arith) in cc

-- No two flags read the same variable.
pub env_var_name-injective :
    (s t : Text)
    → is_flag_name s ≡ true
    → is_flag_name t ≡ true
    → env_var_name s ≡ env_var_name t
    → s ≡ t
unfolding env_var_name
env_var_name-injective s t p q e = bytes_injective s t p q (ground arith)
