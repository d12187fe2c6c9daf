-- ===== src/Main/Notification/Quotes.antt =====
-- The quotes that `stripQuotes` of cmd/kured/main.go removes.
use kured.Common.{
  ℕ, ◌≡◌, refl, ap, sym, true, [], ◌∷◌, ◌++◌, Text, length, length-append, ==_iff, ltb, ◌==◌, arith,
}
use kured.Main.Notification.{last_byte, drop_last, is_quote, strip_quotes}

last_byte-append : (c q : ℕ) (s : Text) → last_byte c (s ++ q ∷ []) ≡ q
unfolding last_byte
last_byte-append c q [] = refl
last_byte-append c q (d ∷ s) = last_byte-append d q s

drop_last-append : (c q : ℕ) (s : Text) → drop_last c (s ++ q ∷ []) ≡ c ∷ s
unfolding drop_last
drop_last-append c q [] = refl
drop_last-append c q (d ∷ s) = ap (◌∷◌ c) (drop_last-append d q s)

-- `stripQuotes` takes a pair of single or of double quotes off a text that is not empty.
pub strip_quotes-quoted :
    (q c : ℕ) (s : Text) → is_quote q ≡ true → strip_quotes (q ∷ c ∷ s ++ q ∷ []) ≡ c ∷ s
unfolding strip_quotes
strip_quotes-quoted q c s e =
    let long : ltb 2 (length (q ∷ c ∷ s ++ q ∷ [])) ≡ true =
      ground (arith, length-append s (q ∷ [])) in
    let same : (q == last_byte q (c ∷ s ++ q ∷ [])) ≡ true =
      (==_iff q (last_byte c (s ++ q ∷ []))).1 (sym (last_byte-append c q s)) in
    rw (long, same, e) (drop_last-append c q s)
