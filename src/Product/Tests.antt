-- ===== src/Product/Tests.antt =====
-- The theorem at a product, with numbers of one digit.
use linux_exercises.Base.{
  ℕ, suc, ◌+◌, ◌-◌, ◌≡◌, ◌≢◌, refl, Option, none, some, [], ◌∷◌, ◌++◌, arith, if◌then◌else◌,
}
use linux_exercises.Strings.{Text, is_digit}
use linux_exercises.Product.Shared.{Product, produce, consume}
use linux_exercises.Product.Transfer.{produce-consume}

scan_digit : Text → Option ℕ × Text
scan_digit [] = (none, [])
scan_digit (c ∷ cs) = if is_digit c then (some (c - b'0'), cs) else (none, c ∷ cs)

-- The digit, a point and two zeros.
show_digit : ℕ → Text
show_digit n = (b'0' + n) ∷ b'.' ∷ b'0' ∷ b'0' ∷ []

abbrev tea : Text
tea = b't' ∷ b'e' ∷ b'a' ∷ []

abbrev input : Text
input = (b'7' ∷ []) ++ 10 ∷ (tea ++ 10 ∷ (b'3' ∷ []))

abbrev blank : Product ℕ
blank = record { name = []; id = 0; price = 0 }

not_ten : (n : ℕ) → 11 + n ≢ 10
not_ten n e = omega (arith, e)

not_nul : (n : ℕ) → suc n ≢ 0
not_nul n e = omega (arith, e)

produce-consume_example :
    (produce scan_digit scan_digit show_digit input blank
      ≡ (record { name = tea; id = 7; price = 3 }, some (7, tea, show_digit 3)))
    × (consume show_digit (produce scan_digit scan_digit show_digit input blank).0
        ≡ (7, tea, show_digit 3))
unfolding scan_digit
produce-consume_example =
    produce-consume scan_digit scan_digit show_digit (b'7' ∷ []) tea (b'3' ∷ []) [] 7 3 blank refl
      refl (not_nul 115, (not_nul 100, (not_nul 96, tt)))
      (not_ten 105, (not_ten 90, (not_ten 86, tt))) (omega arith)
