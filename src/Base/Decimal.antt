-- ===== src/Base/Decimal.antt =====
-- The decimal text that `format!("{}", n)` gives for a `u64`, and reading it back.
use Prim.Native.Char.{Char, code}
use Prim.Native.Nat.{ℕ, zero, suc, ◌+◌, ◌-◌, ◌*◌, ◌/◌, ◌%◌, ◌^◌, ◌≤◌, ◌<◌}
use Prim.Native.String.{String}
use mathlib.Core.Path.{◌≡◌, refl, sym, ap, ◌∙◌}
use native.Mathlib.Omega.{arith}
use verdant.Base.Tests.{ltb, if◌then◌else◌}
use verdant.Base.Words.{u64_max}

unfoldable digit : ℕ → Char
digit zero = "0"
digit (suc zero) = "1"
digit (suc (suc zero)) = "2"
digit (suc (suc (suc zero))) = "3"
digit (suc (suc (suc (suc zero)))) = "4"
digit (suc (suc (suc (suc (suc zero))))) = "5"
digit (suc (suc (suc (suc (suc (suc zero)))))) = "6"
digit (suc (suc (suc (suc (suc (suc (suc zero))))))) = "7"
digit (suc (suc (suc (suc (suc (suc (suc (suc zero)))))))) = "8"
digit _ = "9"

-- At most `k` digits of `n`, the last one first, put before `out`.
unfoldable pub digits : ℕ → ℕ → String → String
unfolding digit
digits zero n out = out
digits (suc k) n out =
    let longer = String.◌∷◌ (digit (n % 10)) out in
    let rest = digits k (n / 10) longer in if ltb n 10 then longer else rest

-- Twenty digits hold every `u64`.
unfoldable pub decimal : ℕ → String
unfolding digits
decimal n = digits 20 n ""

digits_value : String → ℕ → ℕ
digits_value String.[] n = n
digits_value (String.◌∷◌ c s) n = digits_value s (n * 10 + (code c - 48))

code-digit : (n : ℕ) → n < 10 → code (digit n) ≡ 48 + n
unfolding digit
code-digit zero h = refl
code-digit (suc zero) h = refl
code-digit (suc (suc zero)) h = refl
code-digit (suc (suc (suc zero))) h = refl
code-digit (suc (suc (suc (suc zero)))) h = refl
code-digit (suc (suc (suc (suc (suc zero))))) h = refl
code-digit (suc (suc (suc (suc (suc (suc zero)))))) h = refl
code-digit (suc (suc (suc (suc (suc (suc (suc zero))))))) h = refl
code-digit (suc (suc (suc (suc (suc (suc (suc (suc zero)))))))) h = refl
code-digit (suc (suc (suc (suc (suc (suc (suc (suc (suc zero))))))))) h = refl
code-digit (suc (suc (suc (suc (suc (suc (suc (suc (suc (suc n)))))))))) h = absurd (omega arith)

read-digits :
    (k n : ℕ) (out : String) → n < 10 ^ k → digits_value (digits k n out) 0 ≡ digits_value out n
unfolding digits digits_value
read-digits zero n out h = ap (digits_value out) {x = 0} {y = n} (omega arith)
read-digits (suc k) n out h = ground (
  arith,
  code-digit (n % 10),
  read-digits k (n / 10) (String.◌∷◌ (digit (n % 10)) out),
  ap (digits_value out) {x = (n / 10) * 10 + (code (digit (n % 10)) - 48)} {y = n},
  ap (digits_value out) {x = code (digit (n % 10)) - 48} {y = n},
)

pub decimal_injective : (a b : ℕ) → a ≤ u64_max → b ≤ u64_max → decimal a ≡ decimal b → a ≡ b
unfolding decimal digits_value
decimal_injective a b ha hb h =
    sym (read-digits 20 a "" (omega arith))
    ∙ ap (λ s. digits_value s 0) h
    ∙ read-digits 20 b "" (omega arith)

decimal-u64_max : decimal 18446744073709551615 ≡ "18446744073709551615"
unfolding decimal
decimal-u64_max = refl
