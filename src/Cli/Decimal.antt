-- ===== src/Cli/Decimal.antt =====
-- Decimal numerals, and what the readers of cmd/coordinator/main.go make of them.
use Prim.Native.Char.{Char, code}
use ensemble_chat.Common.{
  ℕ, zero, suc, ◌+◌, ◌*◌, ◌/◌, ◌%◌, ◌^◌, ◌≤◌, ◌<◌, ◌≡◌, ◌≢◌, ◌⊎◌, refl, ◌∙◌, ap, pos, some, String,
  ltb, ◌==◌, if◌then◌else◌, arith, dec_lt, lt→ltb, false,
}
use ensemble_chat.Cli.Text.{is_empty, scan, unsigned, atoi, in_range}

unfoldable pub digit : ℕ → Char
digit d =
    if d == 0
    then "0"
    else if d == 1
    then "1"
    else if d == 2
    then "2"
    else if d == 3
    then "3"
    else if d == 4
    then "4"
    else if d == 5
    then "5"
    else if d == 6
    then "6"
    else if d == 7
    then "7"
    else if d == 8
    then "8"
    else "9"

code-digit : (d : ℕ) → d < 10 → code (digit d) ≡ 48 + d
unfolding digit
code-digit zero h = refl
code-digit (suc zero) h = refl
code-digit (suc (suc zero)) h = refl
code-digit (suc (suc (suc zero))) h = refl
code-digit (suc (suc (suc (suc zero)))) h = refl
code-digit (suc (suc (suc (suc (suc zero))))) h = refl
code-digit (suc (suc (suc (suc (suc (suc zero)))))) h = refl
code-digit (suc (suc (suc (suc (suc (suc (suc zero))))))) h = refl
code-digit (suc (suc (suc (suc (suc (suc (suc (suc zero)))))))) h = refl
code-digit (suc (suc (suc (suc (suc (suc (suc (suc (suc zero))))))))) h = refl
code-digit (suc (suc (suc (suc (suc (suc (suc (suc (suc (suc d)))))))))) h = absurd (omega arith)

-- The numeral of n in front of `out`. Fuel n is enough, since each turn divides n by 10.
unfoldable pub emit : (fuel n : ℕ) → String → String
unfolding digit
emit zero n out = String.◌∷◌ (digit n) out
emit (suc k) n out =
    let more = emit k (n / 10) (String.◌∷◌ (digit (n % 10)) out) in
    if ltb n 10 then String.◌∷◌ (digit n) out else more

-- `strconv.Itoa` on numbers that are not negative
unfoldable pub itoa : ℕ → String
unfolding emit
itoa n = emit n n ""

-- All characters are digits, or none is `sep`.
abbrev pub IsNumeral : String → Type 0
IsNumeral String.[] = Unit
IsNumeral (String.◌∷◌ c s) = (48 ≤ code c) × (code c ≤ 57) × IsNumeral s

abbrev pub Lacks : (sep : ℕ) → String → Type 0
Lacks sep String.[] = Unit
Lacks sep (String.◌∷◌ c s) = (code c ≢ sep) × Lacks sep s

pub numeral-Lacks : (sep : ℕ) (s : String) → (sep < 48) ⊎ (57 < sep) → IsNumeral s → Lacks sep s
numeral-Lacks sep String.[] out h = tt
numeral-Lacks sep (String.◌∷◌ c s) out (l, u, h) = (ground (arith, out), numeral-Lacks sep s out h)

scan-digit : (d m : ℕ) (s : String) → d < 10 → scan (String.◌∷◌ (digit d) s) m ≡ scan s (m * 10 + d)
unfolding scan
scan-digit d m s h = ground (arith, code-digit d h)

digit-IsNumeral : (d : ℕ) (s : String) → d < 10 → IsNumeral s → IsNumeral (String.◌∷◌ (digit d) s)
digit-IsNumeral d s l h = (omega (arith, code-digit d l), omega (arith, code-digit d l), h)

not_small : (n : ℕ) → ¬ (n < 10) → ltb n 10 ≡ false
not_small n h = ground (arith, h)

emit-IsNumeral : (k n : ℕ) (out : String) → n ≤ k → IsNumeral out → IsNumeral (emit k n out)
unfolding emit
emit-IsNumeral zero n out l h = digit-IsNumeral n out (omega arith) h
emit-IsNumeral (suc k) n out l h = elim (dec_lt n 10) [
  | yes small ↦ rw (lt→ltb n 10 small) (digit-IsNumeral n out small h)
  | no big ↦ rw (not_small n big) (
      emit-IsNumeral k (n / 10) (String.◌∷◌ (digit (n % 10)) out) (omega (arith, big))
        (digit-IsNumeral (n % 10) out (omega arith) h))
]

scan-emit : (k n : ℕ) (out : String) → n ≤ k → scan (emit k n out) 0 ≡ scan out n
unfolding emit
scan-emit zero n out l = scan-digit n 0 out (omega arith) ∙ ap (scan out) (omega arith)
scan-emit (suc k) n out l = elim (dec_lt n 10) [
  | yes small ↦ rw (lt→ltb n 10 small) (scan-digit n 0 out small ∙ ap (scan out) (omega arith))
  | no big ↦ rw (not_small n big) (
      scan-emit k (n / 10) (String.◌∷◌ (digit (n % 10)) out) (omega (arith, big))
      ∙ scan-digit (n % 10) (n / 10) out (omega arith)
      ∙ ap (scan out) (omega arith))
]

-- The digits of a numeral are read as its number.
atoi_numeral :
    (s : String) (n : ℕ)
    → is_empty s ≡ false
    → IsNumeral s
    → scan s 0 ≡ some n
    → n < 2 ^ 63
    → atoi s ≡ some (pos n)
unfolding atoi unsigned in_range
atoi_numeral String.[] n e h r l = absurd (cc)
atoi_numeral (String.◌∷◌ c s) n e (lower, upper, h) r l =
    let no_minus : (code c == b'-') ≡ false = ground arith in
    let no_plus : (code c == b'+') ≡ false = ground arith in
    rw (no_minus, no_plus, r, lt→ltb n (2 ^ 63) l) refl

emit-nonempty : (k n : ℕ) (out : String) → is_empty (emit k n out) ≡ false
unfolding emit
emit-nonempty zero n out = refl
emit-nonempty (suc k) n out = elim (dec_lt n 10) [
  | yes small ↦ rw (lt→ltb n 10 small) refl
  | no big ↦ rw (not_small n big) (emit-nonempty k (n / 10) (String.◌∷◌ (digit (n % 10)) out))
]

pub itoa-nonempty : (n : ℕ) → is_empty (itoa n) ≡ false
unfolding itoa
itoa-nonempty n = emit-nonempty n n ""

pub itoa-IsNumeral : (n : ℕ) → IsNumeral (itoa n)
unfolding itoa
itoa-IsNumeral n = emit-IsNumeral n n "" (omega arith) tt

-- A numeral is read back.
pub atoi-itoa : (n : ℕ) → n < 2 ^ 63 → atoi (itoa n) ≡ some (pos n)
unfolding itoa scan
atoi-itoa n l =
    atoi_numeral (itoa n) n (itoa-nonempty n) (itoa-IsNumeral n) (scan-emit n n "" (omega arith)) l
