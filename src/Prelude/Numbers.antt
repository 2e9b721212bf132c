-- ===== src/Prelude/Numbers.antt =====
-- Go's numbers as texts: fmt's %d and strconv.Atoi, and the conversions to int32 and uint32.
use Prim.Native.Nat.{ℕ, zero, suc, ◌+◌, ◌-◌, ◌*◌, ◌/◌, ◌%◌, ◌^◌, ◌≤◌, ◌<◌}
use mathlib.Core.Path.{◌≡◌, refl}
use mathlib.Core.Bool.{◌&&◌}
use mathlib.Core.List.{[], ◌∷◌, ◌++◌}
use native.Mathlib.Omega.{arith}
use mathlib.Core.Logic.{inl, inr}
use mathlib.Core.Path.{◌∙◌}
use environment_operator.Prelude.Tests.{Bool-cases, ltb, leb, eqb, ℤ, pos, negsuc, if◌then◌else◌}
use environment_operator.Prelude.Strings.{Text}

-- The digits of a number below 10 ^ fuel.
unfoldable pub digits : ℕ → ℕ → Text
digits zero n = []
digits (suc fuel) n =
    let high = digits fuel (n / 10) in
    if ltb n 10 then (48 + n) ∷ [] else high ++ ((48 + n % 10) ∷ [])

-- fmt.Sprintf("%d", n)
unfoldable pub decimal : ℤ → Text
unfolding digits
decimal (pos n) = digits (suc n) n
decimal (negsuc n) = b'-' ∷ digits (suc (suc n)) (suc n)

-- A text of digits as a uint64, after those read so far: the scan ends at the first character that
-- is no digit, and as soon as the number does not fit.
pub data Scanned : Type 0 where
  value : ℕ → Scanned
  invalid overflow : Scanned

unfoldable pub scan_from : ℕ → Text → Scanned
scan_from acc [] = value acc
scan_from acc (c ∷ s) =
    let next = acc * 10 + (c - 48) in
    let rest = scan_from next s in
    if leb 48 c && leb c 57 then (if ltb next (2 ^ 64) then rest else overflow) else invalid

-- What Atoi yields: a number; 0 and a syntax error; or the nearest int64 and a range error.
pub data Parsed : Type 0 where
  number : ℤ → Parsed
  syntax : Parsed
  range : ℤ → Parsed

abbrev positive : Scanned → Parsed
positive (value n) = if ltb n (2 ^ 63) then number (pos n) else range (pos (2 ^ 63 - 1))
positive invalid = syntax
positive overflow = range (pos (2 ^ 63 - 1))

abbrev negative : Scanned → Parsed
negative (value zero) = number (pos 0)
negative (value (suc n)) = if ltb n (2 ^ 63) then number (negsuc n) else range (negsuc (2 ^ 63 - 1))
negative invalid = syntax
negative overflow = range (negsuc (2 ^ 63 - 1))

abbrev unsigned : (Scanned → Parsed) → Text → Parsed
unsigned sign [] = syntax
unsigned sign (c ∷ s) = sign (scan_from 0 (c ∷ s))

unfoldable pub atoi : Text → Parsed
unfolding scan_from
atoi [] = syntax
atoi (c ∷ s) =
    if eqb c b'-'
    then unsigned negative s
    else if eqb c b'+'
    then unsigned positive s
    else unsigned positive (c ∷ s)

-- The value that Atoi returns whatever the error.
abbrev pub value_of : Parsed → ℤ
value_of (number n) = n
value_of syntax = pos 0
value_of (range n) = n

-- The last 32 bits of an integer.
abbrev pub to_uint32 : ℤ → ℕ
to_uint32 (pos n) = n % 2 ^ 32
to_uint32 (negsuc n) = 2 ^ 32 - 1 - n % 2 ^ 32

unfoldable pub to_int32 : ℤ → ℤ
to_int32 p =
    let bits = to_uint32 p in if ltb bits (2 ^ 31) then pos bits else negsuc (2 ^ 32 - 1 - bits)

-- An int that an int32 holds.
abbrev pub IsInt32 : ℤ → Type 0
IsInt32 (pos n) = n < 2 ^ 31
IsInt32 (negsuc n) = n < 2 ^ 31

pub to_int32-IsInt32 : (p : ℤ) → IsInt32 p → to_int32 p ≡ p
unfolding to_int32
to_int32-IsInt32 (pos n) h = ground arith
to_int32-IsInt32 (negsuc n) h = ground arith

scan_from-append :
    (acc : ℕ) (s t : Text) (n : ℕ)
    → scan_from acc s ≡ value n
    → scan_from acc (s ++ t) ≡ scan_from n t
unfolding scan_from
scan_from-append acc [] t n h = let same : acc ≡ n = cc in rw same
scan_from-append acc (c ∷ s) t n h = ground (arith, scan_from-append (acc * 10 + (c - 48)) s t n)

-- Enough digits are read back as the number that they print.
scan_from-digits : (fuel n : ℕ) → n < fuel → n < 2 ^ 64 → scan_from 0 (digits fuel n) ≡ value n
unfolding digits scan_from
scan_from-digits zero n h k = elim h [ ]
scan_from-digits (suc fuel) n h k = ground (
  arith,
  scan_from-append 0 (digits fuel (n / 10)) ((48 + n % 10) ∷ []) (n / 10),
  scan_from-digits fuel (n / 10),
)

-- A number in front of a text: what `digits` prints starts with a digit.
digits_cons :
    (fuel n : ℕ) → n < fuel → (c : ℕ) × (s : Text) × (digits fuel n ≡ c ∷ s) × (48 ≤ c) × (c ≤ 57)
unfolding digits
digits_cons zero n h = elim h [ ]
digits_cons (suc fuel) n h = elim (Bool-cases (ltb n 10)) [
  | inl e ↦ (48 + n, [], rw e, omega arith, ground arith)
  | inr e ↦
      let (c, s, same, low, high) = digits_cons fuel (n / 10) (ground arith) in
      (c, s ++ ((48 + n % 10) ∷ []), rw (e, same), low, high)
]

-- An int that an int64 holds.
abbrev pub IsInt64 : ℤ → Type 0
IsInt64 (pos n) = n < 2 ^ 63
IsInt64 (negsuc n) = n < 2 ^ 63

atoi_digit : (c : ℕ) (s : Text) → 48 ≤ c → atoi (c ∷ s) ≡ positive (scan_from 0 (c ∷ s))
unfolding atoi
atoi_digit c s h = ground arith

atoi_minus : (c : ℕ) (s : Text) → atoi (b'-' ∷ c ∷ s) ≡ negative (scan_from 0 (c ∷ s))
unfolding atoi
atoi_minus c s = refl

-- An int64 that is printed is read back.
pub atoi-decimal : (p : ℤ) → IsInt64 p → atoi (decimal p) ≡ number p
unfolding decimal
atoi-decimal (pos n) h =
    let (c, s, same, low, high) = digits_cons (suc n) n (omega arith) in
    let scanned = scan_from-digits (suc n) n (omega arith) (omega arith) in
    rw same (atoi_digit c s low ∙ rw (← same) (rw scanned (ground arith)))
atoi-decimal (negsuc n) h =
    let (c, s, same, low, high) = digits_cons (suc (suc n)) (suc n) (omega arith) in
    let scanned = scan_from-digits (suc (suc n)) (suc n) (omega arith) (omega arith) in
    rw same (atoi_minus c s ∙ rw (← same) (rw scanned (ground arith)))
