-- ===== src/Base/Int/Parse.antt =====
-- The numbers that `str::parse` reads, and that it reads back what is printed.
use Prim.Native.Nat.{ℕ, zero, suc, ◌+◌, ◌-◌, ◌*◌, ◌/◌, ◌%◌, ◌^◌, ◌<◌, ◌≤◌}
use mathlib.Core.Path.{◌≡◌, refl, ◌∙◌, ap}
use mathlib.Core.Logic.{◌⊎◌, inl, inr}
use mathlib.Core.Bool.{◌&&◌, true, false}
use mathlib.Core.Option.{Option, none, some}
use mathlib.Core.List.{List, [], ◌∷◌}
use native.Mathlib.Omega.{arith}
use glide_rust.Base.Lists.{All}
use glide_rust.Base.Tests.{leb, ◌==◌, if◌then◌else◌}
use glide_rust.Base.Int.{ℤ, pos, negsuc, show_from, show_nat, show_int}

-- The digits that remain, after those that make `value`.
digits_from : ℕ → List ℕ → Option ℕ
digits_from value [] = some value
digits_from value (c ∷ cs) =
    let rest = digits_from (value * 10 + (c - 48)) cs in if leb 48 c && leb c 57 then rest else none

-- One digit or more, with no sign.
unfoldable pub parse_nat : List ℕ → Option ℕ
unfolding digits_from
parse_nat [] = none
parse_nat (c ∷ cs) = digits_from 0 (c ∷ cs)

abbrev pub i64_limit : ℕ
i64_limit = 2 ^ 63

abbrev at_most_max : Option ℕ → Option ℤ
at_most_max none = none
at_most_max (some n) = if leb (suc n) i64_limit then some (pos n) else none

abbrev at_least_min : Option ℕ → Option ℤ
at_least_min none = none
at_least_min (some zero) = some (pos 0)
at_least_min (some (suc n)) = if leb (suc n) i64_limit then some (negsuc n) else none

-- `str::parse::<i64>`: an optional sign, and a number that fits.
unfoldable pub parse_i64 : List ℕ → Option ℤ
unfolding parse_nat
parse_i64 [] = none
parse_i64 (c ∷ cs) =
    if c == b'-'
    then at_least_min (parse_nat cs)
    else if c == b'+'
    then at_most_max (parse_nat cs)
    else at_most_max (parse_nat (c ∷ cs))

-- A digit that is printed is read.
at_digit :
    (value d : ℕ) (rest : List ℕ)
    → d < 10
    → digits_from value ((48 + d) ∷ rest) ≡ digits_from (value * 10 + d) rest
unfolding digits_from
at_digit value d rest small = ground (arith, small)

zero_or_suc : (n : ℕ) → (n ≡ zero) ⊎ ((q : ℕ) × (n ≡ suc q))
zero_or_suc zero = inl refl
zero_or_suc (suc q) = inr (q, refl)

digits_from-show_from :
    (fuel n : ℕ) (rest : List ℕ)
    → n < fuel
    → digits_from 0 (show_from fuel n rest) ≡ digits_from n rest
unfolding show_from
digits_from-show_from zero n rest h = absurd (omega (arith, h))
digits_from-show_from (suc fuel) n rest h =
    let digit : n % 10 < 10 = omega arith in
    elim (zero_or_suc (n / 10)) [
      | inl e ↦
          rw (e, show_from)
            (at_digit 0 (n % 10) rest digit ∙ ap (λ v. digits_from v rest) (omega (arith, e)))
      | inr (q, e) ↦
          rw (e, show_from)
            (digits_from-show_from fuel (suc q) ((48 + n % 10) ∷ rest) (omega (arith, h, e))
              ∙ at_digit (suc q) (n % 10) rest digit
              ∙ ap (λ v. digits_from v rest) (omega (arith, e)))
    ]

-- The first byte is a digit.
abbrev pub StartsWithDigit : List ℕ → Type 0
StartsWithDigit [] = ⊥
StartsWithDigit (c ∷ cs) = (48 ≤ c) × (c < 58)

show_from_kept :
    (fuel n : ℕ) (rest : List ℕ) → StartsWithDigit rest → StartsWithDigit (show_from fuel n rest)
unfolding show_from
show_from_kept zero n rest h = h
show_from_kept (suc fuel) n rest h =
    let digit : (48 ≤ 48 + n % 10) × (48 + n % 10 < 58) = (omega arith, omega arith) in
    elim (zero_or_suc (n / 10)) [
      | inl e ↦ rw (e, show_from) digit
      | inr (q, e) ↦ rw (e, show_from) (show_from_kept fuel (suc q) ((48 + n % 10) ∷ rest) digit)
    ]

pub show_nat_starts : (n : ℕ) → StartsWithDigit (show_nat n)
unfolding show_nat show_from
show_nat_starts n =
    let digit : (48 ≤ 48 + n % 10) × (48 + n % 10 < 58) = (omega arith, omega arith) in
    elim (zero_or_suc (n / 10)) [
      | inl e ↦ rw (e, show_from) digit
      | inr (q, e) ↦ rw (e, show_from) (show_from_kept n (suc q) ((48 + n % 10) ∷ []) digit)
    ]

-- What starts with a digit is read as digits.
parse_nat_digits : (xs : List ℕ) → StartsWithDigit xs → parse_nat xs ≡ digits_from 0 xs
unfolding parse_nat
parse_nat_digits [] h = absurd h
parse_nat_digits (c ∷ cs) h = refl

unsigned_digits : (xs : List ℕ) → StartsWithDigit xs → parse_i64 xs ≡ at_most_max (parse_nat xs)
unfolding parse_i64
unsigned_digits [] h = absurd h
unsigned_digits (c ∷ cs) (low, high) = ground (arith, low, high)

pub parse_nat-show_nat : (n : ℕ) → parse_nat (show_nat n) ≡ some n
unfolding show_nat digits_from
parse_nat-show_nat n =
    parse_nat_digits (show_nat n) (show_nat_starts n)
    ∙ digits_from-show_from (suc n) n [] (omega arith)

-- The numbers of an `i64`.
abbrev pub IsI64 : ℤ → Type 0
IsI64 (pos n) = n < i64_limit
IsI64 (negsuc n) = n < i64_limit

fits : (n : ℕ) → n < i64_limit → leb (suc n) i64_limit ≡ true
fits n h = ground (arith, h)

pub parse_i64-show_int : (n : ℤ) → IsI64 n → parse_i64 (show_int n) ≡ some n
unfolding show_int parse_i64
parse_i64-show_int (pos n) h =
    unsigned_digits (show_nat n) (show_nat_starts n) ∙ rw (parse_nat-show_nat n, fits n h) refl
parse_i64-show_int (negsuc n) h = rw (parse_nat-show_nat (suc n), fits n h) refl

show_from_ascii :
    (fuel n : ℕ) (rest : List ℕ)
    → All (λ c. c < 128) rest
    → All (λ c. c < 128) (show_from fuel n rest)
unfolding show_from
show_from_ascii zero n rest h = h
show_from_ascii (suc fuel) n rest h =
    let digit : 48 + n % 10 < 128 = omega arith in
    elim (zero_or_suc (n / 10)) [
      | inl e ↦ rw (e, show_from) (digit, h)
      | inr (q, e) ↦
          rw (e, show_from) (show_from_ascii fuel (suc q) ((48 + n % 10) ∷ rest) (digit, h))
    ]

pub show_int_ascii : (n : ℤ) → All (λ c. c < 128) (show_int n)
unfolding show_int show_nat
show_int_ascii (pos n) = show_from_ascii (suc n) n [] tt
show_int_ascii (negsuc n) = (omega arith, show_from_ascii (suc (suc n)) (suc n) [] tt)

unfit : (n : ℕ) → i64_limit ≤ n → leb (suc n) i64_limit ≡ false
unfit n h = ground (arith, h)

pub parse_i64_unfit : (n : ℕ) → i64_limit ≤ n → parse_i64 (show_int (pos n)) ≡ none
unfolding show_int parse_i64
parse_i64_unfit n h =
    unsigned_digits (show_nat n) (show_nat_starts n) ∙ rw (parse_nat-show_nat n, unfit n h) refl
