-- ===== src/Base/Fallible.antt =====
-- `std::result::Result`, with the error type first.
use mathlib.Core.Path.{◌≡◌, refl}
use mathlib.Core.Logic.{◌⊎◌, inl, inr}
use mathlib.Core.List.{List, [], ◌∷◌}
use mathlib.Core.Option.{Option, none, some}

pub data Result (E A : Type 0) : Type 0 where
  ok : A → Result E A
  err : E → Result E A

-- The operator `?`.
infixl 5 ◌>>=◌
abbrev pub ◌>>=◌ : {E A B : Type 0} → Result E A → (A → Result E B) → Result E B
ok a >>= f = f a
err e >>= f = err e

abbrev pub map_err : {E E' A : Type 0} → (E → E') → Result E A → Result E' A
map_err f (ok a) = ok a
map_err f (err e) = err (f e)

abbrev pub map_ok : {E A B : Type 0} → (A → B) → Result E A → Result E B
map_ok f (ok a) = ok (f a)
map_ok f (err e) = err e

-- `Result::ok`
abbrev pub to_option : {E A : Type 0} → Result E A → Option A
to_option (ok a) = some a
to_option (err e) = none

-- `iter.map(f).collect::<Result<Vec<_>>>()`: the first error ends it.
unfoldable pub collect : {E A B : Type 0} → (A → Result E B) → List A → Result E (List B)
collect f [] = ok []
collect f (x ∷ xs) = do y ← f x; ys ← collect f xs; ok (y ∷ ys)

pub Result-cases :
    {E A : Type 0} (r : Result E A) → ((a : A) × (r ≡ ok a)) ⊎ ((e : E) × (r ≡ err e))
Result-cases (ok a) = inl (a, refl)
Result-cases (err e) = inr (e, refl)

-- What a success of the whole is used for, with the value of the first part as a variable.
pub given_ok {κ} :
    {E A B : Type 0} {goal : Type κ} (r : Result E A) (next : A → Result E B) {last : B}
    → (r >>= next) ≡ ok last
    → ((first : A) → r ≡ ok first → next first ≡ ok last → goal)
    → goal
given_ok (ok first) next succeeded use_parts = use_parts first refl succeeded
given_ok (err e) next succeeded use_parts = cc

pub ok_injective : {E A : Type 0} {a b : A} → ◌≡◌ {A = Result E A} (ok a) (ok b) → a ≡ b
ok_injective h = cc
