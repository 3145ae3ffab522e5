-- ===== src/Base/Io.antt =====
-- A call that may change the world outside the client and may fail: the awaited futures.
use mathlib.Core.Path.{◌≡◌, ap}
use glide_rust.Base.Fallible.{Result, ok, err, map_err}

abbrev pub Io : Type 0 → Type 0 → Type 0 → Type 0
Io W E A = W → Result E A × W

infixl 5 ◌>>=◌
abbrev pub ◌>>=◌ : {W E A B : Type 0} → Io W E A → (A → Io W E B) → Io W E B
◌>>=◌ m f w = let (r, w') = m w in elim r [ ok a ↦ f a w' | err e ↦ (err e, w') ]

-- A result that needs no call.
abbrev pub lift : {W E A : Type 0} → Result E A → Io W E A
lift r w = (r, w)

-- `.await.map_err(f)`
abbrev pub map_io_err : {W E E' A : Type 0} → (E → E') → Io W E A → Io W E' A
map_io_err f m w = let (r, w') = m w in (map_err f r, w')

-- A call that succeeds, its errors mapped, and what is then made of its answer.
pub io_ok :
    {W E E' A B : Type 0} (g : E → E') (m : Io W E A) (f : A → Result E' B) (w : W) {a : A} {w' : W}
    → m w ≡ (ok a, w')
    → (map_io_err g m >>= λ x. lift (f x)) w ≡ (f a, w')
io_ok g m f w h = ap (λ p. (map_io_err g (λ _. p) >>= λ x. lift (f x)) w) h
