-- ===== src/Base/Result.antt =====
-- Rust's `Result`, with the operations that chain and convert it.
use mathlib.Core.Path.{◌≡◌, refl}
use mathlib.Core.Bool.{Bool, true, false}
use mathlib.Core.Logic.{◌⊎◌, inl, inr}
use mathlib.Core.Option.{Option, none, some}

pub data Result (E A : Type 0) : Type 0 where
  ok : A → Result E A
  err : E → Result E A

-- The operator `?`.
infixl 5 ◌>>=◌ ◌>>◌
abbrev pub ◌>>=◌ : {E A B : Type 0} → Result E A → (A → Result E B) → Result E B
ok a >>= next = next a
err e >>= next = err e

abbrev pub guard : {E : Type 0} → Bool → E → Result E (Unit {0})
guard true e = ok tt
guard false e = err e

abbrev pub ◌>>◌ : {E B : Type 0} → Result E (Unit {0}) → Result E B → Result E B
m >> rest = m >>= λ _. rest

abbrev pub map_err : {E F A : Type 0} → F → Result E A → Result F A
map_err f (ok a) = ok a
map_err f (err e) = err f

-- `Option::ok_or_else`.
abbrev pub ok_or : {E A : Type 0} → E → Option A → Result E A
ok_or e none = err e
ok_or e (some a) = ok a

abbrev pub is_ok : {E A : Type 0} → Result E A → Bool
is_ok (ok a) = true
is_ok (err e) = false

-- `Result::ok`.
abbrev pub to_option : {E A : Type 0} → Result E A → Option A
to_option (ok a) = some a
to_option (err e) = none

pub >>=-ok :
    {E A B : Type 0} (m : Result E A) (next : A → Result E B) {b : B}
    → (m >>= next) ≡ ok b
    → (a : A) × (m ≡ ok a) × (next a ≡ ok b)
>>=-ok (ok a) next h = (a, refl, h)
>>=-ok (err e) next h = cc

pub ok_or-ok : {E A : Type 0} (e : E) (o : Option A) {a : A} → ok_or e o ≡ ok a → o ≡ some a
ok_or-ok e none h = cc
ok_or-ok e (some a) h = cc

pub map_err-ok : {E F A : Type 0} (f : F) (m : Result E A) {a : A} → map_err f m ≡ ok a → m ≡ ok a
map_err-ok f (ok a) h = cc
map_err-ok f (err e) h = cc

pub Result-cases :
    {E A : Type 0} (m : Result E A) → ((a : A) × (m ≡ ok a)) ⊎ ((e : E) × (m ≡ err e))
Result-cases (ok a) = inl (a, refl)
Result-cases (err e) = inr (e, refl)

pub guard-ok :
    {E B : Type 0} (b : Bool) (e : E) (rest : Result E B) {x : B}
    → (guard b e >> rest) ≡ ok x
    → (b ≡ true) × (rest ≡ ok x)
guard-ok true e rest h = (refl, h)
guard-ok false e rest h = cc

pub is_ok-ok : {E : Type 0} (m : Result E (Unit {0})) → is_ok m ≡ true → m ≡ ok tt
is_ok-ok (ok a) h = refl
is_ok-ok (err e) h = cc
