-- ===== src/Prelude/Outcome.antt =====
-- What a Rust function that returns `Result` can do: return `Ok`, return `Err`, or panic. The
-- release profile has `overflow-checks = true`, so an integer overflow is a panic too.
use mathlib.Core.Path.{◌≡◌, refl}
use mathlib.Core.Bool.{Bool, true, false}
use mathlib.Core.Option.{Option, none, some}

pub data Result {ℓ κ} (E : Type ℓ) (A : Type κ) : Type (ℓ ⊔ κ) where
  ok : A → Result E A
  err : E → Result E A
  panic : Result E A

-- `?`: an error or a panic ends the function.
infixl 5 ◌>>=◌ ◌>>◌
abbrev pub ◌>>=◌ {ℓ κ μ} :
    {E : Type ℓ} {A : Type κ} {B : Type μ} → Result E A → (A → Result E B) → Result E B
panic >>= next = panic
ok x >>= next = next x
err e >>= next = err e

abbrev pub ◌>>◌ {ℓ κ} : {E : Type ℓ} {B : Type κ} → Result E (Unit {0}) → Result E B → Result E B
first >> next = first >>= λ _. next

-- `if test { return Err(e) }` is `guard (not test) e`.
abbrev pub guard {ℓ} : {E : Type ℓ} → Bool → E → Result E (Unit {0})
guard false error = err error
guard true error = ok tt

-- `if a != b { return Err(e) }`, for values that are compared by `Dec`
abbrev pub guard_dec {ℓ κ} : {E : Type ℓ} {P : Type κ} → Dec P → E → Result E (Unit {0})
guard_dec (yes p) e = ok tt
guard_dec (no n) e = err e

-- `ok_or(e)`
abbrev pub ok_or {ℓ κ} : {E : Type ℓ} {A : Type κ} → Option A → E → Result E A
ok_or none e = err e
ok_or (some a) e = ok a

-- `unwrap` on an option, and an index expression, whose `get` is the option
abbrev pub unwrap {ℓ κ} : {E : Type ℓ} {A : Type κ} → Option A → Result E A
unwrap none = panic
unwrap (some a) = ok a

-- `map_err`, and the `From` conversion that `?` makes
abbrev pub map_err {ℓ κ μ} :
    {E : Type ℓ} {F : Type κ} {A : Type μ} → (E → F) → Result E A → Result F A
map_err f (ok a) = ok a
map_err f (err e) = err (f e)
map_err f panic = panic

-- the same function on the value of an `Ok`
abbrev pub map_ok {ℓ κ μ} :
    {E : Type ℓ} {A : Type κ} {B : Type μ} → (A → B) → Result E A → Result E B
map_ok f (ok a) = ok (f a)
map_ok f (err e) = err e
map_ok f panic = panic

-- what a bind that returns has run
pub >>=-eq-ok {ℓ κ μ} :
    {E : Type ℓ} {A : Type κ} {B : Type μ} (first : Result E A) (next : A → Result E B) {y : B}
    → ◌≡◌ {A = Result E B} (first >>= next) (ok y)
    → (x : A) × (first ≡ ok x) × (next x ≡ ok y)
>>=-eq-ok panic next stopped = cc
>>=-eq-ok (err e) next stopped = cc
>>=-eq-ok (ok x) next returned = (x, refl, returned)

pub map_err-eq-ok {ℓ κ μ} :
    {E : Type ℓ} {F : Type κ} {A : Type μ} (f : E → F) (m : Result E A) {a : A}
    → map_err f m ≡ ok a
    → m ≡ ok a
map_err-eq-ok f (ok b) h = cc
map_err-eq-ok f (err e) h = cc
map_err-eq-ok f panic h = cc

pub guard_dec-yes {ℓ κ} : {E : Type ℓ} {P : Type κ} (d : Dec P) (e : E) → P → guard_dec d e ≡ ok tt
guard_dec-yes (yes p) e q = refl
guard_dec-yes (no n) e q = absurd (n q)

pub guard_dec-ok {ℓ κ} : {E : Type ℓ} {P : Type κ} (d : Dec P) (e : E) → guard_dec d e ≡ ok tt → P
guard_dec-ok (yes p) e q = p
guard_dec-ok (no n) e q = absurd (cc q)

pub ok_injective {ℓ κ} :
    {E : Type ℓ} {A : Type κ} {x y : A} → ◌≡◌ {A = Result E A} (ok x) (ok y) → x ≡ y
ok_injective h = cc

pub ok_or-ok {ℓ κ} :
    {E : Type ℓ} {A : Type κ} (o : Option A) (e : E) {x : A} → ok_or o e ≡ ok x → o ≡ some x
ok_or-ok none e p = absurd (cc p)
ok_or-ok (some y) e p = cc p

pub unwrap-ok {ℓ κ} :
    {E : Type ℓ} {A : Type κ} (o : Option A) {x : A}
    → ◌≡◌ {A = Result E A} (unwrap o) (ok x)
    → o ≡ some x
unwrap-ok none p = absurd (cc p)
unwrap-ok (some y) p = cc p

pub guard-ok {ℓ} : {E : Type ℓ} (b : Bool) (e : E) → guard b e ≡ ok tt → b ≡ true
guard-ok false e h = cc h
guard-ok true e h = refl
