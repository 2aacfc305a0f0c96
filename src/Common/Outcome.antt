-- ===== src/Common/Outcome.antt =====
-- Rust's `Result`, with one error type for each component in place of `anyhow`'s text.
use mathlib.Core.Path.{◌≡◌, refl}
use mathlib.Core.Logic.{◌⊎◌, inl, inr}
use mathlib.Core.Bool.{Bool, true, false}
use mathlib.Core.Option.{Option, none, some}
use ptransfer_cli.Common.Tests.{if◌then◌else◌}

pub data Result {ℓ} (E : Type 0) (A : Type ℓ) : Type ℓ where
  ok : A → Result E A
  err : E → Result E A

-- `if !test { bail!(e) }`
abbrev pub ensure : {E : Type 0} → Bool → E → Result E (Unit {0})
ensure true e = ok tt
ensure false e = err e

-- `option.context(e)?`
abbrev pub or_err {ℓ} : {E : Type 0} {A : Type ℓ} → Option A → E → Result E A
or_err none e = err e
or_err (some a) e = ok a

infixl 5 ◌>>=◌ ◌>>◌
abbrev pub ◌>>=◌ {ℓ κ} :
    {E : Type 0} {A : Type ℓ} {B : Type κ} → Result E A → (A → Result E B) → Result E B
err failure >>= next = err failure
ok value >>= next = next value

abbrev pub ◌>>◌ {ℓ} : {E : Type 0} {B : Type ℓ} → Result E (Unit {0}) → Result E B → Result E B
err failure >> next = err failure
ok done >> next = next

-- What a chain that succeeded went through, where its parts do not compute.
pub >>=-ok {κ ℓ} :
    {E : Type 0} {A : Type ℓ} {B : Type κ} (first : Result E A) (next : A → Result E B) {out : B}
    → (first >>= next) ≡ ok out
    → (value : A) × (first ≡ ok value) × (next value ≡ ok out)
>>=-ok (err failure) next h = cc
>>=-ok (ok value) next h = (value, refl, h)

pub ensure-ok :
    {E : Type 0} (test : Bool) (e : E) (next : Result E (Unit {0}))
    → (ensure test e >> next) ≡ ok tt
    → (test ≡ true) × (next ≡ ok tt)
ensure-ok true e next h = (refl, h)
ensure-ok false e next h = cc

pub >>-ok {ℓ} :
    {E : Type 0} {A : Type ℓ} (first : Result E (Unit {0})) (next : Result E A) {out : A}
    → (first >> next) ≡ ok out
    → (first ≡ ok tt) × (next ≡ ok out)
>>-ok (err failure) next h = cc
>>-ok (ok done) next h = (refl, h)

pub ensure-true : {E : Type 0} (test : Bool) (e : E) → ensure test e ≡ ok tt → test ≡ true
ensure-true true e h = refl
ensure-true false e h = cc

-- A guard that was passed, before any result.
pub ensure-next {ℓ} :
    {E : Type 0} {A : Type ℓ} (test : Bool) (e : E) (next : Result E A) {out : A}
    → (ensure test e >> next) ≡ ok out
    → (test ≡ true) × (next ≡ ok out)
ensure-next true e next h = (refl, h)
ensure-next false e next h = cc

pub or_err-next {ℓ κ} :
    {E : Type 0} {A : Type ℓ} {B : Type κ} (o : Option A) (e : E) (next : A → Result E B) {out : B}
    → (or_err o e >>= next) ≡ ok out
    → (a : A) × (o ≡ some a) × (next a ≡ ok out)
or_err-next none e next h = cc
or_err-next (some a) e next h = (a, refl, h)

pub Result-cases {ℓ} :
    {E : Type 0} {A : Type ℓ} (r : Result E A) → ((a : A) × (r ≡ ok a)) ⊎ ((e : E) × (r ≡ err e))
Result-cases (ok a) = inl (a, refl)
Result-cases (err e) = inr (e, refl)

-- `result.map_err(|_| e)?`
abbrev pub with_err {ℓ} : {E F : Type 0} {A : Type ℓ} → Result E A → F → Result F A
with_err (ok a) f = ok a
with_err (err e) f = err f

pub with_err-ok {ℓ} :
    {E F : Type 0} {A : Type ℓ} (r : Result E A) (f : F) {a : A} → with_err r f ≡ ok a → r ≡ ok a
with_err-ok (ok a) f h = cc
with_err-ok (err e) f h = cc

-- `?` on an option inside a function that returns one.
abbrev pub and_then {ℓ κ} : {A : Type ℓ} {B : Type κ} → Option A → (A → Option B) → Option B
and_then none next = none
and_then (some a) next = next a

pub and_then-some {ℓ κ} :
    {A : Type ℓ} {B : Type κ} (o : Option A) (next : A → Option B) {b : B}
    → and_then o next ≡ some b
    → (a : A) × (o ≡ some a) × (next a ≡ some b)
and_then-some none next h = cc
and_then-some (some a) next h = (a, refl, h)

-- `if test { return None; }`, passed.
pub unless-some {ℓ} :
    {A : Type ℓ} (test : Bool) (o : Option A) {a : A}
    → if◌then◌else◌ test none o ≡ some a
    → (test ≡ false) × (o ≡ some a)
unless-some true o h = cc
unless-some false o h = (refl, h)

abbrev pub is_some {ℓ} : {A : Type ℓ} → Option A → Bool
is_some none = false
is_some (some a) = true

pub ok_injective {ℓ} :
    {E : Type 0} {A : Type ℓ} {a b : A} → ◌≡◌ {A = Result E A} (ok a) (ok b) → a ≡ b
ok_injective h = cc
