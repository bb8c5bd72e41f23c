-- ===== src/Common/Results.antt =====
-- C++ exceptions as values.
use mathlib.Core.Path.{◌≡◌, refl, ap, ◌∙◌}
use mathlib.Core.Bool.{Bool, true, false}
use sponge_2021fall.Common.Tests.{if◌then◌else◌}

pub data Exception : Type 0 where
  runtime_error out_of_range : Exception

pub data Result {ℓ} (A : Type ℓ) : Type ℓ where
  ok : A → Result A
  throw : Exception → Result A

infixl 5 ◌>>=◌
abbrev pub ◌>>=◌ {ℓ κ} : {A : Type ℓ} {B : Type κ} → Result A → (A → Result B) → Result B
ok a >>= f = f a
throw e >>= f = throw e

-- What holds of a result, if there is one.
abbrev pub Returns {ℓ} : {A : Type ℓ} → (A → Type 0) → Result A → Type 0
Returns P (ok x) = P x
Returns P (throw e) = Unit {0}

pub bind-Returns {ℓ κ} :
    {A : Type ℓ} {B : Type κ} (P : A → Type 0) (Q : B → Type 0) (r : Result A) (f : A → Result B)
    → Returns P r
    → ((x : A) → P x → Returns Q (f x))
    → Returns Q (r >>= f)
bind-Returns P Q (ok x) f h k = k x h
bind-Returns P Q (throw e) f h k = tt

pub map-Returns {ℓ} :
    {A : Type ℓ} (P Q : A → Type 0) (r : Result A)
    → Returns P r
    → ((x : A) → P x → Q x)
    → Returns Q r
map-Returns P Q (ok x) h k = k x h
map-Returns P Q (throw e) h k = tt

pub if-Returns {ℓ} :
    {A : Type ℓ} (P : A → Type 0) (b : Bool) (r s : Result A)
    → Returns P r
    → Returns P s
    → Returns P (if b then r else s)
if-Returns P true r s h k = h
if-Returns P false r s h k = k

pub any-Returns {ℓ} : {A : Type ℓ} (r : Result A) → Returns (λ x. Unit {0}) r
any-Returns (ok x) = tt
any-Returns (throw e) = tt

-- A result that is there, and what holds of it.
pub record Yields {ℓ} {A : Type ℓ} (P : A → Type 0) (r : Result A) : Type ℓ where
  pub result : A
  pub is_ok : r ≡ ok result
  pub holds : P result

pub ok-Yields {ℓ} : {A : Type ℓ} (P : A → Type 0) (x : A) → P x → Yields P (ok x)
ok-Yields P x h = record { result = x; is_ok = refl; holds = h }

pub bind-Yields {ℓ κ} :
    {A : Type ℓ} {B : Type κ} (P : A → Type 0) (Q : B → Type 0) (r : Result A) (f : A → Result B)
    → Yields P r
    → ((x : A) → P x → Yields Q (f x))
    → Yields Q (r >>= f)
bind-Yields P Q r f h k =
    let next = k h.result h.holds in
    record {
      result = next.result;
      is_ok = ap (λ r. r >>= f) h.is_ok ∙ next.is_ok;
      holds = next.holds;
    }

pub map-Yields {ℓ} :
    {A : Type ℓ} (P Q : A → Type 0) (r : Result A) → Yields P r → ((x : A) → P x → Q x) → Yields Q r
map-Yields P Q r h k = record { result = h.result; is_ok = h.is_ok; holds = k h.result h.holds }

pub if-Yields {ℓ} :
    {A : Type ℓ} (P : A → Type 0) (b : Bool) (r s : Result A)
    → Yields P r
    → Yields P s
    → Yields P (if b then r else s)
if-Yields P true r s h k = h
if-Yields P false r s h k = k

-- The branch that is taken.
pub else-Yields {ℓ} :
    {A : Type ℓ} (P : A → Type 0) (b : Bool) (r s : Result A)
    → b ≡ false
    → Yields P s
    → Yields P (if b then r else s)
else-Yields P b r s e h = rw (e) h

pub then-Yields {ℓ} :
    {A : Type ℓ} (P : A → Type 0) (b : Bool) (r s : Result A)
    → b ≡ true
    → Yields P r
    → Yields P (if b then r else s)
then-Yields P b r s e h = rw (e) h
