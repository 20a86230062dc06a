-- ===== src/Cloud/Api.antt =====
-- crates/syspilot-cloud/src/lib.rs: `ApiError` without its texts, and the results that carry it.
use mathlib.Core.Path.{◌≡◌, refl, ap}
use native.Mathlib.Omega.{arith}
use system_pilot.Base.{Option, none, some}

pub data ApiError : Type 0 where
  unauthorized invalid saturated database : ApiError

pub data ApiResult {ℓ} (A : Type ℓ) : Type ℓ where
  ok : A → ApiResult A
  err : ApiError → ApiResult A

-- The `?` operator.
infixl 5 ◌>>=◌ ◌>>◌
abbrev pub ◌>>=◌ {ℓ κ} : {A : Type ℓ} {B : Type κ} → ApiResult A → (A → ApiResult B) → ApiResult B
ok a >>= f = f a
err e >>= f = err e

abbrev pub ◌>>◌ {ℓ κ} : {A : Type ℓ} {B : Type κ} → ApiResult A → ApiResult B → ApiResult B
m >> k = m >>= λ _. k

pub >>=-ok {ℓ κ} :
    {A : Type ℓ} {B : Type κ} (m : ApiResult A) (f : A → ApiResult B) (b : B)
    → (m >>= f) ≡ ok b
    → (a : A) × (m ≡ ok a) × (f a ≡ ok b)
>>=-ok (ok a) f b h = (a, refl, h)
>>=-ok (err e) f b h = ground arith

-- `ok_or_else`.
abbrev pub ok_or {ℓ} : {A : Type ℓ} → ApiError → Option A → ApiResult A
ok_or e none = err e
ok_or e (some a) = ok a

abbrev or_default {ℓ} : {A : Type ℓ} → A → ApiResult A → A
or_default d (ok a) = a
or_default d (err e) = d

pub ok_injective {ℓ} : {A : Type ℓ} (a b : A) → ok a ≡ ok b → a ≡ b
ok_injective a b h = ap (or_default a) h
