-- ===== src/Prelude/Results.antt =====
-- What a C function of the library gives back. `err` is a negative errno value; `fault` is no C
-- value: the run has read or written outside an array, a signed sum has overflowed, or a
-- division has had the divisor 0.
use Prim.Native.Nat.{ℕ, ◌≤◌}
use mathlib.Core.Logic.{◌⊎◌, inl, inr}
use mathlib.Core.Path.{◌≡◌, refl, ap}
use mathlib.Core.Bool.{Bool, true}
use libmp.Prelude.Tests.{if◌then◌else◌, leb}
use native.Mathlib.Omega.{arith}

pub data Errno : Type 0 where
  einval enoent enomem eproto eoverflow enobufs enodata enospc eio enosys eexist : Errno
  -- the value of `errno` after a system call that failed
  system : ℕ → Errno

pub data Res {ℓ} (A : Type ℓ) : Type ℓ where
  ok : A → Res A
  err : Errno → Res A
  fault : Res A

pub ok_eq {ℓ} : {A : Type ℓ} {a b : A} → ok a ≡ ok b → a ≡ b
ok_eq e = cc

pub Res-cases {ℓ} :
    {A : Type ℓ} (r : Res A) → ((a : A) × (r ≡ ok a)) ⊎ (((e : Errno) × (r ≡ err e)) ⊎ (r ≡ fault))
Res-cases (ok a) = inl (a, refl)
Res-cases (err e) = inr (inl (e, refl))
Res-cases fault = inr (inr refl)

infixl 5 ◌>>=◌ ◌>>◌
-- To go on with the value of a call that has succeeded.
abbrev pub ◌>>=◌ {ℓ κ} : {A : Type ℓ} {B : Type κ} → Res A → (A → Res B) → Res B
fault >>= next = fault
err e >>= next = err e
ok a >>= next = next a

-- ULOG_ERRNO_RETURN_ERR_IF, with the test that the code may go on.
abbrev pub guard : Bool → Errno → Res (Unit {0})
guard may_go_on e = if may_go_on then ok tt else err e

-- The same for a call whose value is of no use.
abbrev pub ◌>>◌ {ℓ} : {B : Type ℓ} → Res (Unit {0}) → Res B → Res B
call >> next = call >>= λ done. next

-- A sequence that has succeeded is one whose parts have.
pub >>=-eq-ok {ℓ κ} :
    {A : Type ℓ} {B : Type κ} (call : Res A) (next : A → Res B) {b : B}
    → (call >>= next) ≡ ok b
    → (a : A) × (call ≡ ok a) × (next a ≡ ok b)
>>=-eq-ok fault next e = cc
>>=-eq-ok (err errno) next e = cc
>>=-eq-ok (ok a) next e = (a, refl, e)

-- To go on after a call that gives a value.
pub bind-ok {ℓ κ} :
    {A : Type ℓ} {B : Type κ} {call : Res A} {a : A} (next : A → Res B)
    → call ≡ ok a
    → (call >>= next) ≡ next a
bind-ok next e = ap (λ r. r >>= next) e

pub bind-err {ℓ κ} :
    {A : Type ℓ} {B : Type κ} {call : Res A} {e : Errno} (next : A → Res B)
    → call ≡ err e
    → (call >>= next) ≡ err e
bind-err next h = ap (λ r. r >>= next) h

pub guard-yes {ℓ} :
    {B : Type ℓ} {b : Bool} (e : Errno) (next : Unit {0} → Res B)
    → b ≡ true
    → (guard b e >>= next) ≡ next tt
guard-yes e next h = ap (λ b. guard b e >>= next) h

pub guard-leb {ℓ} :
    {B : Type ℓ} (m n : ℕ) (e : Errno) (next : Unit {0} → Res B)
    → m ≤ n
    → (guard (leb m n) e >>= next) ≡ next tt
guard-leb m n e next h = guard-yes e next (ground arith)

pub >>=-assoc {ℓ κ μ} :
    {A : Type ℓ} {B : Type κ} {C : Type μ} (r : Res A) (f : A → Res B) (g : B → Res C)
    → ((r >>= f) >>= g) ≡ (r >>= λ a. f a >>= g)
>>=-assoc fault f g = refl
>>=-assoc (err e) f g = refl
>>=-assoc (ok a) f g = refl
