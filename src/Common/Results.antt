-- ===== src/Common/Results.antt =====
-- Code that may throw returns a `Result`; the text is the message of the source's `Error`.
use Prim.Native.String.{String}
use mathlib.Core.Path.{◌≡◌, refl}
use mathlib.Core.Bool.{Bool, true, false}

pub data Result {ℓ} (A : Type ℓ) : Type ℓ where
  ok : A → Result A
  throw : (message : String) → Result A

infixl 5 ◌>>=◌
abbrev pub ◌>>=◌ {ℓ κ} : {A : Type ℓ} {B : Type κ} → Result A → (A → Result B) → Result B
throw message >>= next = throw message
ok value >>= next = next value

-- A guard: `if (test) throw new Error(message);`
abbrev pub unless {ℓ} : {A : Type ℓ} → Bool → String → Result A → Result A
unless true message rest = throw message
unless false message rest = rest

module _ {ℓ} {A : Type ℓ} where
  pub ok_injective : {a b : A} → ok a ≡ ok b → a ≡ b
  ok_injective h = cc

  pub unless-ok :
      (test : Bool) (message : String) (rest : Result A) {a : A}
      → unless test message rest ≡ ok a
      → (test ≡ false) × (rest ≡ ok a)
  unless-ok true message rest h = cc
  unless-ok false message rest h = (refl, h)

  pub >>=_ok {κ} :
      {B : Type κ} (m : Result A) (next : A → Result B) {b : B}
      → m >>= next ≡ ok b
      → (a : A) × (m ≡ ok a) × (next a ≡ ok b)
  >>=_ok (throw message) next h = cc
  >>=_ok (ok a) next h = (a, refl, h)

  -- Where a step returns nothing but `a`, what follows it gets `a`.
  pub >>=_kept {κ} :
      {B : Type κ} (m : Result A) (next : A → Result B) (a : A) {b : B}
      → ((x : A) → m ≡ ok x → x ≡ a)
      → m >>= next ≡ ok b
      → (m ≡ ok a) × (next a ≡ ok b)
  >>=_kept (throw message) next a keep h = cc
  >>=_kept (ok x) next a keep h = let same : x ≡ a = keep x refl in (rw same, rw (← same) h)
