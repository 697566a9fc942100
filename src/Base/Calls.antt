-- ===== src/Base/Calls.antt =====
-- A Go call that returns `(value, error)`. A call that works on the database also threads its state,
-- which comes back beside an error too.
use Prim.Native.Nat.{ℕ}
use Prim.Native.String.{String}
use mathlib.Core.Path.{◌≡◌, refl, ap}
use mathlib.Core.Logic.{◌⊎◌, inl, inr}
use mathlib.Core.Bool.{Bool, true, false}

-- `knowledge.Error`
pub record Error : Type 0 where
  pub code : String
  pub message : String
  pub status : ℕ

-- `api` is an `*Error`; `other` is any other error value, with its text.
pub data Failure : Type 0 where
  api : Error → Failure
  other : String → Failure

pub data Result {ℓ} (A : Type ℓ) : Type ℓ where
  ok : A → Result A
  err : Failure → Result A

pub Result-cases {ℓ} :
    {A : Type ℓ} (r : Result A) → ((a : A) × (r ≡ ok a)) ⊎ ((e : Failure) × (r ≡ err e))
Result-cases (ok a) = inl (a, refl)
Result-cases (err e) = inr (e, refl)

-- `Invalid`, `NotFound` and `Conflict` of errors.go
abbrev pub invalid : String → Failure
invalid m = api (record { code = "invalid_request"; message = m; status = 400 })

abbrev pub not_found : String → Failure
not_found m = api (record { code = "not_found"; message = m; status = 404 })

abbrev pub conflict : String → Failure
conflict m = api (record { code = "conflict"; message = m; status = 409 })

abbrev pub Action : Type 0 → Type 0 → Type 0
Action S A = S → Result A × S

module _ {S A : Type 0} where
  abbrev pub pure : A → Action S A
  pure a s = (ok a, s)

  abbrev pub raise : Failure → Action S A
  raise e s = (err e, s)

  abbrev pub lift : Result A → Action S A
  lift r s = (r, s)

module _ {S A B : Type 0} where
  -- A success goes on from its state, an error is passed on.
  abbrev continue : Result A × S → (A → Action S B) → Result B × S
  continue (ok a, s) f = f a s
  continue (err e, s) f = (err e, s)

  infixl 5 ◌>>=◌ ◌>>◌
  unfoldable pub ◌>>=◌ : Action S A → (A → Action S B) → Action S B
  ◌>>=◌ m f s = continue (m s) f

  abbrev pub ◌>>◌ : Action S A → Action S B → Action S B
  m >> k = m >>= λ _. k

  pub bind_ok :
      (m : Action S A) (f : A → Action S B) {a : A} {s s' : S}
      → m s ≡ (ok a, s')
      → (m >>= f) s ≡ f a s'
  unfolding ◌>>=◌
  bind_ok m f e = ap (λ p. continue p f) e

  pub bind_err :
      (m : Action S A) (f : A → Action S B) {e : Failure} {s s' : S}
      → m s ≡ (err e, s')
      → (m >>= f) s ≡ (err e, s')
  unfolding ◌>>=◌
  bind_err m f e = ap (λ p. continue p f) e

-- `if bad { return v, err }`
unfoldable pub reject_if : {S : Type 0} → Bool → Failure → Action S (Unit {0})
reject_if true e s = (err e, s)
reject_if false e s = (ok tt, s)
