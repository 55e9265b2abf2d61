-- ===== src/Prelude/Exec.antt =====
-- Methods that change an object and may return an error, panic, or block for good. What was written
-- before an error stays written, so the state comes back beside the error too.
use Prim.Native.String.{String}
use mathlib.Core.Path.{◌≡◌, ap}
use kubesim.Prelude.Text.{Error, wrapped}

pub data Outcome (S A : Type 0) : Type 0 where
  done : A → S → Outcome S A
  fails : Error → S → Outcome S A
  panics : Outcome S A
  blocks : Outcome S A

abbrev pub Exec : Type 0 → Type 0 → Type 0
Exec S A = S → Outcome S A

module _ {S A B : Type 0} where
  abbrev pub then_do : Outcome S A → (A → Exec S B) → Outcome S B
  then_do (done a s) f = f a s
  then_do (fails e s) f = fails e s
  then_do panics f = panics
  then_do blocks f = blocks

  infixl 10 ◌>>=◌ ◌>>◌
  abbrev pub ◌>>=◌ : Exec S A → (A → Exec S B) → Exec S B
  ◌>>=◌ m f s = then_do (m s) f

  abbrev pub ◌>>◌ : Exec S A → Exec S B → Exec S B
  m >> n = m >>= λ _. n

module _ {S A : Type 0} where
  abbrev pub pure : A → Exec S A
  pure a s = done a s

  abbrev pub raise : Error → Exec S A
  raise e s = fails e s

  abbrev pub gets : (S → A) → Exec S A
  gets f s = done (f s) s

  abbrev pub crash : Exec S A
  crash s = panics

  abbrev pub rewrap : String → Outcome S A → Outcome S A
  rewrap m (done a s) = done a s
  rewrap m (fails e s) = fails (wrapped m e) s
  rewrap m panics = panics
  rewrap m blocks = blocks

  -- `if err != nil { return fmt.Errorf(m + ": %v", err) }`
  abbrev pub wrap : String → Exec S A → Exec S A
  wrap m x s = rewrap m (x s)

  abbrev pub forget : Outcome S A → Outcome S Unit
  forget (done a s) = done tt s
  forget (fails e s) = done tt s
  forget panics = panics
  forget blocks = blocks

  -- A call whose results the caller drops, the error included.
  abbrev pub ignore : Exec S A → Exec S Unit
  ignore x s = forget (x s)

abbrev pub modify : {S : Type 0} → (S → S) → Exec S Unit
modify f s = done tt (f s)

-- What holds of a result, if one is returned.
abbrev pub Returns : {S A : Type 0} → (A → S → Type 0) → Outcome S A → Type 0
Returns P (done a s) = P a s
Returns P (fails e s) = Unit
Returns P panics = Unit
Returns P blocks = Unit

module _ {S A B : Type 0} where
  -- The rule for a bind whose first part may be anything.
  pub then_do-Returns :
      (P : B → S → Type 0) (o : Outcome S A) (f : A → Exec S B)
      → ((a : A) (s : S) → Returns P (f a s))
      → Returns P (then_do o f)
  then_do-Returns P (done a s) f h = h a s
  then_do-Returns P (fails e s) f h = tt
  then_do-Returns P panics f h = tt
  then_do-Returns P blocks f h = tt

  -- What follows a call that returns.
  pub then_do-done :
      {o : Outcome S A} {a : A} {s : S} (f : A → Exec S B) → o ≡ done a s → then_do o f ≡ f a s
  then_do-done f e = ap (λ x. then_do x f) e
