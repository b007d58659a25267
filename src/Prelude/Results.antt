-- ===== src/Prelude/Results.antt =====
-- Go's results with an error, and actions that change a state and may fail.
use mathlib.Core.Path.{◌≡◌, refl}
use mathlib.Core.Logic.{◌⊎◌, inl, inr}
use mathlib.Core.Option.{Option, none, some}
use mathlib.Core.Bool.{Bool, true, false}
use mathlib.Core.List.{List, [], ◌∷◌}
use yggsync.Prelude.Equality.{Text, if◌then◌else◌}

-- The errors that the code tells apart; any other is its message.
pub data Error : Type 0 where
  not_exist : Error
  root_missing : Error
  locked : Error
  failed : Text → Error

pub data Result {ℓ} (A : Type ℓ) : Type ℓ where
  ok : A → Result A
  err : Error → Result A

abbrev pub Done : Type 0
Done = Result (Unit {0})

abbrev pub done : Done
done = ok tt

abbrev pub then_result {ℓ κ} : {A : Type ℓ} {B : Type κ} → Result A → (A → Result B) → Result B
then_result (ok a) f = f a
then_result (err e) f = err e

-- An action on a state: a failing action may have changed the state before it failed.
abbrev pub Action : Type 0 → Type 0 → Type 0
Action S A = S → Result A × S

module _ {S : Type 0} where
  abbrev pub pure : {A : Type 0} → A → Action S A
  pure a s = (ok a, s)

  abbrev pub fail : {A : Type 0} → Error → Action S A
  fail e s = (err e, s)

  -- The rest of an action, after a part of it.
  abbrev pub resume : {A B : Type 0} → Result A × S → (A → Action S B) → Result B × S
  resume (ok a, s) f = f a s
  resume (err e, s) f = (err e, s)

  infixl 5 ◌>>=◌ ◌>>◌
  abbrev pub ◌>>=◌ : {A B : Type 0} → Action S A → (A → Action S B) → Action S B
  ◌>>=◌ m f s = resume (m s) f

  abbrev pub ◌>>◌ : {A B : Type 0} → Action S A → Action S B → Action S B
  ◌>>◌ m k s = resume (m s) (λ _. k)

  -- `_ = action`: an error is dropped.
  abbrev pub ignore : {A : Type 0} → Action S A → Action S (Unit {0})
  ignore m s = (done, (m s).1)

abbrev pub unless_missing : Done → Done
unless_missing (ok a) = ok a
unless_missing (err not_exist) = done
unless_missing (err e) = err e

-- `if os.IsNotExist(err) { return nil }`
abbrev pub ignore_missing : {S : Type 0} → Action S (Unit {0}) → Action S (Unit {0})
ignore_missing m s = (unless_missing (m s).0, (m s).1)

abbrev closed {ℓ} : {S : Type ℓ} → Done × S → (S → Done × S) → Done × S
closed (ok _, s) close = close s
closed (err e, s) close = (err e, (close s).1)

-- A write, and then the file is closed: after a write that failed, whatever that gives.
abbrev pub then_closes {ℓ} : {S : Type ℓ} → (S → Done × S) → (S → Done × S) → S → Done × S
then_closes write close s = closed (write s) close

-- A loop over paths that ends at the first error.
unfoldable pub for_each :
    {S : Type 0} → (Text → Action S (Unit {0})) → List Text → Action S (Unit {0})
for_each f [] s = (done, s)
for_each f (p ∷ ps) s = resume (f p s) (λ _. for_each f ps)

-- `if x, ok := …; ok { … } else { … }`
abbrev pub if_some : {S A X : Type 0} → Option X → (X → Action S A) → Action S A → Action S A
if_some none f y = y
if_some (some x) f y = f x

pub if_some-cases :
    {S A X : Type 0} (o : Option X) (f : X → Action S A) (y : Action S A) (s : S) {r : Result A × S}
    → if_some o f y s ≡ r
    → ((o ≡ none) × (y s ≡ r)) ⊎ ((x : X) × (o ≡ some x) × (f x s ≡ r))
if_some-cases none f y s h = inl (refl, h)
if_some-cases (some x) f y s h = inr (x, refl, h)

pub Result-cases {ℓ} :
    {A : Type ℓ} (r : Result A) → ((a : A) × (r ≡ ok a)) ⊎ ((e : Error) × (r ≡ err e))
Result-cases (ok a) = inl (a, refl)
Result-cases (err e) = inr (e, refl)

-- An action that succeeds is a part that succeeds and a rest that does.
pub resume-ok :
    {S A B : Type 0} (r : Result A × S) (f : A → Action S B) {b : B} {t : S}
    → resume r f ≡ (ok b, t)
    → (a : A) × (s : S) × (r ≡ (ok a, s)) × (f a s ≡ (ok b, t))
resume-ok (ok a, s) f h = (a, s, refl, h)
resume-ok (err e, s) f h = cc

-- The same where the part only reads.
pub resume-read :
    {S A B : Type 0} (r : Result A) (s : S) (f : A → Action S B) {b : B} {t : S}
    → resume (r, s) f ≡ (ok b, t)
    → (a : A) × (r ≡ ok a) × (f a s ≡ (ok b, t))
resume-read (ok a) s f h = (a, refl, h)
resume-read (err e) s f h = cc

-- The branch that an action under a test has taken.
pub branch :
    {S A : Type 0} (b : Bool) (x y : Action S A) (s : S) {r : Result A × S}
    → (if b then x else y) s ≡ r
    → ((b ≡ true) × (x s ≡ r)) ⊎ ((b ≡ false) × (y s ≡ r))
branch true x y s h = inl (refl, h)
branch false x y s h = inr (refl, h)

-- What a part establishes, and the rest keeps, holds after both, whether or not they succeed.
pub resume-keeps :
    {S A B : Type 0} (P : S → Type 0) (m : Result A × S) (f : A → Action S B)
    → P m.1
    → ((a : A) (s : S) → P s → P (f a s).1)
    → P (resume m f).1
resume-keeps P (ok a, s) f h k = k a s h
resume-keeps P (err e, s) f h k = h
