-- ===== src/Base/Results.antt =====
-- Results with an error, and programs that run in a world and may fail.
use mathlib.Core.Path.{◌≡◌, refl}
use mathlib.Core.Option.{Option, none, some}

-- Go's `(value, error)`: the value is read only where the error is nil.
pub data Result (E A : Type 0) : Type 0 where
  ok : A → Result E A
  err : E → Result E A

-- A program that reads and changes a world `W`.
abbrev pub Prog : Type 0 → Type 0 → Type 0 → Type 0
Prog W E A = W → Result E A × W

abbrev pub bind_result : {W E A B : Type 0} → Result E A × W → (A → Prog W E B) → Result E B × W
bind_result (ok a, w) f = f a w
bind_result (err e, w) f = (err e, w)

infixl 5 ◌>>=◌ ◌>>◌
abbrev pub ◌>>=◌ : {W E A B : Type 0} → Prog W E A → (A → Prog W E B) → Prog W E B
◌>>=◌ m f w = bind_result (m w) f

abbrev pub ◌>>◌ : {W E A B : Type 0} → Prog W E A → Prog W E B → Prog W E B
m >> k = m >>= λ _. k

abbrev pub pure : {W E A : Type 0} → A → Prog W E A
pure a w = (ok a, w)

abbrev pub throw : {W E A : Type 0} → E → Prog W E A
throw e w = (err e, w)

-- A computed result, as a program that leaves the world alone.
abbrev pub lift : {W E A : Type 0} → Result E A → Prog W E A
lift r w = (r, w)

-- A value that may be missing, as a result.
abbrev pub or_else : {E A : Type 0} → Option A → E → Result E A
or_else none e = err e
or_else (some a) e = ok a

-- Inversion of a chain that succeeds, and of one that fails.
pub bind_result-ok :
    {W E A B : Type 0} (p : Result E A × W) (f : A → Prog W E B) {b : B} {w : W}
    → bind_result p f ≡ (ok b, w)
    → (a : A) × (w' : W) × (p ≡ (ok a, w')) × (f a w' ≡ (ok b, w))
bind_result-ok (ok a, w') f h = (a, w', refl, h)
bind_result-ok (err e, w') f h = cc

-- A chain does not fail with an error that neither part fails with.
pub bind_result-ne-err :
    {W E A B : Type 0} (p : Result E A × W) (f : A → Prog W E B) (e : E)
    → (p.0 ≡ err e → ⊥)
    → ((a : A) (w : W) → (f a w).0 ≡ err e → ⊥)
    → (bind_result p f).0 ≡ err e
    → ⊥
bind_result-ne-err (ok a, w) f e hp hf h = hf a w h
bind_result-ne-err (err e', w) f e hp hf h = hp (cc)

-- What both parts of a chain keep of the world, the chain keeps.
pub bind_result_keeps :
    {W E A B : Type 0} (P : W → Type 0) (p : Result E A × W) (f : A → Prog W E B)
    → P p.1
    → ((a : A) (w : W) → P w → P (f a w).1)
    → P (bind_result p f).1
bind_result_keeps P (ok a, w) f hp hf = hf a w hp
bind_result_keeps P (err e, w) f hp hf = hp

-- A claim on a chain, from the two ways in which its first part can end.
pub bind_result_cases :
    {W E A B : Type 0} (Q : Result E B × W → Type 0) (p : Result E A × W) (f : A → Prog W E B)
    → ((e : E) (w : W) → p ≡ (err e, w) → Q (err e, w))
    → ((a : A) (w : W) → p ≡ (ok a, w) → Q (f a w))
    → Q (bind_result p f)
bind_result_cases Q (ok a, w) f on_err on_ok = on_ok a w refl
bind_result_cases Q (err e, w) f on_err on_ok = on_err e w refl
