-- ===== src/J2rpc/Reflect/Effect.antt =====
-- Code that may fail or panic, and that may write to the response meanwhile. What was written
-- stays written.
use gof.Base.{◌≡◌, refl, Text}
use gof.J2rpc.Error.{Outcome, ok, err, panic}
use gof.J2rpc.Http.{Writer}

abbrev pub Effect : Type 0 → Type 0
Effect A = Writer → Outcome A × Writer

abbrev pub pure : {A : Type 0} → A → Effect A
pure a w = (ok a, w)

abbrev pub lift : {A : Type 0} → Outcome A → Effect A
lift r w = (r, w)

abbrev pub continue : {A B : Type 0} → Outcome A → (A → Effect B) → Effect B
continue (ok a) f w = f a w
continue (err e) f w = (err e, w)
continue (panic p) f w = (panic p, w)

infixl 5 ◌>>=◌
abbrev pub ◌>>=◌ : {A B : Type 0} → Effect A → (A → Effect B) → Effect B
◌>>=◌ m f w = let (r, w') = m w in continue r f w'

-- `defer func() { if p := recover(); p != nil { … } }()`
abbrev pub rescued : {A : Type 0} → (Text → Outcome A) → Outcome A → Outcome A
rescued h (ok a) = ok a
rescued h (err e) = err e
rescued h (panic p) = h p

abbrev pub recover : {A : Type 0} → (Text → Outcome A) → Effect A → Effect A
recover h m w = let (r, w') = m w in (rescued h r, w')

-- Laws, for each state of the response.
continue_assoc :
    {A B C : Type 0} (r : Outcome A) (f : A → Effect B) (g : B → Effect C) (w : Writer)
    → (let (q, v) = continue r f w in continue q g v) ≡ continue r (λ a. f a >>= g) w
continue_assoc (ok a) f g w = refl
continue_assoc (err e) f g w = refl
continue_assoc (panic p) f g w = refl

pub bind_assoc :
    {A B C : Type 0} (m : Effect A) (f : A → Effect B) (g : B → Effect C) (w : Writer)
    → ((m >>= f) >>= g) w ≡ (m >>= λ a. f a >>= g) w
bind_assoc m f g w = continue_assoc (m w).0 f g (m w).1

continue_cong :
    {A B : Type 0} (r : Outcome A) (f g : A → Effect B) (w : Writer)
    → ((a : A) (v : Writer) → f a v ≡ g a v)
    → continue r f w ≡ continue r g w
continue_cong (ok a) f g w h = h a w
continue_cong (err e) f g w h = refl
continue_cong (panic p) f g w h = refl

pub bind_cong :
    {A B : Type 0} (m : Effect A) (f g : A → Effect B) (w : Writer)
    → ((a : A) (v : Writer) → f a v ≡ g a v)
    → (m >>= f) w ≡ (m >>= g) w
bind_cong m f g w h = continue_cong (m w).0 f g (m w).1 h
