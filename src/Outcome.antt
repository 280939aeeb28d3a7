-- ===== src/Outcome.antt =====
-- What a Go function that returns `(A, error)` does: it returns a value, it returns an error, or it
-- panics (an index out of range, a comparison of uncomparable values).
use go_core_mcp.Prelude.{◌⊎◌, inl, inr, ◌≡◌, ◌≢◌, ◌↔◌, refl, Bool, true, false}

pub data Outcome (E A : Type 0) : Type 0 where
  ok : A → Outcome E A
  err : E → Outcome E A
  panic : Outcome E A

infixl 5 ◌>>=◌ ◌>>◌
abbrev pub ◌>>=◌ : {E A B : Type 0} → Outcome E A → (A → Outcome E B) → Outcome E B
ok a >>= f = f a
err e >>= f = err e
panic >>= f = panic

abbrev pub ◌>>◌ : {E A B : Type 0} → Outcome E A → Outcome E B → Outcome E B
m >> k = m >>= λ _. k

-- `if test { return err }` in front of what follows
abbrev pub reject_if : {E : Type 0} → Bool → E → Outcome E (Unit {0})
reject_if true e = err e
reject_if false e = ok tt

-- The errors of a callee, seen through a conversion.
abbrev pub map_err : {E F A : Type 0} → (E → F) → Outcome E A → Outcome F A
map_err f (ok a) = ok a
map_err f (err e) = err (f e)
map_err f panic = panic

-- A chain that returns a value got one from its first part.
pub >>=-eq-ok :
    {E A B : Type 0} (first : Outcome E A) (next : A → Outcome E B) {result : B}
    → (first >>= next) ≡ ok result
    → (x : A) × (first ≡ ok x) × (next x ≡ ok result)
>>=-eq-ok panic next e = cc
>>=-eq-ok (err failure) next e = cc
>>=-eq-ok (ok x) next e = (x, refl, e)

pub ok-ne-panic : {E A : Type 0} (a : A) → ◌≢◌ {A = Outcome E A} (ok a) panic
ok-ne-panic a h = cc

pub >>=-ne-panic :
    {E A B : Type 0} (m : Outcome E A) (f : A → Outcome E B)
    → m ≢ panic
    → ((a : A) → f a ≢ panic)
    → (m >>= f) ≢ panic
>>=-ne-panic (ok a) f hm hf h = hf a h
>>=-ne-panic (err e) f hm hf h = cc
>>=-ne-panic panic f hm hf h = hm refl

pub map_err-ne-panic :
    {E F A : Type 0} (f : E → F) (m : Outcome E A) → m ≢ panic → map_err f m ≢ panic
map_err-ne-panic f (ok a) hm h = cc
map_err-ne-panic f (err e) hm h = cc
map_err-ne-panic f panic hm h = hm refl

pub >>-eq-ok :
    {E : Type 0} (m n : Outcome E (Unit {0})) → ((m >> n) ≡ ok tt) ↔ ((m ≡ ok tt) × (n ≡ ok tt))
>>-eq-ok (ok tt) n = ((λ h. (refl, h)), λ h. h.1)
>>-eq-ok (err e) n = ((λ h. cc), λ h. h.0)
>>-eq-ok panic n = ((λ h. cc), λ h. h.0)

pub reject_if-eq-ok : {E : Type 0} (b : Bool) (e : E) → (reject_if b e ≡ ok tt) ↔ (b ≡ false)
reject_if-eq-ok true e = ((λ h. cc), λ h. cc)
reject_if-eq-ok false e = ((λ h. refl), λ h. refl)

pub ok_inj : {E A : Type 0} {a b : A} → ◌≡◌ {A = Outcome E A} (ok a) (ok b) → a ≡ b
ok_inj h = cc

pub Outcome-cases :
    {E A : Type 0} (r : Outcome E A)
    → ((a : A) × (r ≡ ok a)) ⊎ (((e : E) × (r ≡ err e)) ⊎ (r ≡ panic))
Outcome-cases (ok a) = inl (a, refl)
Outcome-cases (err e) = inr (inl (e, refl))
Outcome-cases panic = inr (inr refl)
