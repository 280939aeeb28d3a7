-- ===== src/Exec.antt =====
-- Go functions that change a state and may fail: what was changed before an error stays changed, so
-- the state comes back with the error too.
use go_core_mcp.Prelude.{◌≡◌, refl}
use go_core_mcp.Outcome.{Outcome, ok, err, panic}

abbrev pub Exec : Type 0 → Type 0 → Type 0 → Type 0
Exec S E A = S → Outcome E A × S

abbrev pub continue : {S E A B : Type 0} → Outcome E A → (A → Exec S E B) → Exec S E B
continue (ok a) f s = f a s
continue (err e) f s = (err e, s)
continue panic f s = (panic, s)

abbrev pub pure : {S E A : Type 0} → A → Exec S E A
pure a s = (ok a, s)

abbrev pub raise : {S E A : Type 0} → E → Exec S E A
raise e s = (err e, s)

abbrev pub lift : {S E A : Type 0} → Outcome E A → Exec S E A
lift r s = (r, s)

abbrev pub modify : {S E : Type 0} → (S → S) → Exec S E (Unit {0})
modify f s = (ok tt, f s)

infixl 5 ◌>>=◌ ◌>>◌
unfoldable pub ◌>>=◌ : {S E A B : Type 0} → Exec S E A → (A → Exec S E B) → Exec S E B
◌>>=◌ m f s = let (r, s') = m s in continue r f s'

abbrev pub ◌>>◌ : {S E A B : Type 0} → Exec S E A → Exec S E B → Exec S E B
m >> n = m >>= λ _. n

module _ {S E A B : Type 0} (P : S → Type 0) where
  continue-keeps :
      (r : Outcome E A) (f : A → Exec S E B) (s : S)
      → P s
      → ((a : A) (s : S) → P s → P (f a s).1)
      → P (continue r f s).1
  continue-keeps (ok a) f s h k = k a s h
  continue-keeps (err e) f s h k = h
  continue-keeps panic f s h k = h

  -- What each part of a run keeps, whether it succeeds or fails, the whole keeps.
  pub >>=-keeps :
      (m : Exec S E A) (f : A → Exec S E B) (s : S)
      → P (m s).1
      → ((a : A) (s : S) → P s → P (f a s).1)
      → P ((m >>= f) s).1
  unfolding ◌>>=◌
  >>=-keeps m f s h k = let (r, s') = m s in continue-keeps r f s' h k

module _ {S E A B : Type 0} (m : Exec S E A) (f : A → Exec S E B) (s : S) where
  -- The state after a chain: that after its first part, or that after the rest.
  pub >>=-ends : (P : S → Type 0) → P (m s).1 → ((a : A) → P (f a (m s).1).1) → P ((m >>= f) s).1
  unfolding ◌>>=◌
  >>=-ends P h k = ends (m s).0 (m s).1 h k
    where
      ends : (r : Outcome E A) (t : S) → P t → ((a : A) → P (f a t).1) → P (continue r f t).1
      ends (ok a) t h k = k a
      ends (err e) t h k = h
      ends panic t h k = h

  -- A chain that succeeds has a first part that does.
  pub >>=-succeeds :
      {b : B} → ((m >>= f) s).0 ≡ ok b → (a : A) × ((m s).0 ≡ ok a) × ((f a (m s).1).0 ≡ ok b)
  unfolding ◌>>=◌
  >>=-succeeds {b} h = first (m s).0 (m s).1 h
    where
      first :
          (r : Outcome E A) (t : S)
          → (continue r f t).0 ≡ ok b
          → (a : A) × (r ≡ ok a) × ((f a t).0 ≡ ok b)
      first (ok a) t h = (a, refl, h)
      first (err e) t h = cc
      first panic t h = cc
