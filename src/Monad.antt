-- ===== src/Monad.antt =====
-- Code that talks to the outside: the state of the outside goes through, and the first error ends the
-- chain, as `?` does.
use rust_basics.Prelude.{◌≡◌, ◌⊎◌, inl, inr, String, Result, Result-cases, ok, err}

abbrev pub M : Type 0 → Type 0 → Type 0
M S A = S → S × Result String A

module _ {S : Type 0} where
  abbrev pub return : {A : Type 0} → A → M S A
  return a s = (s, ok a)

  abbrev pub lift : {A : Type 0} → Result String A → M S A
  lift e s = (s, e)

  infixl 5 ◌>>=◌ ◌>>◌
  abbrev pub ◌>>=◌ : {A B : Type 0} → M S A → (A → M S B) → M S B
  ◌>>=◌ m f s = elim (m s).1 [ ok x ↦ f x (m s).0 | err e ↦ ((m s).0, err e) ]

  abbrev pub ◌>>◌ : {A B : Type 0} → M S A → M S B → M S B
  m >> k = m >>= λ _. k

  -- A chain that succeeds is two parts that succeed, the second from where the first ended.
  pub >>=-ok :
      {A B : Type 0} (m : M S A) (f : A → M S B) (s : S) {b : B}
      → ((m >>= f) s).1 ≡ ok b
      → (a : A) × ((m s).1 ≡ ok a) × ((f a (m s).0).1 ≡ ok b) × ((m >>= f) s ≡ f a (m s).0)
  >>=-ok m f s {b} h = elim (Result-cases (m s).1) [
    | inl (a, e) ↦ (a, e, rw (e, ◌>>=◌) at h, rw (e, ◌>>=◌))
    | inr (x, e) ↦ absurd (failed x (rw (e, ◌>>=◌) at h))
  ]
    where
      failed : (x : String) → ◌≡◌ {A = Result String _} (err x) (ok b) → ⊥
      failed x q = cc

  -- A chain goes on from where its first part succeeded, or ends where and how that failed.
  pub >>=-cases :
      {A B : Type 0} (m : M S A) (f : A → M S B) (s : S)
      → ((a : A) × ((m s).1 ≡ ok a) × ((m >>= f) s ≡ f a (m s).0))
        ⊎ ((e : String) × ((m s).1 ≡ err e) × ((m >>= f) s ≡ ((m s).0, err e)))
  >>=-cases m f s = elim (Result-cases (m s).1) [
    | inl (a, e) ↦ inl (a, e, rw (e, ◌>>=◌))
    | inr (x, e) ↦ inr (x, e, rw (e, ◌>>=◌))
  ]
