-- ===== src/System/Bind.antt =====
-- A chain of calls, once the end of its first part is known.
use agent2agent.Base.{
  ◌≡◌, refl, sym, ap, ◌∙◌, inl, inr, false, nat_eq, text_eq, Result, ok, err, is_ok, Error,
  Result-cases,
}
use agent2agent.System.{◌>>=◌, M, Trace}

pub bind-ok :
    {A B : Type 0} (m : M A) (f : A → M B) (t u : Trace) (a : A)
    → m t ≡ (ok a, u)
    → (m >>= f) t ≡ f a u
bind-ok {A} {B} m f t u a e = ap (λ (p : Result A × Trace). ◌>>=◌ (λ (_ : Trace). p) f t) e

pub bind-err :
    {A B : Type 0} (m : M A) (f : A → M B) (t u : Trace) (e : Error)
    → m t ≡ (err e, u)
    → (m >>= f) t ≡ (err e, u)
bind-err {A} {B} m f t u e h = ap (λ (p : Result A × Trace). ◌>>=◌ (λ (_ : Trace). p) f t) h

pub bind-eq-ok :
    {A B : Type 0} (m : M A) (f : A → M B) (t u : Trace) (b : B)
    → (m >>= f) t ≡ (ok b, u)
    → (a : A) × ((m t).0 ≡ ok a) × (f a (m t).1 ≡ (ok b, u))
bind-eq-ok m f t u b h = elim (Result-cases (m t).0) [
  | inl good ↦ (good.0, good.1, sym (bind-ok m f t (m t).1 good.0 (λ i. (good.1 i, (m t).1))) ∙ h)
  | inr bad ↦
      let e = bind-err m f t (m t).1 bad.0 (λ i. (bad.1 i, (m t).1)) in
      let k : ◌≡◌ {A = Result _ × Trace} (err bad.0, (m t).1) (ok b, u) = sym e ∙ h in cc
]

-- An action that fails, whatever was called before.
abbrev pub Fails : {A : Type 0} → M A → Type 0
Fails m = (t : Trace) → is_ok (m t).0 ≡ false

pub bind-Fails : {A B : Type 0} (m : M A) (f : A → M B) → ((a : A) → Fails (f a)) → Fails (m >>= f)
bind-Fails m f h t = elim (Result-cases (m t).0) [
  | inl good ↦ rw (bind-ok m f t (m t).1 good.0 (λ i. (good.1 i, (m t).1))) (h good.0 (m t).1)
  | inr bad ↦ rw (bind-err m f t (m t).1 bad.0 (λ i. (bad.1 i, (m t).1))) refl
]

-- What follows a failure is not done.
pub bind-stops :
    {A B : Type 0} (m : M A) (f : A → M B) → Fails m → (t : Trace) → ((m >>= f) t).1 ≡ (m t).1
bind-stops m f h t = elim (Result-cases (m t).0) [
  | inl good ↦ let bad = h t in cc
  | inr bad ↦ rw (bind-err m f t (m t).1 bad.0 (λ i. (bad.1 i, (m t).1))) refl
]

pub stops-Fails : {A B : Type 0} (m : M A) (f : A → M B) → Fails m → Fails (m >>= f)
stops-Fails m f h t = elim (Result-cases (m t).0) [
  | inl good ↦ let bad = h t in cc
  | inr bad ↦ rw (bind-err m f t (m t).1 bad.0 (λ i. (bad.1 i, (m t).1))) refl
]
