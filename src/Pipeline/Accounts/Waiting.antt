-- ===== src/Pipeline/Accounts/Waiting.antt =====
-- The handlers and the timers that wait in Pipeline/Accounts, and one of them taken out.
use warlib.Base.{
  ℕ, zero, suc, ◌+◌, ◌≡◌, refl, subst, inl, inr, none, some, List, [], ◌∷◌, ◌++◌, Text, arith, All,
  Option-cases,
}
use mathlib.Core.Option
use warlib.Task.{label}
use warlib.Pipeline.{Handler, exec, exec_token, shut, Timer}
use warlib.Pipeline.Thread.{take_at}
use warlib.Pipeline.Accounts.{IsLeaf, waiting, timed}

-- What may wait: tasks that do not call the pipeline, and the handler of Close.
abbrev pub IsPlainHandler : Handler → Type 0
IsPlainHandler (exec t) = IsLeaf t
IsPlainHandler (exec_token t k) = ⊥
IsPlainHandler shut = Unit

abbrev pub IsPlainTimer : Timer → Type 0
IsPlainTimer t = IsLeaf t.job × (t.token ≡ none)

pub take_at-All {ℓ} :
    {A : Type ℓ} (P : A → Type 0) (i : ℕ) (xs rest : List A) (x : A)
    → take_at i xs ≡ some (x, rest)
    → All P xs
    → P x × All P rest
take_at-All P i [] rest x e v = cc
take_at-All P zero (y ∷ xs) rest x e v =
    subst (λ (z : _ × List _). P z.0 × All P z.1) (Option.some-injective (y, xs) (x, rest) e) v
take_at-All P (suc i) (y ∷ xs) rest x e v = elim (Option-cases (take_at i xs)) [
  | inl n ↦ ground arith
  | inr ((z, zs), f) ↦
      let q : some (z, y ∷ zs) ≡ some (x, rest) = ground arith in
      let u = take_at-All P i xs zs z f v.1 in
      subst (λ (z : _ × List _). P z.0 × All P z.1) (Option.some-injective (z, y ∷ zs) (x, rest) q)
        (u.0, (v.0, u.1))
]

pub All-append {ℓ} :
    {A : Type ℓ} (P : A → Type 0) (xs : List A) (y : A) → All P xs → P y → All P (xs ++ y ∷ [])
All-append P [] y v h = (h, tt)
All-append P (x ∷ xs) y v h = (v.0, All-append P xs y v.1 h)

module _ (w : Text → ℕ) where
  abbrev pub weight_of : Handler → ℕ
  weight_of (exec t) = w (label t)
  weight_of (exec_token t k) = 0
  weight_of shut = 0

  pub waiting-append :
      (hs : List Handler) (h : Handler) → waiting w (hs ++ h ∷ []) ≡ waiting w hs + weight_of h
  waiting-append [] (exec t) = omega arith
  waiting-append [] (exec_token t k) = omega arith
  waiting-append [] shut = omega arith
  waiting-append (exec t ∷ hs) h = omega (arith, waiting-append hs h)
  waiting-append (exec_token t k ∷ hs) h = omega (arith, waiting-append hs h)
  waiting-append (shut ∷ hs) h = omega (arith, waiting-append hs h)

  waiting-cons : (h : Handler) (hs : List Handler) → waiting w (h ∷ hs) ≡ weight_of h + waiting w hs
  waiting-cons (exec t) hs = omega arith
  waiting-cons (exec_token t k) hs = omega arith
  waiting-cons shut hs = omega arith

  pub waiting-take_at :
      (i : ℕ) (hs rest : List Handler) (h : Handler)
      → take_at i hs ≡ some (h, rest)
      → waiting w hs ≡ weight_of h + waiting w rest
  waiting-take_at i [] rest h e = cc
  waiting-take_at zero (g ∷ hs) rest h e =
      subst (λ (z : Handler × List Handler). waiting w (g ∷ hs) ≡ weight_of z.0 + waiting w z.1)
        (Option.some-injective (g, hs) (h, rest) e) (waiting-cons g hs)
  waiting-take_at (suc i) (g ∷ hs) rest h e = elim (Option-cases (take_at i hs)) [
    | inl n ↦ ground arith
    | inr ((z, zs), f) ↦
        ground (arith, waiting-take_at i hs zs z f, waiting-cons g hs, waiting-cons g zs)
  ]

  pub timed-take_at :
      (i : ℕ) (ts rest : List Timer) (t : Timer)
      → take_at i ts ≡ some (t, rest)
      → timed w ts ≡ w (label t.job) + timed w rest
  timed-take_at i [] rest t e = cc
  timed-take_at zero (g ∷ ts) rest t e =
      subst (λ (z : Timer × List Timer). timed w (g ∷ ts) ≡ w (label (z.0).job) + timed w z.1)
        (Option.some-injective (g, ts) (t, rest) e) refl
  timed-take_at (suc i) (g ∷ ts) rest t e = elim (Option-cases (take_at i ts)) [
    | inl n ↦ ground arith
    | inr ((z, zs), f) ↦ ground (arith, timed-take_at i ts zs z f)
  ]
