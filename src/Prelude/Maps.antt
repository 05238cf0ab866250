-- ===== src/Prelude/Maps.antt =====
-- Maps as functions of a number, with one value replaced.
use Prim.Native.Nat.{ℕ}
use mathlib.Core.Path.{◌≡◌, refl}
use mathlib.Core.Logic.{◌≢◌}
use native.Mathlib.Omega.{arith}
use leos_sdk.Prelude.Tests.{◌==◌, ==_iff, if◌then◌else◌, if_cases}

module _ {ℓ} {A : Type ℓ} where
  abbrev pub put : (ℕ → A) → ℕ → A → ℕ → A
  put f a v b = if b == a then v else f b

  pub put_here : (f : ℕ → A) (a : ℕ) (v : A) → put f a v a ≡ v
  put_here f a v = if_cases (λ x. x ≡ v) (a == a) (λ _. refl) (λ e. absurd (ground arith))

  pub put_other : (f : ℕ → A) (a : ℕ) (v : A) (b : ℕ) → b ≢ a → put f a v b ≡ f b
  put_other f a v b ne =
      if_cases (λ x. x ≡ f b) (b == a) (λ e. absurd (ne ((==_iff b a).0 e))) (λ _. refl)

  -- A property of both the new value and the old ones.
  pub put_cases {κ} :
      (P : ℕ → A → Type κ) (f : ℕ → A) (a : ℕ) (v : A) (b : ℕ)
      → P a v
      → (b ≢ a → P b (f b))
      → P b (put f a v b)
  put_cases P f a v b new old =
      if_cases (P b) (b == a) (λ e. let e' = (==_iff b a).0 e in rw e' new)
        (λ e. old (λ k. ground arith))
