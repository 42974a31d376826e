-- ===== src/Actions/Always.antt =====
-- What holds of the value of every action that ends without error.
use mathlib.Core.Path.{subst}
use google_find_my_tools_go.Prelude.{◌≡◌, refl, Result, ok, err}
use google_find_my_tools_go.Actions.{Action, go_on, ◌>>=◌, wrap_action, with_result, pure_result}

abbrev pub OkIs {ℓ κ μ} : {E : Type ℓ} {A : Type κ} → (A → Type μ) → Result E A → Type μ
OkIs P (err e) = Unit
OkIs P (ok a) = P a

-- From whatever state the action starts.
abbrev pub Always {ℓ κ μ ν} :
    {S : Type ℓ} {E : Type κ} {A : Type μ} → (A → Type ν) → Action S E A → Type (ℓ ⊔ ν)
Always {S} P m = (s : S) → OkIs P (m s).1

any-OkIs {ℓ κ} : {E : Type ℓ} {A : Type κ} (r : Result E A) → OkIs (λ a. Unit {0}) r
any-OkIs (ok a) = tt
any-OkIs (err e) = tt

module _ {ℓ κ μ ν} {S : Type ℓ} {E : Type κ} {A : Type μ} {B : Type ν} where
  go_on-OkIs {ο π} :
      (P : A → Type ο) (Q : B → Type π) (r : S × Result E A) (f : A → Action S E B)
      → OkIs P r.1
      → ((a : A) → P a → Always Q (f a))
      → OkIs Q (go_on r f).1
  go_on-OkIs P Q (s, ok a) f h k = k a h s
  go_on-OkIs P Q (s, err e) f h k = tt

  pub bind-Always {ο π} :
      (P : A → Type ο) (Q : B → Type π) (m : Action S E A) (f : A → Action S E B)
      → Always P m
      → ((a : A) → P a → Always Q (f a))
      → Always Q (m >>= f)
  bind-Always P Q m f h k s = go_on-OkIs P Q (m s) f (h s) k

  -- Where nothing is known of the first value.
  pub next-Always {π} :
      (Q : B → Type π) (m : Action S E A) (f : A → Action S E B)
      → ((a : A) → Always Q (f a))
      → Always Q (m >>= f)
  next-Always Q m f k = bind-Always (λ a. Unit {0}) Q m f (λ s. any-OkIs (m s).1) (λ a h. k a)

-- What holds of a value that the action did return.
pub Always-ok {ℓ κ μ ν} :
    {S : Type ℓ} {E : Type κ} {B : Type μ} (Q : B → Type ν) (m : Action S E B) (s s' : S) (b : B)
    → Always Q m
    → m s ≡ (s', ok b)
    → Q b
Always-ok {S} {E} {B} Q m s s' b h e = subst (λ (r : S × Result E B). OkIs Q r.1) e (h s)

with_result-OkIs {ℓ κ μ ν ο} :
    {S : Type ℓ} {E : Type κ} {F : Type ν} {A : Type μ} (P : A → Type ο) (f : E → F)
    (r : S × Result E A)
    → OkIs P r.1
    → OkIs P (with_result f r).1
with_result-OkIs P f (s, ok a) h = h
with_result-OkIs P f (s, err e) h = tt

pub wrap_action-Always {ℓ κ μ ν ο} :
    {S : Type ℓ} {E : Type κ} {F : Type ν} {A : Type μ} (P : A → Type ο) (f : E → F)
    (m : Action S E A)
    → Always P m
    → Always P (wrap_action f m)
wrap_action-Always P f m h s = with_result-OkIs P f (m s) (h s)

-- A step without a call, under the error that is put around it.
pub wrapped_result-Always {ℓ κ μ ν} :
    {S : Type ℓ} {E : Type κ} {F : Type ν} {A : Type μ} (f : E → F) (r : Result E A)
    → Always {S = S} (λ a. r ≡ ok a) (wrap_action f (pure_result r))
wrapped_result-Always f (ok a) s = refl
wrapped_result-Always f (err e) s = tt
