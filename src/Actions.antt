-- ===== src/Actions.antt =====
-- Calls that change a state outside and return a value or an error, one after another: of a
-- network, a browser, a disk.
use google_find_my_tools_go.Prelude.{Result, ok, err}
pub mod Always

abbrev pub Action {ℓ κ μ} : Type ℓ → Type κ → Type μ → Type (ℓ ⊔ κ ⊔ μ)
Action S E A = S → S × Result E A

abbrev pub return {ℓ κ μ} : {S : Type ℓ} {E : Type κ} {A : Type μ} → A → Action S E A
return a s = (s, ok a)

abbrev pub fail {ℓ κ μ} : {S : Type ℓ} {E : Type κ} {A : Type μ} → E → Action S E A
fail e s = (s, err e)

-- A result that needs no call.
abbrev pub pure_result {ℓ κ μ} : {S : Type ℓ} {E : Type κ} {A : Type μ} → Result E A → Action S E A
pure_result r s = (s, r)

abbrev pub go_on {ℓ κ μ ν} :
    {S : Type ℓ} {E : Type κ} {A : Type μ} {B : Type ν}
    → S × Result E A
    → (A → Action S E B)
    → S × Result E B
go_on (s, ok a) f = f a s
go_on (s, err e) f = (s, err e)

infixl 5 ◌>>=◌ ◌>>◌
abbrev pub ◌>>=◌ {ℓ κ μ ν} :
    {S : Type ℓ} {E : Type κ} {A : Type μ} {B : Type ν}
    → Action S E A
    → (A → Action S E B)
    → Action S E B
(m >>= f) s = go_on (m s) f

abbrev pub ◌>>◌ {ℓ κ μ ν} :
    {S : Type ℓ} {E : Type κ} {A : Type μ} {B : Type ν} → Action S E A → Action S E B → Action S E B
m >> k = m >>= λ a. k

abbrev pub with_result {ℓ κ μ ν} :
    {S : Type ℓ} {E : Type κ} {A : Type μ} {F : Type ν} → (E → F) → S × Result E A → S × Result F A
with_result f (s, ok a) = (s, ok a)
with_result f (s, err e) = (s, err (f e))

-- fmt.Errorf with %w around the error of a call.
abbrev pub wrap_action {ℓ κ μ ν} :
    {S : Type ℓ} {E : Type κ} {A : Type μ} {F : Type ν} → (E → F) → Action S E A → Action S F A
wrap_action f m s = with_result f (m s)
