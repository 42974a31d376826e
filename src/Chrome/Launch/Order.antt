-- ===== src/Chrome/Launch/Order.antt =====
-- The order in which AllocatorOptions of pkg/googlefindmy/chrome/chrome.go goes over its map of
-- flags.
use mathlib.Core.Logic.{∥∥₁_elim}
use mathlib.Core.Path.{subst}
use mathlib.Core.List.{Perm, Permᴰ}
use google_find_my_tools_go.Prelude.{
  ℕ, ◌≡◌, refl, sym, ap, ap₂, ◌∙◌, Bool, true, false, ◌||◌, if◌then◌else◌, List, [], ◌∷◌, ◌++◌, map,
}
use google_find_my_tools_go.Bytes.{codes, bytes_eq, bytes_eq_iff}
use google_find_my_tools_go.Chrome.Launch.{
  Config, Flag, FlagValue, switch, setting, fixed_flags, optional_flags, set_flags, init_flags,
}

-- Options, one after another, on what is launched.
abbrev pub applied {ℓ} : {O : Type ℓ} → List (O → O) → O → O
applied [] o = o
applied (f ∷ fs) o = applied fs (f o)

-- chromedp.Flag of different names: the order of two options makes no difference.
abbrev pub Commutes {ℓ} : {O : Type ℓ} → (Flag → O → O) → Type ℓ
Commutes {O} flag =
    (f g : Flag) (o : O) → bytes_eq f.name g.name ≡ false → flag f (flag g o) ≡ flag g (flag f o)

-- Every flag has the value that a function of names gives.
abbrev pub Follows : (List ℕ → FlagValue) → List Flag → Type 0
Follows v [] = Unit {0}
Follows v (flag ∷ flags) = (flag.value ≡ v flag.name) × Follows v flags

pub applied-append {ℓ} :
    {O : Type ℓ} (fs gs : List (O → O)) (o : O) → applied (fs ++ gs) o ≡ applied gs (applied fs o)
applied-append [] gs o = refl
applied-append (f ∷ fs) gs o = applied-append fs gs (f o)

Follows-append :
    (v : List ℕ → FlagValue) (fs gs : List Flag)
    → Follows v fs
    → Follows v gs
    → Follows v (fs ++ gs)
Follows-append v [] gs p q = q
Follows-append v (f ∷ fs) gs (e, p) q = (e, Follows-append v fs gs p q)

Follows-set_flags :
    (v : List ℕ → FlagValue) (flags : List (Bool × Flag))
    → Follows v (map (λ entry. entry.1) flags)
    → Follows v (set_flags flags)
Follows-set_flags v [] h = tt
Follows-set_flags v ((true, f) ∷ flags) (e, h) = (e, Follows-set_flags v flags h)
Follows-set_flags v ((false, f) ∷ flags) (e, h) = Follows-set_flags v flags h

same_value : (v : List ℕ → FlagValue) {f g : Flag} → f ≡ g → f.value ≡ v f.name → g.value ≡ v g.name
same_value v e h = subst (λ f. f.value ≡ v f.name) e h

Follows-perm :
    (v : List ℕ → FlagValue) {xs ys : List Flag} → Permᴰ xs ys → Follows v xs → Follows v ys
Follows-perm v Permᴰ.nil h = tt
Follows-perm v (Permᴰ.cons e p) (h, hs) = (same_value v e h, Follows-perm v p hs)
Follows-perm v (Permᴰ.swap e e') (h, (h', hs)) = (same_value v e' h', (same_value v e h, hs))
Follows-perm v (Permᴰ.trans p q) h = Follows-perm v q (Follows-perm v p h)

same_flag :
    (v : List ℕ → FlagValue) (f g : Flag)
    → f.value ≡ v f.name
    → g.value ≡ v g.name
    → f.name ≡ g.name
    → f ≡ g
same_flag v f g e e' n =
    ap₂ (λ name value. record { name = name; value = value }) n (e ∙ ap v n ∙ sym e')

module _ {ℓ} {O : Type ℓ} (flag : Flag → O → O) (commutes : Commutes flag) where
  swapped :
      (f g : Flag) (o : O) (t : Bool)
      → bytes_eq f.name g.name ≡ t
      → (f.name ≡ g.name → f ≡ g)
      → flag g (flag f o) ≡ flag f (flag g o)
  swapped f g o true e same =
      let f≡g : f ≡ g = same ((bytes_eq_iff f.name g.name).0 e) in
      ap₂ (λ x y. flag x (flag y o)) (sym f≡g) f≡g
  swapped f g o false e same = sym (commutes f g o e)

  applied-order :
      (v : List ℕ → FlagValue) {xs ys : List Flag}
      → Permᴰ xs ys
      → Follows v xs
      → (o : O) → applied (map flag xs) o ≡ applied (map flag ys) o
  applied-order v Permᴰ.nil h o = refl
  applied-order v (Permᴰ.cons {a} {b} {l₁} {l₂} e p) (h, hs) o =
      applied-order v p hs (flag a o) ∙ ap (λ f. applied (map flag l₂) (flag f o)) e
  applied-order v (Permᴰ.swap {a} {b} {a'} {b'} {l} e e') (h, (h', hs)) o =
      ap (applied (map flag l))
        (swapped a b o _ refl (same_flag v a b h h') ∙ ap₂ (λ x y. flag x (flag y o)) e e')
  applied-order v (Permᴰ.trans p q) h o =
      applied-order v p h o ∙ applied-order v q (Follows-perm v p h) o

  pub applied-perm :
      (v : List ℕ → FlagValue) {xs ys : List Flag}
      → IsSet O
      → Follows v xs
      → Perm xs ys
      → (o : O) → applied (map flag xs) o ≡ applied (map flag ys) o
  applied-perm v {xs} {ys} is_set h p o =
      ∥∥₁_elim p (is_set (applied (map flag xs) o) (applied (map flag ys) o))
        (λ q. applied-order v q h o)

-- The value that a flag has, if it is set.
abbrev pub value_of : Config → List ℕ → FlagValue
value_of config name =
    if bytes_eq name (codes "headless")
    then switch config.headless
    else if bytes_eq name (codes "disable-blink-features")
    then setting (codes "AutomationControlled")
    else if bytes_eq name (codes "window-size")
    then setting config.window_size
    else if bytes_eq name (codes "user-data-dir")
    then setting config.user_data_dir
    else switch (
        bytes_eq name (codes "no-sandbox")
        || bytes_eq name (codes "disable-dev-shm-usage")
        || bytes_eq name (codes "disable-gpu"))

pub init_flags-Follows :
    (env : List ℕ) (config : Config) → Follows (value_of config) (init_flags env config)
unfolding init_flags bytes_eq
init_flags-Follows env config =
    Follows-append (value_of config) (fixed_flags config) _
      (refl, (refl, (refl, (refl, (refl, tt)))))
      (Follows-set_flags (value_of config) (optional_flags env config)
        (refl, (refl, (refl, (refl, (refl, tt))))))
