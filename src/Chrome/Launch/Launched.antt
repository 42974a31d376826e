-- ===== src/Chrome/Launch/Launched.antt =====
-- With which flags a browser is launched by AllocatorOptions of pkg/googlefindmy/chrome/chrome.go.
use mathlib.Core.Bool.{Bool-discrete}
use mathlib.Core.HLevel.{hedberg}
use mathlib.Core.List.{Perm, List-discrete}
use mathlib.Core.Option as Option
use mathlib.Core.Path.{subst}
use google_find_my_tools_go.Prelude.{
  ℕ, ◌≡◌, refl, sym, ap, ◌∙◌, Bool, true, false, ◌||◌, not, if◌then◌else◌, List, [], ◌∷◌, map,
  Option, none, some, arith, Bool-cases, inl, inr, ℕ_discrete,
}
use google_find_my_tools_go.Bytes.{codes, bytes_eq, bytes_eq_iff, is_empty}
use google_find_my_tools_go.Chrome.Launch.{
  Config, Flag, FlagValue, switch, setting, no_sandbox, fixed_flags, optional_flags, set_flags,
  init_flags, allocator_options,
}
use google_find_my_tools_go.Chrome.Launch.Order
use google_find_my_tools_go.Chrome.Launch.Order.{
  applied, applied-append, applied-perm, init_flags-Follows, value_of,
}

-- chromedp.Flag sets the flag of a name, whatever it was before, and leaves the others.
abbrev pub Sets {ℓ} : {O : Type ℓ} → (Flag → O → O) → (List ℕ → O → Option FlagValue) → Type ℓ
Sets {O} flag look =
    (name : List ℕ) (f : Flag) (o : O)
    → look name (flag f o) ≡ (if bytes_eq name f.name then some f.value else look name o)

abbrev pub when : Bool → FlagValue → Option FlagValue
when true value = some value
when false value = none

-- The value that a configuration gives the flag of a name, `none` where it does not touch the flag.
abbrev pub launched : List ℕ → Config → List ℕ → Option FlagValue
launched env config name =
    if bytes_eq name (codes "headless")
    then some (switch config.headless)
    else if bytes_eq name (codes "enable-automation")
    then some (switch false)
    else if bytes_eq name (codes "disable-blink-features")
    then some (setting (codes "AutomationControlled"))
    else if bytes_eq name (codes "password-store")
    then some (switch false)
    else if bytes_eq name (codes "use-mock-keychain")
    then some (switch false)
    else if bytes_eq name (codes "no-sandbox")
    then when (config.no_sandbox || bytes_eq env (codes "1")) (switch true)
    else if bytes_eq name (codes "disable-dev-shm-usage")
    then when config.disable_dev_shm_usage (switch true)
    else if bytes_eq name (codes "disable-gpu")
    then when config.disable_gpu (switch true)
    else if bytes_eq name (codes "window-size")
    then when (not (is_empty config.window_size)) (setting config.window_size)
    else if bytes_eq name (codes "user-data-dir")
    then when (not (is_empty config.user_data_dir)) (setting config.user_data_dir)
    else none

abbrev pub or_default : Option FlagValue → Option FlagValue → Option FlagValue
or_default none default = default
or_default (some value) default = some value

FlagValue-discrete : Discrete FlagValue
FlagValue-discrete (switch a) (switch b) = elim (Bool-discrete a b) [
  | yes e ↦ yes (ap switch e)
  | no n ↦ no (λ e. n (ap switched e))
]
  where
    switched : FlagValue → Bool
    switched (switch c) = c
    switched (setting t) = true
FlagValue-discrete (switch a) (setting t) = no (λ e. cc)
FlagValue-discrete (setting t) (switch a) = no (λ e. cc)
FlagValue-discrete (setting t) (setting u) = elim (List-discrete ℕ_discrete t u) [
  | yes e ↦ yes (ap setting e)
  | no n ↦ no (λ e. n (ap text_of e))
]
  where
    text_of : FlagValue → List ℕ
    text_of (switch c) = []
    text_of (setting t) = t

value_set : IsSet (Option FlagValue)
value_set = hedberg (Option.discrete FlagValue-discrete)

module _ (name : List ℕ) where
  -- What a flag makes of the value under the name.
  mark : Flag → Option FlagValue → Option FlagValue
  mark f d = if bytes_eq name f.name then some f.value else d

  mark-Commutes : Order.Commutes mark
  unfolding mark
  mark-Commutes f g d e =
      ground (arith, bytes_eq_iff name f.name, bytes_eq_iff name g.name, bytes_eq_iff f.name g.name)

  look-applied {ℓ} :
      {O : Type ℓ} (flag : Flag → O → O) (look : List ℕ → O → Option FlagValue)
      → Sets flag look
      → (flags : List Flag) (o : O)
      → look name (applied (map flag flags) o) ≡ applied (map mark flags) (look name o)
  unfolding mark
  look-applied flag look sets [] o = refl
  look-applied flag look sets (f ∷ flags) o =
      look-applied flag look sets flags (flag f o) ∙ ap (applied (map mark flags)) (sets name f o)

  -- What optional entries make of the value under the name.
  marked : List (Bool × Flag) → Option FlagValue → Option FlagValue
  marked [] d = d
  marked ((set, f) ∷ entries) d =
      marked entries (if bytes_eq name f.name then or_default (when set f.value) d else d)

  set_flags-marked :
      (entries : List (Bool × Flag)) (d : Option FlagValue)
      → applied (map mark (set_flags entries)) d ≡ marked entries d
  unfolding marked mark
  set_flags-marked [] d = refl
  set_flags-marked ((true, f) ∷ entries) d = set_flags-marked entries _
  set_flags-marked ((false, f) ∷ entries) d =
      set_flags-marked entries d ∙ ap (marked entries) (sym (same (bytes_eq name f.name) d))
    where
      same : (t : Bool) (o : Option FlagValue) → (if t then o else o) ≡ o
      same true o = refl
      same false o = refl

module _ (env : List ℕ) (config : Config) where
  abbrev Agrees : List ℕ → Type 0
  Agrees name =
      (d : Option FlagValue)
      → marked name (optional_flags env config) (applied (map (mark name) (fixed_flags config)) d)
        ≡ or_default (launched env config name) d

  at_name : (c name : List ℕ) → bytes_eq name c ≡ true → Agrees c → Agrees name
  at_name c name e h = subst Agrees (sym ((bytes_eq_iff name c).0 e)) h

  names_agree : (name : List ℕ) → Agrees name
  unfolding marked mark no_sandbox bytes_eq
  names_agree name = elim (Bool-cases (bytes_eq name (codes "headless"))) [
    | inl e ↦ at_name (codes "headless") name e (λ d. refl)
    | inr e0 ↦ elim (Bool-cases (bytes_eq name (codes "enable-automation"))) [
      | inl e ↦ at_name (codes "enable-automation") name e (λ d. refl)
      | inr e1 ↦ elim (Bool-cases (bytes_eq name (codes "disable-blink-features"))) [
        | inl e ↦ at_name (codes "disable-blink-features") name e (λ d. refl)
        | inr e2 ↦ elim (Bool-cases (bytes_eq name (codes "password-store"))) [
          | inl e ↦ at_name (codes "password-store") name e (λ d. refl)
          | inr e3 ↦ elim (Bool-cases (bytes_eq name (codes "use-mock-keychain"))) [
            | inl e ↦ at_name (codes "use-mock-keychain") name e (λ d. refl)
            | inr e4 ↦ elim (Bool-cases (bytes_eq name (codes "no-sandbox"))) [
              | inl e ↦ at_name (codes "no-sandbox") name e (λ d. refl)
              | inr e5 ↦ elim (Bool-cases (bytes_eq name (codes "disable-dev-shm-usage"))) [
                | inl e ↦ at_name (codes "disable-dev-shm-usage") name e (λ d. refl)
                | inr e6 ↦ elim (Bool-cases (bytes_eq name (codes "disable-gpu"))) [
                  | inl e ↦ at_name (codes "disable-gpu") name e (λ d. refl)
                  | inr e7 ↦ elim (Bool-cases (bytes_eq name (codes "window-size"))) [
                    | inl e ↦ at_name (codes "window-size") name e (λ d. refl)
                    | inr e8 ↦ elim (Bool-cases (bytes_eq name (codes "user-data-dir"))) [
                      | inl e ↦ at_name (codes "user-data-dir") name e (λ d. refl)
                      | inr e9 ↦ λ d. rw (e0, e1, e2, e3, e4, e5, e6, e7, e8, e9) refl
                    ]
                  ]
                ]
              ]
            ]
          ]
        ]
      ]
    ]
  ]

  fixed_and_set :
      (name : List ℕ) (d : Option FlagValue)
      → applied (map (mark name) (init_flags env config)) d
        ≡ or_default (launched env config name) d
  unfolding init_flags
  fixed_and_set name d =
      set_flags-marked name (optional_flags env config)
        (applied (map (mark name) (fixed_flags config)) d)
      ∙ names_agree name d

-- Where chromedp.Flag sets the flag of its name and no other, a browser is launched, for every
-- configuration and environment and in whatever order a range loop goes over the map of flags, with
-- the value that the table gives for the configuration under each name of the table, and with the
-- defaults of chromedp under every other name, or where the table has no value.
pub allocator_options-launched {ℓ} :
    {O : Type ℓ} (defaults : List (O → O)) (flag : Flag → O → O)
    (look : List ℕ → O → Option FlagValue) (ranged : List Flag → List Flag) (env : List ℕ)
    (config : Config) (o : O) (name : List ℕ)
    → Sets flag look
    → Perm (init_flags env config) (ranged (init_flags env config))
    → look name (applied (allocator_options defaults flag ranged env config) o)
      ≡ or_default (launched env config name) (look name (applied defaults o))
unfolding allocator_options
allocator_options-launched defaults flag look ranged env config o name sets p =
    ap (look name) (applied-append defaults (map flag (ranged (init_flags env config))) o)
    ∙ look-applied name flag look sets (ranged (init_flags env config)) (applied defaults o)
    ∙ sym (
        applied-perm (mark name) (mark-Commutes name) (value_of config) value_set
          (init_flags-Follows env config) p (look name (applied defaults o)))
    ∙ fixed_and_set env config name (look name (applied defaults o))
