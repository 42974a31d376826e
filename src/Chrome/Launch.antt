-- ===== src/Chrome/Launch.antt =====
-- pkg/googlefindmy/chrome/chrome.go, over the value of GOOGLEFINDMY_CHROME_NO_SANDBOX, the options
-- of chromedp and the order in which Go goes over a map.
use google_find_my_tools_go.Prelude.{
  ℕ, Bool, true, false, not, ◌||◌, List, [], ◌∷◌, ◌++◌, map, if◌then◌else◌,
}
use google_find_my_tools_go.Bytes.{codes, bytes_eq, is_empty}
pub mod Order
pub mod Launched
mod Tests

-- Config
pub record Config : Type 0 where
  pub headless : Bool
  pub no_sandbox : Bool
  pub disable_dev_shm_usage : Bool
  pub disable_gpu : Bool
  pub window_size : List ℕ
  pub user_data_dir : List ℕ

-- A value of the map of initFlags, which is a bool or a string.
pub data FlagValue : Type 0 where
  switch : Bool → FlagValue
  setting : List ℕ → FlagValue

-- An entry of the map.
pub record Flag : Type 0 where
  pub name : List ℕ
  pub value : FlagValue

-- Config.noSandbox, with the value of the environment variable, empty if it is not set.
unfoldable pub no_sandbox : List ℕ → Config → Bool
unfolding bytes_eq
no_sandbox env config = config.no_sandbox || bytes_eq env (codes "1")

-- The entries that every configuration sets.
abbrev pub fixed_flags : Config → List Flag
fixed_flags config =
    record { name = codes "headless"; value = switch config.headless }
    ∷ record { name = codes "enable-automation"; value = switch false }
    ∷ record {
      name = codes "disable-blink-features";
      value = setting (codes "AutomationControlled");
    }
    ∷ record { name = codes "password-store"; value = switch false }
    ∷ record { name = codes "use-mock-keychain"; value = switch false }
    ∷ []

-- The entries that a configuration sets under a condition.
abbrev pub optional_flags : List ℕ → Config → List (Bool × Flag)
optional_flags env config =
    (no_sandbox env config, record { name = codes "no-sandbox"; value = switch true })
    ∷ (
      config.disable_dev_shm_usage,
      record { name = codes "disable-dev-shm-usage"; value = switch true },
    )
    ∷ (config.disable_gpu, record { name = codes "disable-gpu"; value = switch true })
    ∷ (
      not (is_empty config.window_size),
      record { name = codes "window-size"; value = setting config.window_size },
    )
    ∷ (
      not (is_empty config.user_data_dir),
      record { name = codes "user-data-dir"; value = setting config.user_data_dir },
    )
    ∷ []

abbrev pub set_flags : List (Bool × Flag) → List Flag
set_flags [] = []
set_flags ((set, flag) ∷ flags) = let rest = set_flags flags in if set then flag ∷ rest else rest

-- The entries of the map.
unfoldable pub init_flags : List ℕ → Config → List Flag
unfolding no_sandbox
init_flags env config = fixed_flags config ++ set_flags (optional_flags env config)

-- The default options of chromedp, and a chromedp.Flag for each entry in the order of a range loop.
unfoldable pub allocator_options {ℓ} :
    {O : Type ℓ} → List O → (Flag → O) → (List Flag → List Flag) → List ℕ → Config → List O
unfolding init_flags
allocator_options defaults flag ranged env config =
    defaults ++ map flag (ranged (init_flags env config))
