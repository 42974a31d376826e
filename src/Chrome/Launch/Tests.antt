-- ===== src/Chrome/Launch/Tests.antt =====
-- The flags of a launch at a concrete configuration, and runs of its functions.
use mathlib.Core.List.Perm
use mathlib.Core.List.{reverse, reverse_perm}
use google_find_my_tools_go.Prelude.{
  ◌≡◌, refl, true, false, [], ◌∷◌, Option, some, none, if◌then◌else◌, ℕ, List,
}
use google_find_my_tools_go.Bytes.{codes, bytes_eq}
use google_find_my_tools_go.Chrome.Launch.{
  Config, Flag, FlagValue, switch, setting, no_sandbox, init_flags, allocator_options,
}
use google_find_my_tools_go.Chrome.Launch.Order.{applied}
use google_find_my_tools_go.Chrome.Launch.Launched.{allocator_options-launched}

-- The configuration of DiscoverListSpecs.
abbrev discovery : Config
discovery = record {
  headless = true;
  no_sandbox = false;
  disable_dev_shm_usage = true;
  disable_gpu = true;
  window_size = codes "1280,720";
  user_data_dir = [];
}

flags :
    init_flags (codes "1") discovery
    ≡ record { name = codes "headless"; value = switch true }
      ∷ record { name = codes "enable-automation"; value = switch false }
      ∷ record {
        name = codes "disable-blink-features";
        value = setting (codes "AutomationControlled");
      }
      ∷ record { name = codes "password-store"; value = switch false }
      ∷ record { name = codes "use-mock-keychain"; value = switch false }
      ∷ record { name = codes "no-sandbox"; value = switch true }
      ∷ record { name = codes "disable-dev-shm-usage"; value = switch true }
      ∷ record { name = codes "disable-gpu"; value = switch true }
      ∷ record { name = codes "window-size"; value = setting (codes "1280,720") }
      ∷ []
unfolding init_flags no_sandbox bytes_eq
flags = refl

-- The flags of a launch, by their names.
abbrev set_flag : Flag → (List ℕ → Option FlagValue) → List ℕ → Option FlagValue
set_flag flag flags name = if bytes_eq name flag.name then some flag.value else flags name

abbrev no_flags : List ℕ → Option FlagValue
no_flags name = none

allocator_options-launched_example :
    applied (allocator_options [] set_flag reverse [] discovery) no_flags (codes "disable-gpu")
    ≡ some (switch true)
unfolding bytes_eq
allocator_options-launched_example =
    allocator_options-launched [] set_flag (λ name flags. flags name) reverse [] discovery no_flags
      (codes "disable-gpu") (λ name flag flags. refl)
      (Perm.symm (reverse_perm (init_flags [] discovery)))
