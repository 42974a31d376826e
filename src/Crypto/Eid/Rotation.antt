-- ===== src/Crypto/Eid/Rotation.antt =====
-- An identifier depends on the timestamp only through its rotation period of 1024 seconds.
use google_find_my_tools_go.Prelude.{ℕ, ◌/◌, ◌^◌, ◌≡◌, ◌<◌, refl, arith, List}
use google_find_my_tools_go.Crypto.Aes.{BlockCipher}
use google_find_my_tools_go.Crypto.Eid.{
  Multiplication, masked_timestamp, eid_block, calculate_r, generate_eid,
}
use google_find_my_tools_go.BigEndian.{put_uint32}

module _ (aes : BlockCipher) (curve : Multiplication) (identity_key : List ℕ) where
  -- Two timestamps of one rotation period (1024 seconds, counted from 0) give the same identifier,
  -- or the same error.
  pub generate_eid_period :
      (t u : ℕ)
      → t / 1024 ≡ u / 1024
      → generate_eid aes curve identity_key t ≡ generate_eid aes curve identity_key u
  unfolding generate_eid calculate_r masked_timestamp
  generate_eid_period t u h = rw h refl

-- The encrypted structure tells any two rotation periods of the first 2 ^ 32 seconds apart.
pub eid_block-injective :
    (t u : ℕ) → t < 2 ^ 32 → u < 2 ^ 32 → eid_block t ≡ eid_block u → t / 1024 ≡ u / 1024
unfolding eid_block masked_timestamp put_uint32
eid_block-injective t u ht hu h = ground arith
