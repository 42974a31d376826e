-- ===== src/Crypto/Fmdn.antt =====
-- pkg/googlefindmy/crypto/fmdn.go and the truncated hash of sha.go, over SHA-256.
use google_find_my_tools_go.Prelude.{ℕ, List, [], ◌∷◌, ◌++◌, take}

pub record FmdnKeys : Type 0 where
  pub recovery_key : List ℕ
  pub ringing_key : List ℕ
  pub tracking_key : List ℕ

module _ (sha256 : List ℕ → List ℕ) where
  unfoldable pub truncated_sha256 : List ℕ → ℕ → List ℕ
  truncated_sha256 identity_key operation = take 8 (sha256 (identity_key ++ operation ∷ []))

  unfoldable pub generate_fmdn_keys : List ℕ → FmdnKeys
  unfolding truncated_sha256
  generate_fmdn_keys identity_key = record {
    recovery_key = truncated_sha256 identity_key 1;
    ringing_key = truncated_sha256 identity_key 2;
    tracking_key = truncated_sha256 identity_key 3;
  }
