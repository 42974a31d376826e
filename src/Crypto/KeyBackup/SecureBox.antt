-- ===== src/Crypto/KeyBackup/SecureBox.antt =====
-- decryptWithDerivedKey and the keys that are read with it (pkg/googlefindmy/crypto/keybackup.go).
use google_find_my_tools_go.Prelude.{ℕ, ◌+◌, ◌^◌, ◌<◌, ◌≡◌, refl, arith, true, false, Bool}
use google_find_my_tools_go.Prelude.{
  List, [], ◌∷◌, ◌++◌, length, length-append, take-append_of, drop-append_of, ok, ltb-eq-false,
  ok-injective, if◌then◌else◌,
}
use google_find_my_tools_go.Bytes.{codes, bytes_eq}
use google_find_my_tools_go.Crypto.Aes.{is_key_size}
use google_find_my_tools_go.Crypto.ForeignTracker.RoundTrip.{FillsOutput}
use google_find_my_tools_go.Crypto.KeyBackup.{
  Ciphers, decrypt_with_derived_key, box_key, derive_key_using_hkdf, p256_shared_secret,
  securebox_version, securebox_salt, decrypt_shared_key, decrypt_application_key,
  decrypt_recovery_key,
}
use google_find_my_tools_go.Crypto.KeyBackup.Boxes.{Seal, Opens, gcm_decrypt_ad-seal}

-- A box: the version, a public key if there is one, the nonce and what GCM sealed.
abbrev pub securebox : Seal → List ℕ → List ℕ → List ℕ → List ℕ → List ℕ → List ℕ
securebox seal public_key key nonce text aad =
    securebox_version ++ (public_key ++ (nonce ++ seal key nonce text aad))

module _ (ciphers : Ciphers) (seal : Seal) where
  length-securebox :
      (public_key nonce text key aad : List ℕ)
      → length (securebox seal public_key key nonce text aad)
        ≡ 2 + length public_key + length nonce + length (seal key nonce text aad)
  length-securebox public_key nonce text key aad =
      rw
        (
          length-append public_key (nonce ++ seal key nonce text aad),
          length-append nonce (seal key nonce text aad),
        )
        (omega arith)

  -- A box whose key is derived as the flag says, and whose public key is as long as the flag says.
  decrypt_with_derived_key-securebox :
      (flag : Bool) (private_key info aad public_key nonce text key : List ℕ)
      → Opens ciphers seal
      → length public_key ≡ (if flag then 65 else 0)
      → length nonce ≡ 12
      → is_key_size (length key) ≡ true
      → length text < 2 ^ 32
      → box_key ciphers flag (securebox seal public_key key nonce text aad) private_key info
        ≡ ok key
      → decrypt_with_derived_key ciphers
          (securebox seal public_key key nonce text aad)
          private_key
          info
          aad
          flag
        ≡ ok text
  unfolding decrypt_with_derived_key bytes_eq
  decrypt_with_derived_key-securebox true private_key info aad public_key nonce text key gcm hp hn
        good small keyed =
      let box = securebox seal public_key key nonce text aad in
      let size = length-securebox public_key nonce text key aad in
      rw
        (
          ltb-eq-false (length box) 2 (omega arith),
          ltb-eq-false (length box) 79 (omega arith),
          keyed,
          drop-append_of 65 public_key (nonce ++ seal key nonce text aad) hp,
        )
        (gcm_decrypt_ad-seal ciphers seal key nonce text aad gcm good hn small)
  decrypt_with_derived_key-securebox false private_key info aad [] nonce text key gcm hp hn good
        small keyed =
      let box = securebox seal [] key nonce text aad in
      let size = length-securebox [] nonce text key aad in
      rw
        (
          ltb-eq-false (length box) 2 (omega arith),
          ltb-eq-false (length box) 14 (omega arith),
          ok-injective (derive_key_using_hkdf ciphers private_key securebox_salt info) key keyed,
        )
        (gcm_decrypt_ad-seal ciphers seal key nonce text aad gcm good hn small)
  decrypt_with_derived_key-securebox false private_key info aad (b ∷ bs) nonce text key gcm hp hn
        good small keyed =
      ground arith

derived-key_size :
    (ciphers : Ciphers) (secret info : List ℕ)
    → FillsOutput ciphers.hkdf
    → is_key_size (length (derive_key_using_hkdf ciphers secret securebox_salt info)) ≡ true
unfolding derive_key_using_hkdf is_key_size
derived-key_size ciphers secret info fills =
    rw (fills secret securebox_salt info 16 (omega arith)) refl

-- If HKDF fills its output and GCM opens what it seals, DecryptSharedKey reads the shared key (of
-- less than 4 GiB) back from a box that carries a public key of 65 bytes, agreed on with the
-- domain key, and is sealed under the key derived from the shared secret.
pub decrypt_shared_key_reads :
    (ciphers : Ciphers) (seal : Seal) (domain_key public_key nonce shared text : List ℕ)
    → FillsOutput ciphers.hkdf
    → Opens ciphers seal
    → p256_shared_secret ciphers domain_key public_key ≡ ok shared
    → length public_key ≡ 65
    → length nonce ≡ 12
    → length text < 2 ^ 32
    → decrypt_shared_key ciphers domain_key (
        securebox seal public_key
          (derive_key_using_hkdf ciphers shared securebox_salt
            (codes "P256 HKDF-SHA-256 AES-128-GCM"))
          nonce
          text
          (codes "V1 shared_key"))
      ≡ ok text
unfolding decrypt_shared_key
decrypt_shared_key_reads ciphers seal domain_key public_key nonce shared text fills gcm agreed hp hn
      small =
    let info = codes "P256 HKDF-SHA-256 AES-128-GCM" in
    let key = derive_key_using_hkdf ciphers shared securebox_salt info in
    decrypt_with_derived_key-securebox ciphers seal true domain_key info (codes "V1 shared_key")
      public_key nonce text key gcm hp hn (derived-key_size ciphers shared info fills) small
      (unfold box_key in
        rw
          (
            take-append_of 65 public_key (nonce ++ seal key nonce text (codes "V1 shared_key")) hp,
            agreed,
          )
          refl)

-- If HKDF fills its output and GCM opens what it seals, DecryptApplicationKey and
-- DecryptRecoveryKey read their keys (of less than 4 GiB) back from boxes without a public key,
-- sealed under the key derived from the recovery key and from the LSKF hash.
pub decrypt_backup_keys_read :
    (ciphers : Ciphers) (seal : Seal)
    (recovery_key lskf_hash nonce application_text recovery_text : List ℕ)
    → FillsOutput ciphers.hkdf
    → Opens ciphers seal
    → length nonce ≡ 12
    → length application_text < 2 ^ 32
    → length recovery_text < 2 ^ 32
    → (decrypt_application_key ciphers recovery_key (
          securebox seal []
            (derive_key_using_hkdf ciphers recovery_key securebox_salt
              (codes "SHARED HKDF-SHA-256 AES-128-GCM"))
            nonce
            application_text
            (codes "V1 encrypted_application_key"))
        ≡ ok application_text)
      × (decrypt_recovery_key ciphers lskf_hash (
            securebox seal []
              (derive_key_using_hkdf ciphers lskf_hash securebox_salt
                (codes "SHARED HKDF-SHA-256 AES-128-GCM"))
              nonce
              recovery_text
              (codes "V1 locally_encrypted_recovery_key"))
          ≡ ok recovery_text)
unfolding decrypt_application_key decrypt_recovery_key box_key
decrypt_backup_keys_read ciphers seal recovery_key lskf_hash nonce application_text recovery_text
      fills gcm hn small_application small_recovery =
    let info = codes "SHARED HKDF-SHA-256 AES-128-GCM" in
    (
      decrypt_with_derived_key-securebox ciphers seal false recovery_key info _ [] nonce
          application_text (derive_key_using_hkdf ciphers recovery_key securebox_salt info) gcm refl
          hn (derived-key_size ciphers recovery_key info fills) small_application refl,
      decrypt_with_derived_key-securebox ciphers seal false lskf_hash info _ [] nonce recovery_text
          (derive_key_using_hkdf ciphers lskf_hash securebox_salt info) gcm refl hn
          (derived-key_size ciphers lskf_hash info fills) small_recovery refl,
    )
