-- ===== src/Crypto/KeyBackup/Tests.antt =====
-- The theorems of the key backup with a toy cipher: the identity on blocks, and a GCM that adds a
-- tag of zeros.
use google_find_my_tools_go.Prelude.{
  ℕ, ◌-◌, ◌≡◌, refl, arith, ap, List, [], ◌∷◌, ◌++◌, length, take, replicate,
}
use google_find_my_tools_go.Prelude.{ok, length-append, length-replicate, take-append_of}
use google_find_my_tools_go.Bytes.{codes}
use google_find_my_tools_go.Crypto.Aes.{BlockCipher}
use google_find_my_tools_go.Crypto.ForeignTracker.RoundTrip.{FillsOutput}
use google_find_my_tools_go.Crypto.KeyBackup.{
  Ciphers, decrypt_shared_key, derive_key_using_hkdf, p256_shared_secret, securebox_salt,
}
use google_find_my_tools_go.Crypto.KeyBackup.Boxes.{Seal, Opens}
use google_find_my_tools_go.Crypto.KeyBackup.SecureBox.{securebox, decrypt_shared_key_reads}

abbrev toy : BlockCipher
toy = record { encrypt = λ key block. block; length-encrypt = λ key block h. h }

abbrev ciphers : Ciphers
ciphers = record {
  decrypt_block = λ key block. block;
  gcm_open = λ key iv ct ad. ok (take (length ct - 16) ct);
  p256_private = λ k. ok k;
  p256_public = λ k. ok k;
  p256_ecdh = λ priv pub_key. ok pub_key;
  hkdf = λ secret salt info n. replicate n 0;
  sha256 = λ text. replicate 32 0;
}

abbrev seal : Seal
seal key iv text ad = text ++ replicate 16 0

seal-Opens : Opens ciphers seal
seal-Opens = record {
  opens = λ key iv text ad good hi small. (
    ap ok (
        take-append_of _ text (replicate 16 0)
          (omega (arith, length-append text (replicate 16 0)))),
    length-append text (replicate 16 0),
  );
}

zeros-FillsOutput : FillsOutput ciphers.hkdf
zeros-FillsOutput secret salt info n small = length-replicate n 0

abbrev owner_key : List ℕ
owner_key = replicate 16 5

agreed : p256_shared_secret ciphers owner_key (replicate 65 4) ≡ ok (replicate 65 4)
unfolding p256_shared_secret
agreed = refl

decrypt_shared_key_reads_example :
    decrypt_shared_key ciphers owner_key (
      securebox seal
        (replicate 65 4)
        (derive_key_using_hkdf ciphers
          (replicate 65 4)
          securebox_salt
          (codes "P256 HKDF-SHA-256 AES-128-GCM"))
        (replicate 12 1)
        (1 ∷ 2 ∷ [])
        (codes "V1 shared_key"))
    ≡ ok (1 ∷ 2 ∷ [])
decrypt_shared_key_reads_example =
    decrypt_shared_key_reads ciphers seal owner_key (replicate 65 4) (replicate 12 1)
      (replicate 65 4) (1 ∷ 2 ∷ []) zeros-FillsOutput seal-Opens agreed refl refl (omega arith)
