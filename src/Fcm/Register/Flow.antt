-- ===== src/Fcm/Register/Flow.antt =====
-- FCMCredentials, GenerateKeys, Register and RegistrationToken of
-- pkg/googlefindmy/fcm/register.go, over encoding/json, ecdsa, x509 and base64.
use google_find_my_tools_go.Prelude.{
  ℕ, zero, suc, Bool, true, false, not, ◌&&◌, List, [], ◌∷◌, ◌++◌, Option, none, some, drop, ◌==◌,
  if◌then◌else◌, Result, ok, err,
}
use google_find_my_tools_go.Bytes.{is_empty}
use google_find_my_tools_go.GoErrors.{GoError, message, wrapped}
use google_find_my_tools_go.Actions.{Action, return, ◌>>=◌, ◌>>◌, wrap_action, pure_result}
use google_find_my_tools_go.Fcm.Register.Config.{Config, default_config}
use google_find_my_tools_go.Fcm.Register.Gcm.{
  Outside, CheckinCodec, CheckinResponse, GcmCredentials, gcm_checkin, gcm_register_with_retry,
}
use google_find_my_tools_go.Fcm.Register.Install.{
  Keys, Installation, InstallCodec, fcm_install, fcm_register,
}
pub mod Token

pub record FcmConfig : Type 0 where
  pub bundle_id : List ℕ
  pub project_id : List ℕ
  pub vapid_key : List ℕ

-- FCMCredentials; fcm is the raw JSON.
pub record Credentials : Type 0 where
  pub keys : Keys
  pub gcm : GcmCredentials
  pub fcm : List ℕ
  pub config : FcmConfig

-- A new P-256 key in the encodings of PKCS 8 and of SubjectPublicKeyInfo, the latter with a point
-- of 65 bytes behind its header of 26.
pub record KeyPair : Type 0 where
  pub private_der : Result GoError (List ℕ)
  pub public_der : Result GoError (List ℕ)

-- base64.URLEncoding, json.Marshal of an installation, json.Marshal of the object of a registration
-- and an installation, and json.Unmarshal into the nested and into the flat shape of the token.
pub record FlowCodec : Type 0 where
  pub base64_url : List ℕ → List ℕ
  pub marshal_installation : Installation → Result GoError (List ℕ)
  pub marshal_fcm : List ℕ → List ℕ → Result GoError (List ℕ)
  pub nested_token : List ℕ → Result GoError (List ℕ)
  pub flat_token : List ℕ → Result GoError (List ℕ)

abbrev pub flat_or_empty : Result GoError (List ℕ) → List ℕ
flat_or_empty (ok token) = token
flat_or_empty (err e) = []

abbrev pub nested_or_flat : FlowCodec → List ℕ → Result GoError (List ℕ) → List ℕ
nested_or_flat codec fcm (ok []) = flat_or_empty (codec.flat_token fcm)
nested_or_flat codec fcm (ok (b ∷ token)) = b ∷ token
nested_or_flat codec fcm (err e) = flat_or_empty (codec.flat_token fcm)

-- RegistrationToken, on the field FCM of the credentials.
unfoldable pub registration_token : FlowCodec → List ℕ → List ℕ
registration_token codec fcm =
    if is_empty fcm then [] else nested_or_flat codec fcm (codec.nested_token fcm)

module _ {ℓ} {S : Type ℓ} (outside : Outside S) (generate_key : Action S GoError KeyPair)
    (checkins : CheckinCodec) (installs : InstallCodec) (codec : FlowCodec) where
  unfoldable pub generate_keys : Action S GoError Keys
  generate_keys = wrap_action (wrapped "generate p256 key") generate_key >>= λ pair.
      wrap_action (wrapped "marshal private key") (pure_result pair.private_der) >>= λ private_der.
      wrap_action (wrapped "marshal public key") (pure_result pair.public_der) >>= λ public_der.
      wrap_action (wrapped "generate secret") (outside.read_random 16) >>= λ secret.
      return (record {
        public_key = codec.base64_url (drop 26 public_der);
        private_key = codec.base64_url private_der;
        secret = codec.base64_url secret;
      })

  abbrev pub credentials_of : Config → Keys → GcmCredentials → List ℕ → Credentials
  credentials_of cfg keys gcm fcm = record {
    keys = keys;
    gcm = gcm;
    fcm = fcm;
    config = record {
      bundle_id = cfg.bundle_id;
      project_id = cfg.project_id;
      vapid_key = cfg.vapid_key;
    };
  }

  -- The steps of register, the last one first: each goes on with what the calls before it returned.
  unfoldable pub assemble :
      Config → Keys → GcmCredentials → Installation → List ℕ → Action S GoError Credentials
  assemble cfg keys gcm install registration =
      wrap_action (wrapped "marshal installation")
        (pure_result (codec.marshal_installation install))
      >>= λ raw.
          wrap_action (wrapped "marshal fcm credentials")
            (pure_result (codec.marshal_fcm registration raw))
          >>= λ fcm. return (credentials_of cfg keys gcm fcm)

  abbrev pub register_installed :
      Config → GcmCredentials → Keys → Installation → Action S GoError Credentials
  register_installed cfg gcm keys install =
      wrap_action (wrapped "fcm register") (fcm_register outside installs cfg gcm install keys)
      >>= assemble cfg keys gcm install

  abbrev pub register_with_keys : Config → GcmCredentials → Keys → Action S GoError Credentials
  register_with_keys cfg gcm keys =
      wrap_action (wrapped "fcm install") (fcm_install outside installs cfg)
      >>= register_installed cfg gcm keys

  abbrev pub register_gcm : Config → GcmCredentials → Action S GoError Credentials
  register_gcm cfg gcm =
      wrap_action (wrapped "generate keys") generate_keys >>= register_with_keys cfg gcm

  abbrev pub register_device : Config → CheckinResponse → Action S GoError Credentials
  register_device cfg device =
      wrap_action (wrapped "gcm register")
        (gcm_register_with_retry outside checkins cfg device.android_id device.security_token)
      >>= register_gcm cfg

  unfoldable pub register_at : Config → Action S GoError Credentials
  register_at cfg =
      wrap_action (wrapped "gcm checkin") (gcm_checkin outside checkins cfg 0 0)
      >>= register_device cfg

  -- Register
  unfoldable pub register : Action S GoError Credentials
  unfolding register_at
  register = register_at default_config
