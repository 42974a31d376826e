-- ===== src/Lib.antt =====
-- google-find-my-tools-go: a Go library for Google's Find My Device network (pkg/googlefindmy).
--
-- What is modelled, and where:
-- * Crypto (pkg/googlefindmy/crypto). Crypto.Eax is eax.go: `cmac`, `eax_omac`, `encrypt_eax`,
--   `decrypt_eax` and `aes_ecb_encrypt` are cmac, eaxOMAC, EncryptEAX, DecryptEAX and
--   aesECBEncrypt. Crypto.Curve is secp160r1.go (`point_from_x` is PointFromX), Crypto.Eid is
--   eid.go (`calculate_r`, `generate_eid`), Crypto.ForeignTracker is foreigntracker.go,
--   Crypto.Fmdn is fmdn.go, and Crypto.KeyBackup is keybackup.go with gcmDecrypt, gcmDecryptAD
--   and DecryptOwnReport. Crypto.Aes and Crypto.BigInt are the parts of crypto/aes, crypto/cipher
--   and math/big that these use.
-- * Grpc (pkg/googlefindmy/grpc/grpc.go): `wrap`, `unwrap` and `read_frame`.
-- * Fcm (pkg/googlefindmy/fcm/push.go), the client of the MCS connection over which pushes
--   arrive. Fcm.Varint has encodeVarint32 and decodeVarint32, Fcm.Message the tags of the
--   messages, Fcm.PushCrypto newPushCrypto and decrypt, Fcm.Client the state of MCSClient with
--   sendMsg, readMsg, sendSelectiveAck and Close, Fcm.Session handleDataMessage and Listen, and
--   Fcm.Session.Run Connect and Run.
-- * Fcm.Retry (pkg/googlefindmy/fcm/register.go): isTransient and retryWith. Fcm.Register is the
--   rest of that file: Config the configuration, normalizeCertSHA1, addAndroidHeaders and
--   parseExpiresIn; Flex flexUint64; Gcm `gcm_checkin`, `gcm_register` and `checkin`; Install
--   `fcm_install` and `fcm_register`; Flow `generate_keys`, `register` and `registration_token`.
-- * HttpBody (pkg/googlefindmy/internal/httpbody/httpbody.go): `truncate`, `redact` and `safe`.
-- * Auth.Store (pkg/googlefindmy/auth/store.go): Store with `load`, `save`, `update`, `exists`
--   and `clear`, over the files behind each file operation, and whether f.Sync has put their
--   bytes on the disk. What a rename loses without the sync of the directory is left out.
-- * Auth.Gpsoauth (pkg/googlefindmy/auth/gpsoauth.go): `exchange_oauth_token` and
--   `request_scope_token`.
-- * Chrome (pkg/googlefindmy/chrome). Chrome.Launch is chrome.go: `init_flags` and
--   `allocator_options`. Chrome.Profile is profile.go and pidalive_unix.go:
--   `check_profile_free`.
-- * Browser (pkg/googlefindmy/browser/oauth.go). Browser.Flow has `run_oauth_flow` and
--   `request_shared_key`, Browser.SharedKey `extract_shared_key`.
-- * Nova (pkg/googlefindmy/nova/nova.go): `list_devices`, `locate` and `canonic_ids`.
-- * Spot (pkg/googlefindmy/spot). Spot.Client is spot.go: `request` puts a message in the frame
--   of Grpc, `get_eid_info_for_e2ee_devices` asks for the owner key. Spot.OwnerKey is
--   ownerkey.go: `get_owner_key` joins Auth.Store, Auth.Gpsoauth, Spot.Client and
--   Crypto.KeyBackup.
-- * Maps (pkg/googlefindmy/maps). Maps.Login is AuthenticateMaps of maps.go, which checks the
--   profile and saves the cookies in Auth.Store, and LoadMapsCookies of savedplaces/cookies.go;
--   Maps.Client has the Client of maps.go with `call_api` and `get_state`, Maps.Contacts
--   `parse_contacts`. Maps.SavedPlaces is savedplaces: Specs has `parse_list_specs` and
--   `extract_list_id`, Entities `parse_entity_list`, Fetch `fetch_list` and `fetch_lists`,
--   Discovery `discover_list_specs`, over a `Browser` that Page makes of the steps on the page
--   (`open_saved_lists`, `discover_list_names`, `click_saved_list`), over chromedp.
-- * GoErrors, Stream, BigEndian, Bytes, Text, Decimal, Hex, Float64, Url, Json and Http are what
--   the program uses of Go's errors, io, encoding/binary, byte strings, strings, strconv,
--   encoding/hex, floating-point numbers, net/url, encoding/json and net/http. Actions has the
--   calls that change a state outside and return a result. Prelude has the shared names and
--   lemmas.
--
-- How the code is read. A function that returns (value, error) returns a Result; a method takes
-- its object and returns the object afterwards. A byte is a number below 256 and a slice a list.
-- What the peer sends is a Stream: bytes, and errors that a read meets between them; past its end
-- every read meets io.EOF. A connection's writes are a list of what each call of Write does. What
-- other goroutines and the clock do to Listen and Run is given a round at a time (`Tick`,
-- `Attempt`, `Round`). The mutex of MCSClient is not modelled: a method is one step of its state.
-- A call of the network, the browser or the operating system is an Action: it takes and returns
-- the state outside. A request is a record, and a Network answers it with a response or an error.
-- A time.Duration of retryWith is its int64 pattern, a number below 2 ^ 64: it wraps around where
-- the code doubles it, and rand.Int64N panics on a half that is not positive.
--
-- Parameters, for code that is not in the repository: `BlockCipher` (AES on one block),
-- `Multiplication` (the multiples of a point, crypto/elliptic), `Hkdf`, `Primitives` (base64,
-- x509, ECDH, HKDF and AES-GCM for pushes), `Ciphers` (the same for the key backup), `Codec`
-- (protobuf), `Json`, `Network`, `Outside` (the network, the clock and random numbers of the
-- registration), `Browser` and `Chromedp` (chromedp), `System` (the lock of a profile) and the
-- codecs of the messages. Where a theorem relies on more than their types it says so:
-- `Agreement` is the Diffie-Hellman property of two scalars, `FillsOutput` the length of
-- HKDF's output, `Inverse` and `Opens` that AES and AES-GCM decrypt what they encrypt,
-- `ReadsBack` that protobuf reads its own bytes, `KeepsOwnerKey` that the document of the
-- store gives an owner key in ASCII back, `Nests` that JSON keeps the token of a registration
-- in its place, `Agrees` that a sender of pushes derives the receiver's secret and keys and
-- that AES-GCM opens what it sealed, `Sets` that chromedp.Flag sets the flag of its name and
-- no other. Log calls are left out.
--
-- Loops are structural, or recursion on accessibility where a number shrinks (`encode_loop`,
-- `mod_pow_loop`). `digits_loop` of Decimal runs over at most 20 digits, which a uint64 does not
-- exceed, and over 309 for a float64. Listen, Run and the polling of AuthenticateMaps,
-- RunOAuthFlow and RequestSharedKey run over the rounds that they are given, and say when they
-- are still running; retryWith and retry run over their attempts.
--
-- Not modelled: the browser itself (which elements of a page a selector of
-- savedplaces/discovery.go finds, and the scripts of browser/oauth.go), an external program; the
-- constructor of HTTP clients (httpclient); processAlive of pidalive_other.go, which is constantly
-- false; HMACSHA256, a call of crypto/hmac; the generated protobuf code; and logging.
pub mod Prelude
pub mod GoErrors
pub mod Stream
pub mod BigEndian
pub mod Grpc
pub mod Bytes
pub mod Text
pub mod Url
pub mod Float64
pub mod Json
pub mod Maps
pub mod Decimal
pub mod Hex
pub mod Crypto
pub mod Fcm
pub mod Actions
pub mod Http
pub mod HttpBody
pub mod Auth
pub mod Chrome
pub mod Spot
pub mod Browser
pub mod Nova
