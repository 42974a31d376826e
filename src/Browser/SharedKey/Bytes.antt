-- ===== src/Browser/SharedKey/Bytes.antt =====
-- What extractSharedKey returns: the bytes that the newest entry holds.
use google_find_my_tools_go.Prelude.{
  ℕ, ltb, ◌*◌, ◌/◌, ◌%◌, ◌&&◌, ◌==◌, zero, suc, ◌<◌, ◌≡◌, refl, ap, arith, Bool, true, false, not,
  ◌||◌, List, [], ◌∷◌, All, length, length-append, Option, none, some, if◌then◌else◌, Result, ok,
  err, wrap_err, bind-ok, wrap_err-ok, ok-injective, ◌↔◌,
}
use google_find_my_tools_go.Bytes.{codes}
use google_find_my_tools_go.Decimal.{format_decimal}
use google_find_my_tools_go.Float64.{Float64, whole, magnitude, unit}
use google_find_my_tools_go.Json.{
  Value, Members, null, boolean, text, array, object, number, find_member,
}
use google_find_my_tools_go.Browser.SharedKey.{
  VaultJson, Vault, KeyError, parse_vault_keys, unquoted, entries_of, best_loop, object_in,
  members_or_error, is_no_byte, invalid_key_byte, key_byte, key_bytes, key_of_entries,
  extract_shared_key,
}
use google_find_my_tools_go.Browser.SharedKey.Newest.{
  IsNewest, best_loop_from_first, IsNewest-unique,
}

-- The member with the number i as its name is the byte b.
abbrev pub HoldsByte : Members → ℕ → ℕ → Type 0
HoldsByte ms i b =
    (x : Float64) × (find_member (format_decimal i) ms ≡ some (number x))
    × (is_no_byte x ≡ false)
    × (whole x ≡ b)

-- The members with the numbers from i as their names are the bytes of a key.
abbrev pub HoldsKey : Members → ℕ → List ℕ → Type 0
HoldsKey ms i [] = Unit {0}
HoldsKey ms i (b ∷ key) = HoldsByte ms i b × HoldsKey ms (suc i) key

checked-ok :
    (t : Bool) (e : KeyError) (n b : ℕ)
    → ◌≡◌ {A = Result KeyError ℕ} (if t then err e else ok n) (ok b)
    → (t ≡ false) × (n ≡ b)
checked-ok true e n b h = ground arith
checked-ok false e n b h = (refl, ok-injective n b h)

key_byte-ok :
    (i : ℕ) (o : Option Value) (b : ℕ)
    → key_byte i o ≡ ok b
    → (x : Float64) × (o ≡ some (number x)) × (is_no_byte x ≡ false) × (whole x ≡ b)
key_byte-ok i (some (number x)) b h =
    let (fits, same) = checked-ok (is_no_byte x) (invalid_key_byte i) (whole x) b h in
    (x, refl, fits, same)
key_byte-ok i (some _) b h = ground arith
key_byte-ok i none b h = ground arith

key_bytes-HoldsKey :
    (n i : ℕ) (ms : Members) (key : List ℕ)
    → key_bytes n i ms ≡ ok key
    → (length key ≡ n) × HoldsKey ms i key
unfolding key_bytes
key_bytes-HoldsKey zero i ms [] h = (refl, tt)
key_bytes-HoldsKey zero i ms (b ∷ key) h = ground arith
key_bytes-HoldsKey (suc n) i ms key h =
    let (b, (reads, rest)) = bind-ok (key_byte i (find_member (format_decimal i) ms)) _ key h in
    let (bytes, (more, same)) = bind-ok (key_bytes n (suc i) ms) _ key rest in
    let (size, holds) = key_bytes-HoldsKey n (suc i) ms bytes more in
    let held = key_byte-ok i (find_member (format_decimal i) ms) b reads in
    rw (← (ok-injective (b ∷ bytes) key same)) (ap suc size, (held, holds))

-- A key that the members hold is read.
key_bytes-held :
    (i : ℕ) (ms : Members) (key : List ℕ) → HoldsKey ms i key → key_bytes (length key) i ms ≡ ok key
unfolding key_bytes
key_bytes-held i ms [] h = refl
key_bytes-held i ms (b ∷ key) ((x, found, fits, same), holds) =
    rw (found, fits, same, key_bytes-held (suc i) ms key holds) refl

-- The key of a vault: its bytes are held by the first of the newest entries for finder_hw.
pub record IsSharedKey (json : VaultJson) (vault_keys key : List ℕ) : Type 0 where
  pub payload : List ℕ
  pub vault : Vault
  pub entry : Members
  pub members : Members
  pub opened : unquoted json vault_keys ≡ ok payload
  pub reads_vault : json.unmarshal_vault payload ≡ ok vault
  pub newest : IsNewest entry (entries_of (codes "finder_hw") vault)
  pub holder : find_member (codes "key") entry ≡ some (object members)
  pub holds : HoldsKey members 0 key
  pub size : length key ≡ 32

object_in-ok :
    (o : Option Value) (ms : Members)
    → members_or_error (object_in o) ≡ ok ms
    → o ≡ some (object ms)
object_in-ok (some (object ms')) ms h = cc
object_in-ok (some null) ms h = ground arith
object_in-ok (some (boolean b)) ms h = ground arith
object_in-ok (some (number x)) ms h = ground arith
object_in-ok (some (text s)) ms h = ground arith
object_in-ok (some (array vs)) ms h = ground arith
object_in-ok none ms h = ground arith

key_of_entries-ok :
    (entries : List Members) (key : List ℕ)
    → key_of_entries entries ≡ ok key
    → (entry : Members) × (ms : Members) × IsNewest entry entries
      × (find_member (codes "key") entry ≡ some (object ms))
      × HoldsKey ms 0 key
      × (length key ≡ 32)
unfolding key_of_entries
key_of_entries-ok [] key h = ground arith
key_of_entries-ok (first ∷ entries) key h =
    let best = (best_loop (record { epoch = none; entry = first }) (first ∷ entries)).entry in
    let (ms, (has, reads)) =
      bind-ok (members_or_error (object_in (find_member (codes "key") best))) (key_bytes 32 0) key
        h in
    let (size, holds) = key_bytes-HoldsKey 32 0 ms key reads in
    (best, ms, best_loop_from_first first entries, object_in-ok _ ms has, holds, size)

extract_shared_key-IsSharedKey :
    (json : VaultJson) (vault_keys key : List ℕ)
    → extract_shared_key json vault_keys ≡ ok key
    → IsSharedKey json vault_keys key
unfolding extract_shared_key
extract_shared_key-IsSharedKey json vault_keys key h =
    let (payload, (opened, rest)) = bind-ok (unquoted json vault_keys) _ key h in
    let (vault, (parses, last)) =
      bind-ok (wrap_err parse_vault_keys (json.unmarshal_vault payload)) _ key rest in
    let (entry, ms, newest, holder, holds, size) =
      key_of_entries-ok (entries_of (codes "finder_hw") vault) key last in
    record {
      payload = payload;
      vault = vault;
      entry = entry;
      members = ms;
      opened = opened;
      reads_vault = wrap_err-ok parse_vault_keys (json.unmarshal_vault payload) vault parses;
      newest = newest;
      holder = holder;
      holds = holds;
      size = size;
    }

key_of_entries-held :
    (entries : List Members) (entry ms : Members) (key : List ℕ)
    → IsNewest entry entries
    → find_member (codes "key") entry ≡ some (object ms)
    → HoldsKey ms 0 key
    → length key ≡ 32
    → key_of_entries entries ≡ ok key
unfolding key_of_entries
key_of_entries-held [] entry ms key newest holder holds size =
    ground (arith, ap length newest.place, length-append newest.before (entry ∷ newest.after))
key_of_entries-held (first ∷ entries) entry ms key newest holder holds size =
    rw
      (
        IsNewest-unique _ entry (first ∷ entries) (best_loop_from_first first entries) newest,
        holder,
        ← size,
        key_bytes-held 0 ms key holds,
      )
      refl

-- extractSharedKey returns a key just when it has 32 bytes that are the members 0 to 31 of the
-- key of the first of the newest entries for finder_hw: no other entry has a greater epoch, and
-- those in front of it have a smaller one or none. The payload may stand in a string.
pub extract_shared_key_iff :
    (json : VaultJson) (vault_keys key : List ℕ)
    → (extract_shared_key json vault_keys ≡ ok key) ↔ IsSharedKey json vault_keys key
unfolding extract_shared_key
extract_shared_key_iff json vault_keys key = (
  extract_shared_key-IsSharedKey json vault_keys key,
  λ h.
      rw
        (
          h.opened,
          h.reads_vault,
          key_of_entries-held (entries_of (codes "finder_hw") h.vault) h.entry h.members key
              h.newest h.holder h.holds h.size,
        )
        refl,
)

unit_quotient : (m : ℕ) → m < 256 * unit → m / unit < 256
unit_quotient m h = omega arith

in_range :
    (negative : Bool) (m : ℕ)
    → (not (m % unit == 0) || negative && not (m == 0) || not negative && ltb (255 * unit) m)
      ≡ false
    → m < 256 * unit
in_range true m h = ground arith
in_range false m h = ground arith

-- A number that is taken for a byte is below 256.
whole_small : (x : Float64) → is_no_byte x ≡ false → whole x < 256
whole_small x h = unit_quotient (magnitude x) (in_range x.negative (magnitude x) h)

pub HoldsKey-All :
    (ms : Members) (i : ℕ) (key : List ℕ) → HoldsKey ms i key → All (λ b. b < 256) key
HoldsKey-All ms i [] h = tt
HoldsKey-All ms i (b ∷ key) ((x, found, fits, same), holds) =
    (rw same at (whole_small x fits), HoldsKey-All ms (suc i) key holds)
