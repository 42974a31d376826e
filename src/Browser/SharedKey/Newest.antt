-- ===== src/Browser/SharedKey/Newest.antt =====
-- The entry that extractSharedKey takes is the first of the newest ones.
use google_find_my_tools_go.Prelude.{
  ◌≡◌, refl, sym, ap, ◌∙◌, arith, Bool, true, false, List, [], ◌∷◌, ◌++◌, append_assoc, append-nil,
  get_or, drop, All, All-append, Option, none, some, if◌then◌else◌, Bool-cases, inl, inr,
}
use google_find_my_tools_go.Float64.{Float64, greater}
use google_find_my_tools_go.Json.{Members}
use google_find_my_tools_go.Browser.SharedKey.{Best, epoch_of, best_round, best_loop}

-- An entry without an epoch is older than one with an epoch.
abbrev pub below : Option Float64 → Option Float64 → Bool
below a none = false
below none (some y) = true
below (some x) (some y) = greater y x

below_trans : (a b c : Option Float64) → below a b ≡ true → below b c ≡ true → below a c ≡ true
unfolding greater
below_trans a none c h k = ground arith
below_trans a (some y) none h k = ground arith
below_trans none (some y) (some z) h k = refl
below_trans (some x) (some y) (some z) h k = ground arith

below_from : (a b c : Option Float64) → below b a ≡ false → below b c ≡ true → below a c ≡ true
unfolding greater
below_from a b none h k = ground arith
below_from none b (some z) h k = refl
below_from (some x) none (some z) h k = ground arith
below_from (some x) (some y) (some z) h k = ground arith

-- The entry stands in the list: those in front of it are older, and those behind it are not newer.
pub record IsNewest (entry : Members) (entries : List Members) : Type 0 where
  pub before : List Members
  pub after : List Members
  pub place : entries ≡ before ++ entry ∷ after
  pub older : All (λ e. below (epoch_of e) (epoch_of entry) ≡ true) before
  pub no_newer : All (λ e. below (epoch_of entry) (epoch_of e) ≡ false) after

All-imp :
    {P Q : Members → Type 0} (f : (e : Members) → P e → Q e) (es : List Members)
    → All P es
    → All Q es
All-imp f [] h = tt
All-imp f (e ∷ es) (p, ps) = (f e p, All-imp f es ps)

IsNewest-taken :
    (entry candidate : Members) (done : List Members)
    → IsNewest entry done
    → below (epoch_of entry) (epoch_of candidate) ≡ true
    → IsNewest candidate (done ++ candidate ∷ [])
IsNewest-taken entry candidate done h newer = record {
  before = done;
  after = [];
  place = refl;
  older = rw h.place (
      All-append _ h.before (entry ∷ h.after)
        (All-imp (λ e old. below_trans (epoch_of e) (epoch_of entry) (epoch_of candidate) old newer)
          h.before h.older)
        (
          newer,
          All-imp (λ e old. below_from (epoch_of e) (epoch_of entry) (epoch_of candidate) old newer)
              h.after h.no_newer,
        ));
  no_newer = tt;
}

IsNewest-kept :
    (entry candidate : Members) (done : List Members)
    → IsNewest entry done
    → below (epoch_of entry) (epoch_of candidate) ≡ false
    → IsNewest entry (done ++ candidate ∷ [])
IsNewest-kept entry candidate done h newer = record {
  before = h.before;
  after = h.after ++ candidate ∷ [];
  place =
      ap (λ es. es ++ candidate ∷ []) h.place
      ∙ append_assoc h.before (entry ∷ h.after) (candidate ∷ []);
  older = h.older;
  no_newer = All-append _ h.after (candidate ∷ []) h.no_newer (newer, tt);
}

-- A round takes the candidate just when it is newer.
best_round-taken :
    (entry candidate : Members) (o : Option Float64)
    → best_round (record { epoch = epoch_of entry; entry = entry }) candidate o ≡ (
        if below (epoch_of entry) o
        then record { epoch = o; entry = candidate }
        else record { epoch = epoch_of entry; entry = entry })
best_round-taken entry candidate none = refl
best_round-taken entry candidate (some epoch) = newer (epoch_of entry)
  where
    newer :
        (best : Option Float64)
        → best_round (record { epoch = best; entry = entry }) candidate (some epoch) ≡ (
            if below best (some epoch)
            then record { epoch = some epoch; entry = candidate }
            else record { epoch = best; entry = entry })
    newer none = refl
    newer (some x) = refl

best_loop-round :
    (best : Best) (candidate : Members) (entries : List Members)
    → best_loop best (candidate ∷ entries)
      ≡ best_loop (best_round best candidate (epoch_of candidate)) entries
unfolding best_loop
best_loop-round best candidate entries = refl

best_loop-IsNewest :
    (entries done : List Members) (entry : Members)
    → IsNewest entry done
    → IsNewest
        (best_loop (record { epoch = epoch_of entry; entry = entry }) entries).entry
        (done ++ entries)
unfolding best_loop
best_loop-IsNewest [] done entry h = rw (append-nil done) h
best_loop-IsNewest (candidate ∷ entries) done entry h =
    let step =
      best_loop-round (record { epoch = epoch_of entry; entry = entry }) candidate entries
      ∙ ap (λ b. best_loop b entries) (best_round-taken entry candidate (epoch_of candidate)) in
    elim (Bool-cases (below (epoch_of entry) (epoch_of candidate))) [
      | inl newer ↦
          rw (step, newer, ← append_assoc done (candidate ∷ []) entries)
            (best_loop-IsNewest entries (done ++ candidate ∷ []) candidate
              (IsNewest-taken entry candidate done h newer))
      | inr newer ↦
          rw (step, newer, ← append_assoc done (candidate ∷ []) entries)
            (best_loop-IsNewest entries (done ++ candidate ∷ []) entry
              (IsNewest-kept entry candidate done h newer))
    ]

-- The first round takes the first entry, or leaves it where it has no epoch.
first_round :
    (first : Members) (o : Option Float64)
    → best_round (record { epoch = none; entry = first }) first o
      ≡ record { epoch = o; entry = first }
first_round first none = refl
first_round first (some epoch) = refl

-- The loop over the entries ends with the first of the newest ones.
pub best_loop_from_first :
    (first : Members) (entries : List Members)
    → IsNewest
        (best_loop (record { epoch = none; entry = first }) (first ∷ entries)).entry
        (first ∷ entries)
best_loop_from_first first entries =
    rw
      (best_loop-round (record { epoch = none; entry = first }) first entries
        ∙ ap (λ b. best_loop b entries) (first_round first (epoch_of first)))
      (best_loop-IsNewest entries (first ∷ []) first
        (record { before = []; after = []; place = refl; older = tt; no_newer = tt }))

All-at :
    (P : Members → Type 0) (before : List Members) (e : Members) (after : List Members)
    → All P (before ++ e ∷ after)
    → P e
All-at P [] e after h = h.0
All-at P (b ∷ before) e after h = All-at P before e after h.1

absurd_bool : {A : Type 0} → true ≡ false → A
absurd_bool h = ground arith

-- A list has one such entry.
newest_unique :
    (before before' : List Members) (e e' : Members) (after after' : List Members)
    → before ++ e ∷ after ≡ before' ++ e' ∷ after'
    → All (λ x. below (epoch_of x) (epoch_of e) ≡ true) before
    → All (λ x. below (epoch_of x) (epoch_of e') ≡ true) before'
    → All (λ x. below (epoch_of e) (epoch_of x) ≡ false) after
    → All (λ x. below (epoch_of e') (epoch_of x) ≡ false) after'
    → e ≡ e'
newest_unique [] [] e e' after after' same older older' newer newer' = ap (λ es. get_or es 0 e) same
newest_unique [] (x ∷ before') e e' after after' same older older' newer newer' =
    let clash = All-at _ before' e' after' (rw (ap (drop 1) same) at newer) in
    let first = ap (λ es. get_or es 0 e) same in
    absurd_bool (sym (rw (← first) at older'.0) ∙ clash)
newest_unique (x ∷ before) [] e e' after after' same older older' newer newer' =
    let clash = All-at _ before e after (rw (← (ap (drop 1) same)) at newer') in
    let first = ap (λ es. get_or es 0 e) same in absurd_bool (sym (rw first at older.0) ∙ clash)
newest_unique (x ∷ before) (x' ∷ before') e e' after after' same older older' newer newer' =
    newest_unique before before' e e' after after' (ap (drop 1) same) older.1 older'.1 newer newer'

pub IsNewest-unique :
    (e e' : Members) (entries : List Members) → IsNewest e entries → IsNewest e' entries → e ≡ e'
IsNewest-unique e e' entries h h' =
    newest_unique h.before h'.before e e' h.after h'.after (sym h.place ∙ h'.place) h.older h'.older
      h.no_newer h'.no_newer
