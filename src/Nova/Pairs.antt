-- ===== src/Nova/Pairs.antt =====
-- CanonicIDs of pkg/googlefindmy/nova/nova.go pairs each device's name with its ids, device by
-- device.
use google_find_my_tools_go.Prelude.{
  ℕ, ◌≡◌, sym, ap, ◌∙◌, List, [], ◌∷◌, ◌++◌, map, append_assoc, append-nil,
}
use google_find_my_tools_go.Nova.{
  DeviceMetadata, CanonicId, append_ids, ids_of, canonic_loop, canonic_ids,
}

abbrev named : List ℕ → List ℕ → CanonicId
named name id = record { name = name; id = id }

-- The pairs of the devices, one after another.
unfoldable pub pairs_of : List DeviceMetadata → List CanonicId
pairs_of [] = []
pairs_of (d ∷ ds) = map (named d.user_defined_name) (ids_of d) ++ pairs_of ds

append_ids-map :
    (name : List ℕ) (out : List CanonicId) (ids : List (List ℕ))
    → append_ids name out ids ≡ out ++ map (named name) ids
unfolding append_ids
append_ids-map name out [] = sym (append-nil out)
append_ids-map name out (id ∷ ids) =
    append_ids-map name (out ++ named name id ∷ []) ids
    ∙ append_assoc out (named name id ∷ []) (map (named name) ids)

canonic_loop-pairs :
    (out : List CanonicId) (ds : List DeviceMetadata) → canonic_loop out ds ≡ out ++ pairs_of ds
unfolding canonic_loop pairs_of
canonic_loop-pairs out [] = sym (append-nil out)
canonic_loop-pairs out (d ∷ ds) =
    canonic_loop-pairs (append_ids d.user_defined_name out (ids_of d)) ds
    ∙ ap (λ o. o ++ pairs_of ds) (append_ids-map d.user_defined_name out (ids_of d))
    ∙ append_assoc out (map (named d.user_defined_name) (ids_of d)) (pairs_of ds)

-- CanonicIDs gives the pairs of every device, in order: those of an Android phone are its phone's
-- ids.
pub canonic_ids-pairs_of : (ds : List DeviceMetadata) → canonic_ids ds ≡ pairs_of ds
unfolding canonic_ids
canonic_ids-pairs_of ds = canonic_loop-pairs [] ds
