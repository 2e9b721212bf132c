-- ===== src/Bitesize/Loading/Sorted.antt =====
-- Sorting the volumes of a service that is loaded.
use mathlib.Core.Path.{subst}
use mathlib.Core.List.{Permᴰ}
use environment_operator.Prelude.{
  Text, ◌==◌, Bool, true, false, List, [], ◌∷◌, map, some, Result, ok, err, ◌>>=◌, All, ◌≡◌, refl,
  if◌then◌else◌,
}
use environment_operator.Prelude.Sort.{IsSorted, All-permᴰ}
use environment_operator.Bitesize.Types.{Volume}
use environment_operator.Bitesize.Volumes.{find_vol_by_name, pick_volumes, sort_volumes_by_vol_name}
use environment_operator.Bitesize.Volumes.Sorting.{sort_volumes_by_vol_name-total}
use environment_operator.Bitesize.Loading.{sorted_volumes}

module _ (P : Volume → Type 0) where
  chosen :
      (taken : Bool) (u v : Volume) (rest : Result Volume)
      → P u
      → (rest ≡ ok v → P v)
      → (if taken then ok u else rest) ≡ ok v
      → P v
  chosen true u v rest p later e = let same : u ≡ v = cc in subst P same p
  chosen false u v rest p later e = later e

  All-find :
      (vs : List Volume) (name : Text) (v : Volume)
      → All P vs
      → find_vol_by_name vs name ≡ ok v
      → P v
  unfolding find_vol_by_name
  All-find [] name v h e = cc
  All-find (u ∷ us) name v h e =
      chosen (u.name == name) u v (find_vol_by_name us name) h.0 (All-find us name v h.1) e

  picked :
      (one : Result Volume) (rest : Result (List Volume)) (vs : List Volume)
      → ((v : Volume) → one ≡ ok v → P v)
      → ((us : List Volume) → rest ≡ ok us → All P us)
      → (one >>= λ v. rest >>= λ us. ok (v ∷ us)) ≡ ok vs
      → All P vs
  picked (err x) rest vs p later e = cc
  picked (ok v) (err x) vs p later e = cc
  picked (ok v) (ok us) vs p later e =
      let same : v ∷ us ≡ vs = cc in subst (All P) same (p v refl, later us refl)

  All-pick_volumes :
      (vs picks : List Volume) (names : List Text)
      → All P vs
      → pick_volumes vs names ≡ ok picks
      → All P picks
  unfolding pick_volumes
  All-pick_volumes vs picks [] h e = let same : [] ≡ picks = cc in subst (All P) same tt
  All-pick_volumes vs picks (name ∷ names) h e =
      picked (find_vol_by_name vs name) (pick_volumes vs names) picks (λ v. All-find vs name v h)
        (λ us. All-pick_volumes vs us names h) e

  All-sort_volumes_by_vol_name :
      (vs sorted : List Volume) → All P vs → sort_volumes_by_vol_name vs ≡ ok sorted → All P sorted
  unfolding sort_volumes_by_vol_name
  All-sort_volumes_by_vol_name vs sorted h e = All-pick_volumes vs sorted _ h e

abbrev pub name_of : Volume → Text
name_of v = v.name

-- The service keeps its volumes where the sorted ones are empty, and these are then empty too.
sorted_volumes-ok :
    (vs sorted : List Volume)
    → sort_volumes_by_vol_name vs ≡ ok sorted
    → Permᴰ (map name_of sorted) (map name_of vs)
    → sorted_volumes vs ≡ some sorted
unfolding sorted_volumes
sorted_volumes-ok [] [] e perm = rw (e, sorted_volumes) refl
sorted_volumes-ok (v ∷ vs) [] e perm = elim (All-permᴰ name (λ (t : Text). ⊥) perm tt).0 [ ]
  where
    name : Text → Text
    name t = t
sorted_volumes-ok vs (u ∷ us) e perm = rw (e, sorted_volumes) refl

-- Sorting always ends, and keeps what holds of all volumes.
pub sorted_volumes-total :
    (P : Volume → Type 0) (vs : List Volume)
    → All P vs
    → (sorted : List Volume) × (sorted_volumes vs ≡ some sorted)
      × All P sorted
      × IsSorted name_of sorted
sorted_volumes-total P vs h =
    let (r, e, sorted, perm) = sort_volumes_by_vol_name-total vs in
    (r, sorted_volumes-ok vs r e perm, All-sort_volumes_by_vol_name P vs r h e, sorted)
