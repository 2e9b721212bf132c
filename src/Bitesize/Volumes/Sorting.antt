-- ===== src/Bitesize/Volumes/Sorting.antt =====
-- Sorting volumes by name never fails, keeps the number of volumes, and is the plain sort where no
-- two volumes have one name.
use mathlib.Core.List.{Permᴰ}
use mathlib.Core.List.Permᴰ
use environment_operator.Prelude.{
  Text, ◌==◌, ==_iff, ==_refl, false, List, [], ◌∷◌, map, ok, ◌≡◌, refl, Bool-cases, inl, inr, All,
  less,
}
use environment_operator.Prelude.Sort.{
  sort_by, IsSorted, sort_by-IsSorted, sort_by-permᴰ, All-permᴰ,
}
use environment_operator.Bitesize.Types.{Volume}
use environment_operator.Bitesize.Volumes.{find_vol_by_name, pick_volumes, sort_volumes_by_vol_name}

abbrev name_of : Volume → Text
name_of v = v.name

module _ (vs : List Volume) where
  -- A name that is looked up is found, as the name of the volume.
  abbrev IsFound : Text → Type 0
  IsFound k = (v : Volume) × (find_vol_by_name vs k ≡ ok v) × (v.name ≡ k)

  pick_volumes-names :
      (ks : List Text)
      → All IsFound ks
      → (r : List Volume) × (pick_volumes vs ks ≡ ok r) × (map name_of r ≡ ks)
  unfolding pick_volumes
  pick_volumes-names [] h = ([], refl, refl)
  pick_volumes-names (k ∷ ks) h =
      let (v, ev, en) = h.0 in
      let (r, er, em) = pick_volumes-names ks h.1 in (v ∷ r, rw (ev, er), cc)

IsFound-cons : (v : Volume) (vs : List Volume) (k : Text) → IsFound vs k → IsFound (v ∷ vs) k
unfolding find_vol_by_name
IsFound-cons v vs k (u, e, n) = elim (Bool-cases (v.name == k)) [
  | inl h ↦ (v, rw h, (==_iff v.name k).0 h)
  | inr h ↦ (u, rw h e, n)
]

IsFound-head : (v : Volume) (vs : List Volume) → IsFound (v ∷ vs) v.name
unfolding find_vol_by_name
IsFound-head v vs = (v, rw (==_refl v.name), refl)

All-IsFound-cons :
    (v : Volume) (vs : List Volume) (ks : List Text)
    → All (IsFound vs) ks
    → All (IsFound (v ∷ vs)) ks
All-IsFound-cons v vs [] h = tt
All-IsFound-cons v vs (k ∷ ks) h = (IsFound-cons v vs k h.0, All-IsFound-cons v vs ks h.1)

All-IsFound : (vs : List Volume) → All (IsFound vs) (map name_of vs)
All-IsFound [] = tt
All-IsFound (v ∷ vs) = (IsFound-head v vs, All-IsFound-cons v vs (map name_of vs) (All-IsFound vs))

-- Sorting volumes never fails: the result's names are the volumes' names, sorted, and each as often.
pub sort_volumes_by_vol_name-total :
    (vs : List Volume)
    → (r : List Volume) × (sort_volumes_by_vol_name vs ≡ ok r)
      × IsSorted (λ (v : Volume). v.name) r
      × Permᴰ (map (λ (v : Volume). v.name) r) (map (λ (v : Volume). v.name) vs)
unfolding sort_volumes_by_vol_name
sort_volumes_by_vol_name-total vs =
    let names = sort_by (λ (k : Text). k) (map name_of vs) in
    let found = All-IsFound vs in
    let perm = sort_by-permᴰ (λ (k : Text). k) (map name_of vs) in
    let (r, e, en) =
      pick_volumes-names vs names
        (All-permᴰ (λ (k : Text). k) (IsFound vs) (Permᴰ.symm perm) found) in
    (
      r,
      e,
      sorted r (rw (← en) at (sort_by-IsSorted (λ (k : Text). k) (map name_of vs))),
      rw en perm,
    )
  where
    above_all :
        (v : Volume) (r : List Volume)
        → All (λ k. less k v.name ≡ false) (map name_of r)
        → All (λ (u : Volume). less u.name v.name ≡ false) r
    above_all v [] h = tt
    above_all v (u ∷ r) h = (h.0, above_all v r h.1)

    sorted : (r : List Volume) → IsSorted (λ (k : Text). k) (map name_of r) → IsSorted name_of r
    sorted [] h = tt
    sorted (v ∷ r) h = (above_all v r h.0, sorted r h.1)
