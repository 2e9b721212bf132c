-- ===== src/Translator/Claims.antt =====
-- The claims of a service, read back from the cluster.
use environment_operator.Prelude.{
  ℕ, Text, text_at, lookup, to_lower, ◌==◌, eqb, Bool, false, ◌&&◌, ◌||◌, List, [], ◌∷◌, Option,
  some, ◌≡◌, refl, ap, ok, ==_refl, sym, eqb_iff, ◌∙◌, arith, Bool-cases, inl, inr,
}
use environment_operator.Bitesize.Types.{Service, Volume}
use environment_operator.Prelude.Sort.{sort_by}
use environment_operator.Bitesize.Volumes.{
  has_manual_provisioning, sort_volumes_by_vol_name, pick_volumes, find_vol_by_name,
}
use environment_operator.Bitesize.Zero.{no_volume}
use environment_operator.Cluster.Scrape.Objects.{KubeClaim}
use environment_operator.Cluster.Scrape.Containers.{access_modes}
use environment_operator.Cluster.Scrape.{
  deref, slashes, more_volumes, with_volumes, add_volume_claim,
}
use environment_operator.Translator.Objects.{ClaimObject}
use environment_operator.Translator.Strings.{escape}
use environment_operator.Translator.Metadata.{access_modes_from}
use environment_operator.Translator.Volumes.{claim_meta, claim_of}

abbrev starts_escaped : Text → Bool
starts_escaped [] = false
starts_escaped (b ∷ s) = eqb b b'F'

-- Whether the text has a 2 and an F behind it.
abbrev pub has_escape : Text → Bool
has_escape [] = false
has_escape (a ∷ s) = (eqb a b'2' && starts_escaped s) || has_escape s

slashes-cons :
    (a : ℕ) (s : Text) → (eqb a b'2' && starts_escaped s) ≡ false → slashes (a ∷ s) ≡ a ∷ slashes s
unfolding slashes
slashes-cons a [] h = refl
slashes-cons a (b ∷ s) h = rw (h, slashes) refl

starts_escaped-escape : (s : Text) → starts_escaped (escape s) ≡ starts_escaped s
unfolding escape
starts_escaped-escape [] = refl
starts_escaped-escape (b ∷ s) = ground arith

-- A path is read back from the label, unless it has the escape of a slash in it.
slashes-escape : (s : Text) → has_escape s ≡ false → slashes (escape s) ≡ s
unfolding escape slashes
slashes-escape [] h = refl
slashes-escape (a ∷ s) h = elim (Bool-cases (eqb a b'/')) [
  | inl e ↦
      let same : a ≡ b'/' = (eqb_iff a b'/').0 e in
      let ih : slashes (escape s) ≡ s = slashes-escape s (ground arith) in
      rw (e, escape, slashes, ih) (ap (λ (c : ℕ). c ∷ s) (sym same))
  | inr e ↦
      let ih : slashes (escape s) ≡ s = slashes-escape s (ground arith) in
      let kept : (eqb a b'2' && starts_escaped (escape s)) ≡ false =
        rw (starts_escaped-escape s) (ground arith) in
      rw (e, escape) (slashes-cons a (escape s) kept ∙ rw ih refl)
]

-- The claim as the cluster lists it.
abbrev pub seen_claim : ClaimObject → KubeClaim
seen_claim k = record { name = k.meta.name; labels = k.meta.labels; access_modes = k.access_modes }

abbrev pub claimed : Volume → Volume
claimed v = record no_volume {
  name = v.name;
  path = v.path;
  size = v.size;
  type = to_lower v.type;
  modes = access_modes (access_modes_from v.modes);
}

sort_one : (v : Volume) → sort_volumes_by_vol_name (v ∷ []) ≡ ok (v ∷ [])
unfolding sort_volumes_by_vol_name pick_volumes find_vol_by_name sort_by
sort_one v = rw (==_refl v.name) refl

more_volumes-one : (v : Volume) → more_volumes [] (v ∷ []) ≡ some (v ∷ [])
unfolding more_volumes
more_volumes-one v = rw (sort_one v, more_volumes) refl

seen_claim-claim_of :
    (namespace name quantity : Text) (v : Volume)
    → seen_claim (claim_of namespace name quantity v) ≡ record {
      name = v.name;
      labels = (claim_meta namespace name v).labels;
      access_modes = access_modes_from v.modes;
    }
unfolding claim_of
seen_claim-claim_of namespace name quantity v = elim (Bool-cases (has_manual_provisioning v)) [
  | inl e ↦ rw e refl
  | inr e ↦ rw e refl
]

-- A claim is read back, into an entry without volumes, as a volume of the same name, path and size,
-- of the type in lower case, unless the path has the escape of a slash in it.
pub add_volume_claim-claim_of :
    (namespace name quantity : Text) (v : Volume) (s : Service)
    → has_escape v.path ≡ false
    → s.volumes ≡ []
    → add_volume_claim (seen_claim (claim_of namespace name quantity v)) s
      ≡ some (with_volumes (claimed v ∷ []) s)
unfolding add_volume_claim text_at lookup ◌==◌
add_volume_claim-claim_of namespace name quantity v s h e =
    ap (λ (k : KubeClaim). add_volume_claim k s) (seen_claim-claim_of namespace name quantity v)
    ∙ ap (λ (path : Text). read (record (claimed v) { path = path }) s.volumes)
        (slashes-escape v.path h)
    ∙ ap (read (claimed v)) e
    ∙ ap put (more_volumes-one (claimed v))
  where
    put : Option (List Volume) → Option Service
    put o = deref o λ vs. some (with_volumes vs s)

    read : Volume → List Volume → Option Service
    read w old = put (more_volumes old (w ∷ []))
