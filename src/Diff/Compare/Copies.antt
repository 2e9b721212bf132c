-- ===== src/Diff/Compare/Copies.antt =====
-- A copy of a blue/green service against what is read back of it.
use environment_operator.Prelude.{
  Text, lookup, Bool, true, false, ◌&&◌, List, [], ◌∷◌, Option, none, some, ◌≡◌, ◌≢◌, refl, sym, ap,
  ◌∙◌,
}
use environment_operator.Bitesize.Types.{BlueGreenServiceSet, Service, DeploymentSettings, Volume}
use environment_operator.Bitesize.Service.{active_deployment_tag}
use environment_operator.Bitesize.BlueGreen.{copy_blue_green_service, child_copy, custom_is_made}
use environment_operator.Cluster.Scrape.Objects.{KubeService, KubeDeployment, KubeContainer}
use environment_operator.Cluster.Scrape.Containers.{mounted_volumes}
use environment_operator.Cluster.Scrape.{
  first, deref, more_volumes, with_deployment, create_or_get, add_service, add_deployment,
}
use environment_operator.Diff.Tools.{Tools}
use environment_operator.Diff.Compare.{without_status}
use environment_operator.Diff.Align.{align_desired, align_current}

-- Whether the URLs are an empty slice that is not nil.
abbrev made_urls : Service → Bool
made_urls s = s.empties.external_url

-- Reading a deployment leaves the URLs.
read-made_urls :
    (zero : Text) (k : KubeDeployment) (s e : Service)
    → add_deployment zero k s ≡ some e
    → made_urls e ≡ made_urls s
unfolding add_deployment
read-made_urls zero k s e h = containers k.containers h
  where
    volumes :
        (c : KubeContainer) (o : Option (List Volume))
        → deref o (λ vs. some (with_deployment zero k c vs s)) ≡ some e
        → made_urls e ≡ made_urls s
    volumes c none q = cc
    volumes c (some vs) q =
        let same : with_deployment zero k c vs s ≡ e = cc in
        ap (λ (x : Service). made_urls x) (sym same)

    containers :
        (cs : List KubeContainer)
        → first cs (λ c.
          deref
            (more_volumes s.volumes (mounted_volumes c.mounts k.volumes))
            λ vs. some (with_deployment zero k c vs s))
          ≡ some e
        → made_urls e ≡ made_urls s
    containers [] q = cc
    containers (c ∷ cs) q =
        volumes c (more_volumes s.volumes (mounted_volumes c.mounts k.volumes)) q

and_false : (b : Bool) → (b && false) ≡ false
and_false true = refl
and_false false = refl

-- The URLs of a copy are a nil slice where they are empty, unless the custom ones are an empty list.
copy-made_urls :
    (svc s : Service) (kind : BlueGreenServiceSet)
    → copy_blue_green_service svc kind ≡ some s
    → custom_is_made svc.empties.others kind ≡ false
    → made_urls s ≡ false
unfolding copy_blue_green_service child_copy
copy-made_urls svc s kind h n = tagged (active_deployment_tag svc) svc.deployment h
  where
    tagged :
        (tag : Option BlueGreenServiceSet) (settings : Option DeploymentSettings)
        → elim tag [
          | none ↦ none
          | some c ↦ elim settings [ none ↦ none | some d ↦ some (child_copy svc d c kind) ]
        ]
          ≡ some s
        → made_urls s ≡ false
    tagged none settings q = cc
    tagged (some c) none q = cc
    tagged (some c) (some d) q =
        let same : child_copy svc d c kind ≡ s = cc in
        ap (λ (x : Service). made_urls x) (sym same) ∙ rw n (and_false _)

-- A copy of a blue/green service whose custom URLs are not an empty list has nothing but its service
-- object and its deployment in the cluster. What is read of these, into a new entry, is never what
-- the comparison aligns the copy to, also where the copy has no URLs and so wants no ingress: the
-- URLs of the copy are then nil, and those of the entry an empty slice.
pub align_desired-copy :
    (t : Tools) (zero : Text) (svc s e : Service) (kind : BlueGreenServiceSet) (k : KubeService)
    (d : KubeDeployment)
    → copy_blue_green_service svc kind ≡ some s
    → custom_is_made svc.empties.others kind ≡ false
    → add_deployment zero d (add_service k (create_or_get s.name [])) ≡ some e
    → align_desired t s (without_status e) ≢ align_current (without_status e)
unfolding align_desired align_current add_service create_or_get lookup
align_desired-copy t zero svc s e kind k d copied n read same =
    let of_entry : made_urls e ≡ true =
      read-made_urls zero d (add_service k (create_or_get s.name [])) e read in
    let of_copy : made_urls s ≡ false = copy-made_urls svc s kind copied n in
    let both : made_urls s ≡ made_urls e = ap (λ (x : Service). made_urls x) same in
    cc (of_entry, of_copy, both)
