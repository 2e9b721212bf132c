-- ===== src/Translator/Environments/Reads.antt =====
-- Reading an environment: each service is read as if its objects were alone in the cluster.
use environment_operator.Prelude.{
  Text, TextMap, lookup, ◌==◌, ==_refl, List, [], ◌∷◌, map, Option, none, some, false, ◌≡◌, refl,
  ap, sym, ◌∙◌, All, All-map, All-append, Bool-cases, inl, inr,
}
use environment_operator.Prelude.Sort.{IsDistinct}
use environment_operator.Bitesize.Types.{Service}
use environment_operator.Bitesize.Service.{find_by_name, is_blue_green_parent}
use environment_operator.Cluster.Scrape.{services}
use environment_operator.Cluster.Scrape.Events.{deployment, hpa, ingress, add_all}
use environment_operator.Cluster.Scrape.Separate.{own, read_own, add_all-own}
use environment_operator.Cluster.Scrape.Keyed.{add_all-IsKeyed}
use environment_operator.Cluster.Scrape.Lookups.{find_by_name-services}
use environment_operator.Cluster.Scrape.Listings.{gather, gather-All, own_all}
use environment_operator.Cluster.Scrape.Readable.{IsReadable, IsThere, add_all-IsThere}
use environment_operator.Diff.Tools.{Tools}
use environment_operator.Diff.Compare.Converged.{Agrees}
use environment_operator.Translator.Environments.{
  Member, name, objects, optional, IsNamed, listed, pick_service, pick_deployment, pick_hpa,
  pick_ingress, objects-AllOf, listed_gathered, listed-own,
}

-- The objects of the service can be read, and what is read of them alone agrees with the service.
pub record IsAtRest (t : Tools) (namespace zero : Text) (m : Member) : Type 0 where
  pub named : IsNamed m
  pub single : is_blue_green_parent m.desired ≡ false
  pub deployment_readable : IsReadable (deployment m.of_deployment)
  pub hpa_readable : All IsReadable (optional hpa m.of_hpa)
  pub ingress_readable : All IsReadable (optional ingress m.of_ingress)
  pub entry : Service
  pub read : add_all zero (objects m) [] ≡ some ((name m, entry) ∷ [])
  pub agrees : Agrees t namespace (entry ∷ []) m.desired

found_alone : (e d : Service) (k : Text) → find_by_name (e ∷ []) k ≡ some d → e ≡ d
unfolding find_by_name
found_alone e d k h = elim (Bool-cases (e.name == k)) [
  | inl q ↦ cc (rw q at h)
  | inr q ↦ cc (rw q at h)
]

there : (o : Option (TextMap Service)) → IsThere o → (m : TextMap Service) × (o ≡ some m)
there none h = absurd h
there (some m) h = (m, refl)

module _ (t : Tools) (namespace zero : Text) (ms : List Member) (distinct : IsDistinct name ms)
    (rests : All (IsAtRest t namespace zero) ms) where
  pub all_named : All IsNamed ms
  all_named = All-map (λ m h. h.named) ms rests

  listed-IsReadable : All IsReadable (listed ms)
  listed-IsReadable = rw (listed_gathered ms all_named distinct) (
      All-append IsReadable (gather name pick_service ms) _
        (gather-All name pick_service IsReadable ms (All-map (λ m h. (tt, tt)) ms rests))
        (All-append IsReadable (gather name pick_deployment ms) _
          (gather-All name pick_deployment IsReadable ms
            (All-map (λ m h. (h.deployment_readable, tt)) ms rests))
          (All-append IsReadable (gather name pick_hpa ms) (gather name pick_ingress ms)
            (gather-All name pick_hpa IsReadable ms (All-map (λ m h. h.hpa_readable) ms rests))
            (gather-All name pick_ingress IsReadable ms
              (All-map (λ m h. h.ingress_readable) ms rests)))))

  -- The map that is read has the entry of each service.
  entry_read :
      (m : Member) (all : TextMap Service)
      → IsAtRest t namespace zero m
      → own (name m) (listed ms) ≡ objects m
      → add_all zero (listed ms) [] ≡ some all
      → (e : Service) × (lookup (name m) all ≡ some e) × Agrees t namespace (e ∷ []) m.desired
  unfolding lookup
  entry_read m all h owned e =
      let whole : read_own zero (name m) (objects m) none ≡ some (lookup (name m) all) =
        rw owned at (add_all-own zero (name m) (listed ms) [] all e) in
      let alone : read_own zero (name m) (objects m) none ≡ some (some h.entry) =
        ap (λ fs. read_own zero (name m) fs none)
          (sym (own_all (name m) (objects m) (objects-AllOf m h.named)))
        ∙ add_all-own zero (name m) (objects m) [] ((name m, h.entry) ∷ []) h.read
        ∙ rw (==_refl (name m)) refl in
      (h.entry, cc (whole, alone), h.agrees)

  -- The service that is read agrees with the configured one.
  whole-Agrees :
      (m : Member) (all : TextMap Service)
      → IsAtRest t namespace zero m
      → own (name m) (listed ms) ≡ objects m
      → add_all zero (listed ms) [] ≡ some all
      → Agrees t namespace (services all) m.desired
  whole-Agrees m all h owned e =
      let (entry, looked, a) = entry_read m all h owned e in
      let keyed = add_all-IsKeyed zero (listed ms) [] all (tt, tt) e in
      record {
        deployed = a.deployed;
        found =
            find_by_name-services (name m) entry all keyed looked
            ∙ ap some (found_alone entry a.deployed (name m) a.found);
        same = a.same;
        secret = a.secret;
        active = a.active;
        has_active = a.has_active;
        runs_active = a.runs_active;
      }

  all-Agrees :
      (all : TextMap Service) (xs : List Member)
      → add_all zero (listed ms) [] ≡ some all
      → All (IsAtRest t namespace zero) xs
      → All (λ m. own (name m) (listed ms) ≡ objects m) xs
      → All (Agrees t namespace (services all)) (map (λ (m : Member). m.desired) xs)
  all-Agrees all [] e h owned = tt
  all-Agrees all (m ∷ xs) e h owned =
      (whole-Agrees m all h.0 owned.0 e, all-Agrees all xs e h.1 owned.1)

  -- The listed objects can be read, and every service then agrees with the configured one.
  pub environment-Agrees :
      (all : TextMap Service) × (add_all zero (listed ms) [] ≡ some all)
      × All (Agrees t namespace (services all)) (map (λ (m : Member). m.desired) ms)
  environment-Agrees =
      let (all, e) = there _ (add_all-IsThere zero (listed ms) [] listed-IsReadable) in
      (all, e, all-Agrees all ms e rests (listed-own ms all_named distinct))
