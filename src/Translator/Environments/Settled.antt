-- ===== src/Translator/Environments/Settled.antt =====
-- An environment whose objects are listed is one that the cluster runs.
use environment_operator.Prelude.{
  Text, TextMap, lookup, ◌==◌, ==_iff, true, false, List, [], ◌∷◌, map, Option, none, some, ok, ◌≡◌,
  ◌≢◌, refl, sym, All, All-map, Bool-cases, inl, inr,
}
use mathlib.Core.List.{append-nil}
use environment_operator.Prelude.Sort.{IsDistinct}
use environment_operator.Bitesize.Types.{Service}
use environment_operator.Bitesize.Service.{find_by_name, is_blue_green_parent}
use environment_operator.Bitesize.Names
use environment_operator.Bitesize.Gists.{Environment}
use environment_operator.Cluster.Scrape.{services}
use environment_operator.Cluster.Scrape.Events.{ingress, add_all, scrape_services}
use environment_operator.Cluster.Scrape.Separate.{own, read_own, add_all-own}
use environment_operator.Cluster.Scrape.Keyed.{add_all-IsKeyed}
use environment_operator.Cluster.Scrape.Lookups.{IsEntry, services-IsEntry, services-IsDistinct}
use environment_operator.Cluster.Scrape.Listings.{gather_none, own-append}
use environment_operator.Diff.Tools.{Tools}
use environment_operator.Reaper.{Clients}
use environment_operator.Operator.Settled.{IsSettled}
use environment_operator.Translator.Environments.{
  Member, name, present, listed, pick_service, pick_deployment, pick_hpa, pick_ingress,
  listed_gathered, pick_service-IsPlaced, pick_deployment-IsPlaced, pick_hpa-IsPlaced,
  pick_ingress-IsPlaced,
}
use environment_operator.Translator.Environments.Reads.{IsAtRest, all_named, environment-Agrees}

abbrev pub desired : List Member → List Service
desired ms = map (λ (m : Member). m.desired) ms

differ :
    (k : Text) (ms : List Member)
    → All (λ m. k ≢ name m) ms
    → All (λ (d : Service). k ≢ d.name) (desired ms)
differ k [] h = tt
differ k (m ∷ ms) h = (h.0, differ k ms h.1)

pub desired-IsDistinct :
    (ms : List Member) → IsDistinct name ms → IsDistinct Names.name_of (desired ms)
desired-IsDistinct [] h = tt
desired-IsDistinct (m ∷ ms) h = (differ (name m) ms h.0, desired-IsDistinct ms h.1)

-- A name that is not found is no member's.
unfound :
    (k : Text) (ms : List Member) → find_by_name (desired ms) k ≡ none → All (λ m. k ≢ name m) ms
unfolding find_by_name
unfound k [] h = tt
unfound k (m ∷ ms) h = elim (Bool-cases (name m == k)) [
  | inl e ↦ cc (rw e at h)
  | inr e ↦ ((λ same. cc ((==_iff (name m) k).1 (sym same))), unfound k ms (rw e at h))
]

module _ (t : Tools) (namespace zero : Text) (ms : List Member) (distinct : IsDistinct name ms)
    (rests : All (IsAtRest t namespace zero) ms) where
  -- No object has a name that is no member's.
  none_own : (k : Text) → All (λ m. k ≢ name m) ms → own k (listed ms) ≡ []
  none_own k h =
      let named = all_named t namespace zero ms distinct rests in
      rw
        (
          listed_gathered ms named distinct,
          own-append,
          own-append,
          own-append,
          gather_none name pick_service k ms (All-map pick_service-IsPlaced ms named) h,
          gather_none name pick_deployment k ms (All-map pick_deployment-IsPlaced ms named) h,
          gather_none name pick_hpa k ms
              (All-map (λ m n. pick_hpa-IsPlaced (name m) m.of_hpa n.of_hpa) ms named) h,
          gather_none name pick_ingress k ms
              (All-map (λ m n. pick_ingress-IsPlaced (name m) m.of_ingress n.of_ingress) ms named)
              h,
        )
        refl

  entry-configured :
      (all : TextMap Service) (x : Service)
      → add_all zero (listed ms) [] ≡ some all
      → IsEntry all x
      → (d : Service) × (find_by_name (desired ms) x.name ≡ some d)
  unfolding lookup read_own
  entry-configured all x e h = known (find_by_name (desired ms) x.name) refl
    where
      known :
          (o : Option Service)
          → find_by_name (desired ms) x.name ≡ o
          → (d : Service) × (find_by_name (desired ms) x.name ≡ some d)
      known (some d) q = (d, q)
      known none q =
          let empty = none_own x.name (unfound x.name ms q) in
          let nothing : some none ≡ some (lookup x.name all) =
            rw empty at (add_all-own zero x.name (listed ms) [] all e) in
          cc (nothing, h)

  all_configured :
      (all : TextMap Service) (xs : List Service)
      → add_all zero (listed ms) [] ≡ some all
      → All (IsEntry all) xs
      → All (λ x. (d : Service) × (find_by_name (desired ms) x.name ≡ some d)) xs
  all_configured all [] e h = tt
  all_configured all (x ∷ xs) e h = (entry-configured all x e h.0, all_configured all xs e h.1)

  scraped :
      (all : TextMap Service)
      → add_all zero (listed ms) [] ≡ some all
      → scrape_services zero
          (ok (map (λ (m : Member). m.of_service) ms))
          (ok (map (λ (m : Member). m.of_deployment) ms))
          (ok (present (λ (m : Member). m.of_hpa) ms))
          (ok (present (λ (m : Member). m.of_ingress) ms))
          (ok [])
          (ok [])
        ≡ some (services all)
  unfolding scrape_services
  scraped all e =
      rw (scrape_services, append-nil (map ingress (present (λ (m : Member). m.of_ingress) ms)), e)
        refl

  module _ {S : Type 0} (clients : Clients S) (e : Environment) (s : S)
      (same : e.services ≡ desired ms) (of_namespace : e.namespace ≡ namespace)
      (given : e.nil_services ≡ false) where
    alone :
        (xs : List Member)
        → All (IsAtRest t namespace zero) xs
        → All
            (λ (d : Service).
              is_blue_green_parent d ≡ true → clients.deployment_exists d.name s ≡ false)
            (desired xs)
    alone [] h = tt
    alone (m ∷ xs) h = ((λ p. cc (p, h.0.single)), alone xs h.1)

    -- The cluster runs the environment that its objects are listed of.
    pub environment-IsSettled :
        (current : List Service) × (scrape_services zero
            (ok (map (λ (m : Member). m.of_service) ms))
            (ok (map (λ (m : Member). m.of_deployment) ms))
            (ok (present (λ (m : Member). m.of_hpa) ms))
            (ok (present (λ (m : Member). m.of_ingress) ms))
            (ok [])
            (ok [])
          ≡ some current)
        × IsSettled t clients e s current []
    environment-IsSettled =
        let (all, read, agrees) = environment-Agrees t namespace zero ms distinct rests in
        let keyed = add_all-IsKeyed zero (listed ms) [] all (tt, tt) read in
        (
          services all,
          scraped all read,
          record {
            given = given;
            distinct = rw same (desired-IsDistinct ms distinct);
            agrees = rw (same, of_namespace) agrees;
            single = services-IsDistinct all keyed;
            configured =
                rw same (all_configured all (services all) read (services-IsEntry all keyed));
            parents = rw same (alone ms rests);
            imported = tt;
          },
        )
