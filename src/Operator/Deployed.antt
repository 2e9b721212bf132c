-- ===== src/Operator/Deployed.antt =====
-- The operator on a cluster that lists what the translator made of the configuration.
use environment_operator.Prelude.{
  ℕ, suc, ◌<◌, Text, TextMap, text_at, codes, List, [], map, Option, none, some, Result, ok, ◌≡◌,
  refl, All, is_empty, false,
}
use environment_operator.Prelude.Sort.{IsDistinct, sort_by}
use environment_operator.Bitesize.Types.{Service}
use environment_operator.Bitesize.Gists.{Gist, Environment}
use environment_operator.Cluster.Scrape.Events.{scrape_services}
use environment_operator.Cluster.Scrape.Imported.{add_config_maps, gists, scrape_environment}
use environment_operator.Cluster.Scrape.Namespaces.{Listing, scrape_namespace}
use environment_operator.Diff.Tools.{Tools, ToolsLaws}
use environment_operator.Reaper.{Clients}
use environment_operator.Git.{Config, Git, Library, pull}
use environment_operator.Operator.Loop.{main, refreshes, main-settled}
use environment_operator.Translator.Objects.{Process, Cluster}
use environment_operator.Translator.Environments.{Member, name, present}
use environment_operator.Translator.Environments.Settled.{desired, environment-IsSettled}
use environment_operator.Translator.Environments.Members.{IsDeployed, all-IsAtRest}

-- The cluster lists, in the namespace, the objects of the services, and no claims, custom resources
-- or config maps.
pub record Lists {S : Type 0} (l : Listing S) (namespace : Text) (s : S) (ms : List Member)
    : Type 0 where
  pub labels : TextMap Text
  pub labelled : l.labels namespace s ≡ ok labels
  pub services : l.services namespace s ≡ ok (map (λ (m : Member). m.of_service) ms)
  pub deployments : l.deployments namespace s ≡ ok (map (λ (m : Member). m.of_deployment) ms)
  pub hpas : l.hpas namespace s ≡ ok (present (λ (m : Member). m.of_hpa) ms)
  pub ingresses : l.ingresses namespace s ≡ ok (present (λ (m : Member). m.of_ingress) ms)
  pub claims : l.claims namespace s ≡ ok []
  pub customs : l.customs namespace s ≡ ok []
  pub config_maps : l.config_maps namespace s ≡ ok []

-- What is read of a namespace is what the operator gets of it, where reading does not panic.
abbrev pub Scrapes :
    {S : Type 0} → Text → Listing S → (Text → S → Result (List Service × List Gist)) → Type 0
Scrapes {S} zero l scrape =
    (namespace : Text) (s : S) (r : Environment)
    → scrape_namespace zero l namespace s ≡ some (ok r)
    → scrape namespace s ≡ ok (r.services, r.gists)

module _ {S : Type 0} (zero namespace : Text) (l : Listing S) (s : S) (ms : List Member) where
  listed_services :
      (current : List Service)
      → Lists l namespace s ms
      → scrape_services zero
          (ok (map (λ (m : Member). m.of_service) ms))
          (ok (map (λ (m : Member). m.of_deployment) ms))
          (ok (present (λ (m : Member). m.of_hpa) ms))
          (ok (present (λ (m : Member). m.of_ingress) ms))
          (ok [])
          (ok [])
        ≡ some current
      → (r : Environment) × (scrape_namespace zero l namespace s ≡ some (ok r))
        × (r.services ≡ current)
        × (r.gists ≡ [])
  unfolding scrape_namespace scrape_environment add_config_maps gists sort_by
  listed_services current h e = (
    record {
      name = text_at (codes "environment") h.labels;
      namespace = namespace;
      deployment = none;
      services = current;
      nil_services = is_empty current;
      gists = [];
      repo = record { remote = []; branch = [] };
    },
    rw
        (
          scrape_namespace, h.labelled, h.services, h.deployments, h.hpas, h.ingresses, h.claims,
          h.customs, h.config_maps, e,
        )
        refl,
    refl,
    refl,
  )

module _ {G S : Type 0} (lib : Library G) (c : Config) (git : Git)
    (load : G → Option (Result Environment)) (t : Tools) (laws : ToolsLaws t)
    (scrape : Text → S → Result (List Service × List Gist))
    (apply_service : Service → List Gist → Text → S → S × Option Text) (clients : Clients S)
    (p : Process) (cl : Cluster) (zero : Text) (l : Listing S)
    (scrapes : Scrapes zero l scrape) where
  -- An environment is configured with a list of services that is not nil, and whose names are
  -- distinct. Each service sets no fields but its name, application, version, replicas, ports,
  -- requests, limits, probes, variables, commands and annotations, and may set besides either external
  -- URLs with ssl, httpsOnly, httpsBackend, http2, backend and backend_port, or an autoscaler; all its
  -- other fields have their defaults, so it has no init containers, protocol, grace period, mesh,
  -- volume, type or deployment method, and an empty slice is nil unless it is that of the URLs. A
  -- health check is that of the liveness probe. Each deployment can hold its service, the ports
  -- fit, no annotation is given twice, and with URLs the backend and its port are not the service's
  -- own, the switches are true or false and no external secret is missing; an autoscaler has a
  -- minimum and one kind of metric. When the cluster lists, in its namespace, what the translator made
  -- of each service and nothing more, the operator that loads this environment in every round
  -- and reaps in that namespace leaves the cluster as it is for any number of rounds, and logs no
  -- error of loading, applying or reaping. The deployments that have an autoscaler may run any number
  -- of replicas. A value has no difference to itself, and the operator gets what is read of a
  -- namespace.
  pub main-deployed :
      (n : ℕ) (g : G) (s : S) (e : Environment) (ms : List Member)
      → ((k : ℕ) → k < n → load (refreshes lib c git (suc k) (pull lib c git g).0) ≡ some (ok e))
      → e.services ≡ desired ms
      → e.nil_services ≡ false
      → IsDistinct name ms
      → All (IsDeployed t p cl e.namespace zero) ms
      → Lists l e.namespace s ms
      → main lib c git load t scrape apply_service clients e.namespace n g s
        ≡ some (refreshes lib c git n (pull lib c git g).0, s, [])
  main-deployed n g s e ms loads same given distinct deployed lists =
      let rests = all-IsAtRest t p cl e.namespace zero ms laws deployed in
      let (current, read, settled) =
        environment-IsSettled t e.namespace zero ms distinct rests clients e s same refl given in
      let (r, scraped, of_services, of_gists) =
        listed_services zero e.namespace l s ms current lists read in
      main-settled lib c git load t laws scrape apply_service clients n g s e current [] loads
        (rw (of_services, of_gists) at (scrapes e.namespace s r scraped)) settled
