-- ===== src/Cluster/Scrape/Imported.antt =====
-- pkg/cluster/gist_map.go, the rest of ScrapeResourcesForNamespace, and LoadPods.
use environment_operator.Prelude.{
  Text, TextMap, codes, lookup, insert, text_at, List, [], ◌∷◌, ◌++◌, map, Option, none, some,
  Result, ok, err, is_empty,
}
use environment_operator.Prelude.Sort.{sort_by}
use environment_operator.Bitesize.Types.{Service, Pod}
use environment_operator.Bitesize.Gists.{
  Object, Gist, Environment, type_configmap, type_job, type_cronjob,
}

abbrev pub no_object : Object
no_object = record { name = []; namespace = []; labels = []; content = [] }

abbrev pub no_gist : Gist
no_gist = record {
  name = [];
  path = [];
  files = [];
  type = [];
  config_map = no_object;
  job = no_object;
  cron_job = no_object;
  secret = no_object;
}

-- The entry of a name is made once.
abbrev unless_there : Text → Gist → TextMap Gist → TextMap Gist
unless_there name gist m = elim (lookup name m) [ none ↦ insert name gist m | some _ ↦ m ]

unfoldable pub add_config_map : Object → TextMap Gist → TextMap Gist
add_config_map o m =
    unless_there o.name (record no_gist { name = o.name; type = type_configmap; config_map = o }) m

unfoldable pub add_job : Object → TextMap Gist → TextMap Gist
add_job o m = unless_there o.name (record no_gist { name = o.name; type = type_job; job = o }) m

unfoldable pub add_cron_job : Object → TextMap Gist → TextMap Gist
add_cron_job o m =
    unless_there o.name (record no_gist { name = o.name; type = type_cronjob; cron_job = o }) m

-- The values of the map, sorted by name.
unfoldable pub gists : TextMap Gist → List Gist
gists m = sort_by (λ (g : Gist). g.name) (map (λ e. e.1) m)

unfoldable pub add_config_maps : List Object → TextMap Gist → TextMap Gist
unfolding add_config_map
add_config_maps [] m = m
add_config_maps (o ∷ os) m = add_config_maps os (add_config_map o m)

abbrev listed : Result (List Object) → List Object
listed (ok os) = os
listed (err _) = []

-- The environment around the services, from the labels of the namespace; `none` where the services
-- ended in a panic.
unfoldable pub scrape_environment :
    Text
    → Result (TextMap Text)
    → Option (List Service)
    → Result (List Object)
    → Option (Result Environment)
unfolding add_config_maps gists
scrape_environment namespace (err x) services objects =
    some (err (codes "error while retrieving namespace: " ++ x))
scrape_environment namespace (ok labels) none objects = none
scrape_environment namespace (ok labels) (some services) objects = some (
    ok (record {
      name = text_at (codes "environment") labels;
      namespace = namespace;
      deployment = none;
      services = services;
      nil_services = is_empty services;
      gists = gists (add_config_maps (listed objects) []);
      repo = record { remote = []; branch = [] };
    }))

-- What is read of a pod.
pub record KubePod : Type 0 where
  pub name : Text
  pub phase : Text
  pub start_time : Text

-- The logs of a pod, with the error of their stream.
unfoldable pub pod_of : Text × Option Text → KubePod → Pod
pod_of logs p = record {
  name = p.name;
  phase = p.phase;
  start_time = p.start_time;
  message = elim logs.1 [ none ↦ [] | some x ↦ codes "Error retrieving Pod Logs: " ++ x ];
  logs = logs.0;
}

-- Only the error of the listing is returned, beside what was loaded.
unfoldable pub load_pods :
    (Text → Text × Option Text) → Result (List KubePod) → List Pod × Option Text
unfolding pod_of
load_pods logs (err x) = ([], some x)
load_pods logs (ok pods) = (map (λ (p : KubePod). pod_of (logs p.name) p) pods, none)
