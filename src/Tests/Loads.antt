-- ===== src/Tests/Loads.antt =====
-- Loading, checking and refreshing at concrete inputs.
use environment_operator.Prelude.{
  Text, codes, ◌==◌, true, false, List, [], ◌∷◌, All, none, some, ok, pos, ◌≡◌, ◌↔◌, refl, is_empty,
}
use environment_operator.Bitesize.Types.{Service, Resources}
use environment_operator.Bitesize.Zero.{no_service, no_volume, no_env_var}
use environment_operator.Bitesize.Service.{is_blue_green_parent, active_deployment_tag}
use environment_operator.Bitesize.Loading.{load_services}
use environment_operator.Bitesize.Loading.Laws.{IsPrepared, HasColour, load_services-total}
use environment_operator.Bitesize.Unmarshal.{
  Defaults, Document, no_url, no_fields, unmarshal_ports, unmarshal_annotations,
  unmarshal_external_url, unmarshal_options, cleanup_value, service_with_defaults, completed,
  unmarshal_service,
}
use environment_operator.Bitesize.Unmarshal.Completed.{IsScaled, unmarshal_service-completed}
use environment_operator.Bitesize.Quantities.{valid_resources}
use environment_operator.Bitesize.Quantities.Exact.{IsQuantity, valid_resources-IsQuantity}
use environment_operator.Git.{Config, Git, other_error, Library, env_git_client}
use environment_operator.Git.Repository.{
  opened, origin, Disk, attach, replace, check_remote, env_repository, make_env_git_client,
}
use environment_operator.Git.Remotes.{MakesRemotes, make_env_git_client-remote}
use environment_operator.Tests.Data.{shop}

abbrev stored : Service
stored = record no_service {
  name = codes "store";
  env_vars = record no_env_var { value = codes "db"; secret = codes "DB" } ∷ [];
  volumes =
      record no_volume { name = codes "b"; type = codes "EBS" }
      ∷ record no_volume { name = codes "a"; type = codes "efs" }
      ∷ [];
}

colours : All HasColour (stored ∷ shop ∷ [])
unfolding is_blue_green_parent active_deployment_tag
colours = (λ h. cc, (λ h e. cc, tt))

load_services-total_example :
    (loaded : List Service) × (load_services (stored ∷ shop ∷ []) ≡ some loaded)
    × All IsPrepared loaded
load_services-total_example = load_services-total (stored ∷ shop ∷ []) colours

abbrev defaults : Defaults
defaults = record {
  limit_memory = codes "2048Mi";
  limit_cpu = codes "1000m";
  request_cpu = codes "100m";
}

-- A document that gives a minimum of replicas, and nothing else.
abbrev document : Document
document = record {
  ports = ok ([], []);
  annotations = ok [];
  external_url = ok no_url;
  options = ok no_fields;
  decode = λ s. ok (record s { name = codes "api"; hpa = record s.hpa { min_replicas = pos 2 } });
  validate = λ s. ok tt;
}

abbrev decoded : Service
decoded =
    let s = service_with_defaults defaults in
    completed (pos 80 ∷ []) [] [] none
      (record s { name = codes "api"; hpa = record s.hpa { min_replicas = pos 2 } })

document-decoded : unmarshal_service defaults document ≡ ok decoded
unfolding unmarshal_service unmarshal_ports unmarshal_annotations unmarshal_external_url
    unmarshal_options cleanup_value
document-decoded = refl

unmarshal_service-completed_example :
    (document.validate decoded ≡ ok tt)
    × IsScaled decoded
    × (is_empty decoded.type ≡ false → decoded.ports ≡ [])
    × (is_empty decoded.type ≡ true → document.ports ≡ ok ([], []) → decoded.ports ≡ pos 80 ∷ [])
unmarshal_service-completed_example =
    unmarshal_service-completed defaults document decoded document-decoded

abbrev asked : Resources
asked = record { cpu = codes "500m"; memory = codes "100Mi" }

valid_resources-IsQuantity_example : (valid_resources (pos 4000) (pos 8192) asked ≡ some none) ↔ (
    IsQuantity (codes "m") (pos 4000) (codes "500m")
    × IsQuantity (codes "Mi") (pos 8192) (codes "100Mi"))
valid_resources-IsQuantity_example = valid_resources-IsQuantity (pos 4000) (pos 8192) asked

abbrev pub config : Config
config = record {
  git_repo = codes "git@example.com:env";
  git_branch = codes "master";
  git_key = [];
  git_local_path = codes "/tmp/repository";
  git_token = codes "token";
  git_user = codes "operator";
  gists_key = [];
  gists_token = codes "secret";
  gists_user = codes "reader";
  use_auth = true;
}

-- The copy counts its fetches, and every pull is refused.
abbrev pub library : Library (List Text)
library = record {
  is_key = λ key. true;
  worktree = λ s. none;
  fetch = λ a s. (codes "fetch" ∷ s, none);
  pull = λ branch a s. (s, some (other_error (codes "refused")));
}

-- Another repository is on the disk; it lists what was done to it.
abbrev disk : Disk (List Text)
disk = record {
  is_missing = λ path s. false;
  plain_open = λ path s. opened;
  init = λ path s. (codes "init" ∷ s, none);
  remote = λ path s. origin (codes "git@example.com:other" ∷ []);
  create_remote = λ path repo s. (codes "remote" ∷ s, ok (repo ∷ []));
  remove_all = λ path s. (codes "remove" ∷ s, none);
}

disk-MakesRemotes : MakesRemotes disk
disk-MakesRemotes path repo s urls h = cc h

abbrev gists_client : Git
gists_client =
    env_git_client config (codes "/tmp/ns/dev") (codes "git@example.com:gists") (codes "master")

client_made :
    make_env_git_client disk config
      (codes "/tmp/ns/dev")
      (codes "git@example.com:gists")
      (codes "master")
      []
    ≡ some (codes "remote" ∷ codes "init" ∷ codes "remove" ∷ [], ok gists_client)
unfolding make_env_git_client env_repository attach check_remote replace ◌==◌
client_made = refl

make_env_git_client-remote_example : gists_client.remote_path ≡ codes "git@example.com:gists"
make_env_git_client-remote_example =
    make_env_git_client-remote disk disk-MakesRemotes config (codes "/tmp/ns/dev")
      (codes "git@example.com:gists") (codes "master") []
      (codes "remote" ∷ codes "init" ∷ codes "remove" ∷ []) gists_client client_made
