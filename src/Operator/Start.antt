-- ===== src/Operator/Start.antt =====
-- The start of the process: pkg/config/config.go, and init and webserver of cmd/operator/main.go. The
-- reading of the process's environment over the defaults, the making of the cluster's client, and
-- the parsing of a log level are parameters. The end of the process by log.Fatal is `exited`.
use environment_operator.Prelude.{
  Text, codes, ◌==◌, ◌++◌, ◌&&◌, not, Bool, true, Result, ok, err, ℤ, pos, [], is_empty,
  if◌then◌else◌,
}

pub record Settings : Type 0 where
  pub log_level : Text
  pub use_auth : Bool
  pub git_repo : Text
  pub git_branch : Text
  pub git_key : Text
  pub git_key_path : Text
  pub git_user : Text
  pub git_token : Text
  pub git_local_path : Text
  pub git_root_path : Text
  pub gists_user : Text
  pub gists_token : Text
  pub gists_key : Text
  pub env_name : Text
  pub env_file : Text
  pub namespace : Text
  pub docker_registry : Text
  pub docker_pull_secrets : Text
  pub oidc_issuer_url : Text
  pub oidc_ca_file : Text
  pub oidc_allowed_groups : Text
  pub oidc_client_id : Text
  pub hpa_max_replicas : ℤ
  pub limit_max_cpu : ℤ
  pub limit_max_memory : ℤ
  pub limit_default_cpu : Text
  pub limit_default_memory : Text
  pub requests_default_cpu : Text
  pub token_file : Text
  pub debug : Text

-- The defaults that the tags of the fields give.
unfoldable pub default_settings : Settings
default_settings = record {
  log_level = codes "info";
  use_auth = true;
  git_repo = [];
  git_branch = codes "master";
  git_key = [];
  git_key_path = codes "/etc/git/key";
  git_user = [];
  git_token = [];
  git_local_path = codes "/tmp/repository";
  git_root_path = codes "/tmp/";
  gists_user = [];
  gists_token = [];
  gists_key = [];
  env_name = [];
  env_file = [];
  namespace = [];
  docker_registry = codes "bitesize-registry.default.svc.cluster.local:5000";
  docker_pull_secrets = [];
  oidc_issuer_url = [];
  oidc_ca_file = [];
  oidc_allowed_groups = [];
  oidc_client_id = codes "bitesize";
  hpa_max_replicas = pos 50;
  limit_max_cpu = pos 4000;
  limit_max_memory = pos 8192;
  limit_default_cpu = codes "1000m";
  limit_default_memory = codes "2048Mi";
  requests_default_cpu = codes "100m";
  token_file = [];
  debug = [];
}

pub data Started (A : Type 0) : Type 0 where
  exited : Text → Started A
  started : A → Started A

-- A key and a token for the repository exclude one another.
unfoldable pub checked_settings : (Settings → Result Settings) → Started Settings
unfolding default_settings
checked_settings process = elim (process default_settings) [
  | err x ↦ exited x
  | ok c ↦
      if not (is_empty c.git_key) && not (is_empty c.git_token)
      then exited (codes "Please choose either Gitkey or GitToken but not both")
      else started c
]

module _ {L : Type 0} (parse_level : Text → Result L) (debug_level : L) where
  abbrev level_of : Settings → Result L → Started L
  level_of c (err x) = exited x
  level_of c (ok level) = started (if c.debug == codes "true" then debug_level else level)

  abbrev with_level : {K : Type 0} → K → Started L → Started (K × L)
  with_level client (exited x) = exited x
  with_level client (started level) = started (client, level)

  -- The client of the cluster and the level to log at. Of the two errors only the cause is kept.
  unfoldable pub init_operator : {K : Type 0} → Settings → Result K → Started (K × L)
  init_operator c (err x) = exited (codes "Error initializing kubernetes client: " ++ x)
  init_operator c (ok client) = with_level client (level_of c (parse_level c.log_level))

-- The handler of the web server.
unfoldable pub webserver : {H : Type 0} → (H → H) → Settings → H → H
webserver auth c logged = if c.use_auth then auth logged else logged
