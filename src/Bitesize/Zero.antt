-- ===== src/Bitesize/Zero.antt =====
-- Go's zero values of the configuration types, which composite literals start from.
use environment_operator.Prelude.{[], pos, none, false}
use environment_operator.Bitesize.Types.{
  Metric, HorizontalPodAutoscaler, Resources, ServiceStatus, Service, DeploymentSettings, Handler,
  Volume, EnvVar, BlueGreenSettings, Empties,
}

abbrev pub no_metric : Metric
no_metric = record { name = []; target_average_value = []; target_average_utilization = pos 0 }

abbrev pub no_hpa : HorizontalPodAutoscaler
no_hpa = record { min_replicas = pos 0; max_replicas = pos 0; metric = no_metric }

abbrev pub no_resources : Resources
no_resources = record { cpu = []; memory = [] }

abbrev pub no_status : ServiceStatus
no_status = record {
  deployed_at = [];
  available_replicas = pos 0;
  desired_replicas = pos 0;
  current_replicas = pos 0;
}

abbrev pub no_deployment : DeploymentSettings
no_deployment = record { method = []; mode = []; blue_green = none; custom_urls = [] }

abbrev pub no_blue_green : BlueGreenSettings
no_blue_green = record { active = none; deployment_colour = none; active_flag = false }

abbrev pub no_handler : Handler
no_handler = record { exec = none; http_get = none; tcp_socket = none }

abbrev pub no_volume : Volume
no_volume = record {
  name = [];
  path = [];
  modes = [];
  size = [];
  type = [];
  items = [];
  provisioning = [];
}

abbrev pub no_env_var : EnvVar
no_env_var = record { name = []; value = []; secret = []; pod_field = [] }

abbrev pub no_empties : Empties
no_empties = record {
  external_url = false;
  ports = false;
  env_vars = false;
  commands = false;
  volumes = false;
  set = false;
  liveness_headers = false;
  readiness_headers = false;
  others = [];
}

abbrev pub no_service : Service
no_service = record {
  name = [];
  external_url = [];
  service_mesh = [];
  backend = [];
  backend_port = pos 0;
  ports = [];
  ssl = [];
  version = [];
  application = [];
  replicas = pos 0;
  deployment = none;
  hpa = no_hpa;
  requests = no_resources;
  limits = no_resources;
  health_check = none;
  liveness_probe = none;
  readiness_probe = none;
  env_vars = [];
  commands = [];
  init_containers = none;
  annotations = [];
  volumes = [];
  options = none;
  http2 = [];
  https_only = [];
  https_backend = [];
  type = [];
  status = no_status;
  database_type = [];
  grace_period = none;
  resource_version = [];
  target_namespace = [];
  chart = [];
  repo = [];
  set = [];
  values_content = [];
  ignore = false;
  hosts = [];
  addresses = [];
  service_entry_ports = [];
  location = [];
  resolution = [];
  endpoints = [];
  export_to = [];
  protocol = [];
  empties = no_empties;
}
