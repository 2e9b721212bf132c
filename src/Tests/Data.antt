-- ===== src/Tests/Data.antt =====
-- Services, a comparison and a reading of the cluster for the tests.
use environment_operator.Prelude.{
  Text, codes, ◌==◌, ==_refl, Bool, true, false, ◌&&◌, List, [], ◌∷◌, Option, none, some, pos, refl,
}
use environment_operator.Bitesize.Types.{Service, DeploymentSettings, BlueGreenSettings, green}
use environment_operator.Bitesize.Zero.{no_service, no_status, no_deployment, no_blue_green}
use environment_operator.Bitesize.Gists.{Environment}
use environment_operator.Diff.Tools.{Tools, ToolsLaws}

abbrev pub web : Service
web = record no_service {
  name = codes "web";
  version = codes "1";
  replicas = pos 2;
  annotations = (codes "team", codes "a") ∷ [];
}

abbrev pub running : Service
running = record web { status = record no_status { deployed_at = codes "today" } }

abbrev pub old : Service
old = record running { version = codes "0" }

abbrev pub green_active : BlueGreenSettings
green_active = record no_blue_green { active = some green }

abbrev pub shop_deployment : DeploymentSettings
shop_deployment = record no_deployment {
  method = codes "bluegreen";
  blue_green = some green_active;
}

-- A blue/green service with no version.
abbrev pub shop : Service
shop = record no_service {
  name = codes "shop";
  deployment = some shop_deployment;
  external_url = codes "shop.example.com" ∷ [];
}

abbrev pub environment : List Service → Environment
environment services = record {
  name = codes "dev";
  namespace = codes "ns";
  deployment = none;
  services = services;
  nil_services = false;
  gists = [];
  repo = record { remote = []; branch = [] };
}

-- Services differ in their names and versions, URLs in the first one.
abbrev pub first_url : List Text → Text
first_url [] = []
first_url (u ∷ us) = u

abbrev pub difference : Bool → Text
difference true = []
difference false = codes "~"

abbrev pub by_version : Option Service → Service → Text
by_version none d = codes "+"
by_version (some e) d = difference (e.name == d.name && e.version == d.version)

abbrev pub tools : Tools
tools = record {
  diff_services = by_version;
  diff_urls = λ a b. difference (first_url a.0 == first_url b.0);
  diff_names = λ a b. difference (a == b);
  same_quantity = λ a b. a == b;
  external_secrets_enabled = false;
  external_secret_exists = λ namespace name. false;
}

pub tools_laws : ToolsLaws tools
tools_laws = record {
  diff_services_refl = λ s. rw (==_refl s.name, ==_refl s.version) refl;
  diff_urls_refl = λ us. rw (==_refl (first_url us.0)) refl;
  diff_names_refl = λ n. rw (==_refl n) refl;
  same_quantity_refl = ==_refl;
}
