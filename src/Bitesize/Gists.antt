-- ===== src/Bitesize/Gists.antt =====
-- The imported resources of pkg/bitesize/gist.go and the `Environment` of environment.go. Of a
-- Kubernetes object the program reads its metadata, and of a ConfigMap its data.
use environment_operator.Prelude.{
  Text, TextMap, codes, ◌==◌, ◌&&◌, Bool, List, [], ◌∷◌, Option, none, some, if◌then◌else◌, select,
}
use environment_operator.Bitesize.Types.{DeploymentSettings, Service}

pub record Object : Type 0 where
  pub name : Text
  pub namespace : Text
  pub labels : TextMap Text
  pub content : TextMap Text

pub record Gist : Type 0 where
  pub name : Text
  pub path : Text
  pub files : List Text
  pub type : Text
  pub config_map : Object
  pub job : Object
  pub cron_job : Object
  pub secret : Object

pub record GistsRepository : Type 0 where
  pub remote : Text
  pub branch : Text

-- `nil_services` says that the slice of services is nil: then it is empty.
pub record Environment : Type 0 where
  pub name : Text
  pub namespace : Text
  pub deployment : Option DeploymentSettings
  pub services : List Service
  pub nil_services : Bool
  pub gists : List Gist
  pub repo : GistsRepository

abbrev pub type_configmap : Text
type_configmap = codes "configmap"

abbrev pub type_job : Text
type_job = codes "job"

abbrev pub type_cronjob : Text
type_cronjob = codes "cronjob"

abbrev pub type_secret : Text
type_secret = codes "secret"

-- Gists.Find
unfoldable pub find : List Gist → Text → Text → Option Gist
find [] path rstype = none
find (g ∷ gs) path rstype =
    if g.path == path && g.type == rstype then some g else find gs path rstype

-- Gists.FindByName
unfoldable pub find_gist : List Gist → Text → Text → Option Gist
find_gist [] name rstype = none
find_gist (g ∷ gs) name rstype =
    if g.type == rstype && g.name == name then some g else find_gist gs name rstype

-- Gists.FindByType
unfoldable pub find_by_type : List Gist → Text → List Gist
find_by_type gs rstype = select (λ g. g.type == rstype) gs
