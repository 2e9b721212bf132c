-- ===== src/Bitesize/Loading/Sources.antt =====
-- From the process's configuration to the environment: LoadFromString and LoadFromFile of
-- pkg/bitesize/config.go and LoadEnvironmentFromConfig of pkg/bitesize/environment.go. Reading a file,
-- decoding a text and joining paths are parameters.
use environment_operator.Prelude.{Text, List, Option, Result, ◌>>=◌}
use environment_operator.Bitesize.Gists.{Environment}
use environment_operator.Bitesize.Imports.{Files}
use environment_operator.Bitesize.Loading.Environments.{load_environment}

-- The settings of the process that say where the file is and which of its environments is meant.
pub record Source : Type 0 where
  pub git_local_path : Text
  pub env_file : Text
  pub env_name : Text

module _ (files : Files) (decode : Text → Result (List Environment)) where
  unfoldable pub load_from_string : Text → Result (List Environment)
  load_from_string contents = decode contents

  unfoldable pub load_from_file : Text → Result (List Environment)
  unfolding load_from_string
  load_from_file path = files.read_file path >>= λ contents. load_from_string contents

  unfoldable pub load_environment_from_config :
      (Environment → Result Text) → Source → Option (Result Environment)
  unfolding load_from_file load_environment
  load_environment_from_config checkout c =
      load_environment files checkout c.git_local_path
        (load_from_file (files.join_path c.git_local_path c.env_file)) c.env_name
