-- ===== src/Git.antt =====
-- pkg/git: the credentials of a client, and the refreshing of a local copy. The git library, with
-- the state of the local copy, is a parameter; the repository behind a client is in Repository.
pub mod Repository
pub mod Remotes
use environment_operator.Prelude.{
  Text, codes, Bool, true, false, ◌++◌, Option, none, some, [], is_empty, if◌then◌else◌,
}

-- What the clients take from the configuration of the process.
pub record Config : Type 0 where
  pub git_repo : Text
  pub git_branch : Text
  pub git_key : Text
  pub git_local_path : Text
  pub git_token : Text
  pub git_user : Text
  pub gists_key : Text
  pub gists_token : Text
  pub gists_user : Text
  pub use_auth : Bool

-- A client, less its repository.
pub record Git : Type 0 where
  pub ssh_key : Text
  pub local_path : Text
  pub remote_path : Text
  pub branch_name : Text
  pub git_token : Text
  pub git_user : Text

-- NoErrAlreadyUpToDate, or another error.
pub data GitError : Type 0 where
  already_up_to_date : GitError
  other_error : Text → GitError

-- A user and a password, a private key, or the nil pointer to a key.
pub data Auth : Type 0 where
  basic_auth : Text → Text → Auth
  public_keys : Text → Auth
  no_keys : Auth

-- The calls of the library on the local copy: whether a private key is one, the error of its work
-- tree, the fetch, and the pull of a reference; an operation may change the copy whatever it returns.
pub record Library (S : Type 0) : Type 0 where
  pub is_key : Text → Bool
  pub worktree : S → Option GitError
  pub fetch : Option Auth → S → S × Option GitError
  pub pull : Text → Option Auth → S → S × Option GitError

abbrev pub with_token : Text → Text → Git → Git
with_token token user git =
    if is_empty token then git else record git { git_token = token; git_user = user; ssh_key = [] }

-- The client of the process's own repository.
unfoldable pub client : Config → Git
client c = with_token c.git_token c.git_user (record {
  ssh_key = c.git_key;
  local_path = c.git_local_path;
  remote_path = c.git_repo;
  branch_name = c.git_branch;
  git_token = [];
  git_user = [];
})

abbrev pub or_else : Text → Text → Text
or_else s t = if is_empty s then t else s

-- A client that has a key, or else none.
abbrev pub keyed : Config → Text → Text → Text → Git
keyed c local_path remote_path branch = record {
  ssh_key = or_else c.gists_key c.git_key;
  local_path = local_path;
  remote_path = remote_path;
  branch_name = branch;
  git_token = [];
  git_user = [];
}

-- The client of an environment's repository, once that is there: each of the three settings of the
-- imported resources overrides another one, and the user's overrides the token.
unfoldable pub env_git_client : Config → Text → Text → Text → Git
env_git_client c local_path remote_path branch =
    with_token (or_else c.gists_user (or_else c.gists_token c.git_token)) c.git_user
      (keyed c local_path remote_path branch)

module _ {S : Type 0} (lib : Library S) (c : Config) where
  unfoldable pub ssh_keys : Git → Auth
  ssh_keys g =
      if is_empty g.ssh_key
      then no_keys
      else if lib.is_key g.ssh_key
      then public_keys g.ssh_key
      else no_keys

  unfoldable pub auth : Git → Auth
  unfolding ssh_keys
  auth g = if is_empty g.git_token then ssh_keys g else basic_auth g.git_user g.git_token

  unfoldable pub auth_option : Git → Option Auth
  unfolding auth
  auth_option g = if c.use_auth then some (auth g) else none

  -- Whether there are updates: also when the fetch fails.
  unfoldable pub updates_exist : Git → S → S × Bool × Option GitError
  unfolding auth_option
  updates_exist g s =
      let fetched = lib.fetch (auth_option g) s in
      elim fetched.1 [
        | some already_up_to_date ↦ (fetched.0, false, none)
        | error ↦ (fetched.0, true, error)
      ]

  -- Every other result than the error that there is nothing new is no error.
  unfoldable pub pull : Git → S → S × Option GitError
  unfolding auth_option
  pull g s = elim (lib.worktree s) [
    | some error ↦ (s, some error)
    | none ↦
        let pulled = lib.pull (codes "refs/heads/" ++ g.branch_name) (auth_option g) s in
        elim pulled.1 [
          | some already_up_to_date ↦ (pulled.0, some already_up_to_date)
          | _ ↦ (pulled.0, none)
        ]
  ]

  abbrev pub after_check : Git → S × Bool × Option GitError → S × Option GitError
  after_check g (s, updates, some error) = (s, some error)
  after_check g (s, true, none) = pull g s
  after_check g (s, false, none) = (s, none)

  unfoldable pub refresh : Git → S → S × Option GitError
  unfolding updates_exist
  refresh g s = after_check g (updates_exist g s)
