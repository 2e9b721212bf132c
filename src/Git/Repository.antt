-- ===== src/Git/Repository.antt =====
-- The repository on disk behind the two clients of pkg/git/git.go. The git library's calls on a path
-- are parameters, with the disk as their state; a panic on a nil pointer or an empty list is `none`.
use environment_operator.Prelude.{
  Text, codes, ◌==◌, ◌++◌, Bool, List, [], ◌∷◌, Option, none, some, Result, ok, err, if◌then◌else◌,
}
use environment_operator.Git.{Config, Git, client, env_git_client}

-- PlainOpen: a repository, ErrRepositoryNotExists, or another error, with a nil repository.
pub data Opened : Type 0 where
  opened not_exists not_opened : Opened

-- Remote("origin"): its URLs, ErrRemoteNotFound, or another error, with a nil remote.
pub data Origin : Type 0 where
  origin : List Text → Origin
  not_found no_origin : Origin

pub record Disk (S : Type 0) : Type 0 where
  pub is_missing : Text → S → Bool
  pub plain_open : Text → S → Opened
  pub init : Text → S → S × Option Text
  pub remote : Text → S → Origin
  pub create_remote : Text → Text → S → S × Result (List Text)
  pub remove_all : Text → S → S × Option Text

module _ {S : Type 0} (disk : Disk S) where
  abbrev pub urls_of : Result (List Text) → Option (List Text)
  urls_of (err x) = none
  urls_of (ok urls) = some urls

  -- The URLs of the remote, where it is not nil; a failure to make one is only logged.
  unfoldable pub attach : Text → Text → S → S × Option (List Text)
  attach path repo s = elim (disk.remote path s) [
    | origin urls ↦ (s, some urls)
    | no_origin ↦ (s, none)
    | not_found ↦ let made = disk.create_remote path repo s in (made.0, urls_of made.1)
  ]

  abbrev pub created : S × Result (List Text) → Option (S × Result Text)
  created (s, err x) = none
  created (s, ok []) = none
  created (s, ok (url ∷ _)) = some (s, ok url)

  -- The copy is removed and made anew; a nil remote is then a panic.
  unfoldable pub replace : Text → Text → S → Option (S × Result Text)
  replace path repo s =
      let made = disk.init path (disk.remove_all path s).0 in
      elim made.1 [
        | some x ↦
            some (made.0, err (codes "could not init local repository " ++ path ++ codes ": " ++ x))
        | none ↦ created (disk.create_remote path repo made.0)
      ]

  -- A remote that is nil, or has another URL, has the copy replaced.
  unfoldable pub check_remote : Text → Text → S × Option (List Text) → Option (S × Result Text)
  unfolding replace
  check_remote path repo (s, none) = replace path repo s
  check_remote path repo (s, some []) = none
  check_remote path repo (s, some (url ∷ _)) =
      if url == repo then some (s, ok url) else replace path repo s

  unfoldable pub env_repository : Text → Text → S → Option (S × Result Text)
  unfolding attach check_remote
  env_repository path repo s = elim (disk.plain_open path s) [
    | not_opened ↦ none
    | opened ↦ check_remote path repo (attach path repo s)
    | not_exists ↦
        let made = disk.init path s in
        elim made.1 [
          | some x ↦
              some
                (made.0, err (codes "could not init local repository " ++ path ++ codes ": " ++ x))
          | none ↦ check_remote path repo (attach path repo made.0)
        ]
  ]

  abbrev pub with_client : Config → Text → Text → S × Result Text → S × Result Git
  with_client c path branch (s, err x) = (s, err x)
  with_client c path branch (s, ok url) = (s, ok (env_git_client c path url branch))

  -- EnvGitClient, at the path that it joins.
  unfoldable pub make_env_git_client : Config → Text → Text → Text → S → Option (S × Result Git)
  unfolding env_repository
  make_env_git_client c path repo branch s = elim (env_repository path repo s) [
    | none ↦ none
    | some made ↦ some (with_client c path branch made)
  ]

  abbrev pub attached : Config → S → S × Git
  attached c s = ((attach c.git_local_path c.git_repo s).0, client c)

  -- Client: a copy that cannot be made or opened is a nil repository, and a panic.
  unfoldable pub make_client : Config → S → Option (S × Git)
  unfolding attach
  make_client c s =
      let made = disk.init c.git_local_path s in
      if disk.is_missing c.git_local_path s
      then elim made.1 [ some _ ↦ none | none ↦ some (attached c made.0) ]
      else elim (disk.plain_open c.git_local_path s) [ opened ↦ some (attached c s) | _ ↦ none ]
