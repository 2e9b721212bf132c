-- ===== src/Git/Remotes.antt =====
-- Which repository the client of an environment works with.
use environment_operator.Prelude.{
  Text, ◌==◌, ==_iff, List, [], ◌∷◌, Option, none, some, Result, ok, err, ◌≡◌, refl, ap, sym, ◌∙◌,
  codes, ◌++◌, Bool-cases, inl, inr,
}
use environment_operator.Git.{Config, Git, with_token, keyed, env_git_client}
use environment_operator.Git.Repository.{
  Opened, opened, not_exists, not_opened, Disk, attach, created, replace, check_remote,
  env_repository, with_client, make_env_git_client,
}

-- A remote that is made has the URL that it is made for.
abbrev pub MakesRemotes : {S : Type 0} → Disk S → Type 0
MakesRemotes {S} disk =
    (path repo : Text) (s : S) (urls : List Text)
    → (disk.create_remote path repo s).1 ≡ ok urls
    → urls ≡ repo ∷ []

-- Where there is a client, its remote is the given one.
abbrev Remote : {S : Type 0} → Text → Option (S × Result Text) → Type 0
Remote repo none = Unit
Remote repo (some (_, err _)) = Unit
Remote repo (some (_, ok url)) = url ≡ repo

remote_path-with_token :
    (token user : Text) (git : Git) → (with_token token user git).remote_path ≡ git.remote_path
remote_path-with_token [] user git = refl
remote_path-with_token (_ ∷ _) user git = refl

remote_path-env_git_client :
    (c : Config) (path url branch : Text) → (env_git_client c path url branch).remote_path ≡ url
unfolding env_git_client
remote_path-env_git_client c path url branch =
    remote_path-with_token _ c.git_user (keyed c path url branch)

module _ {S : Type 0} (disk : Disk S) (makes : MakesRemotes disk) where
  created-Remote :
      (path repo : Text) (s : S) (made : S × Result (List Text))
      → disk.create_remote path repo s ≡ made
      → Remote repo (created disk made)
  created-Remote path repo s (t, err x) h = tt
  created-Remote path repo s (t, ok []) h = tt
  created-Remote path repo s (t, ok (url ∷ urls)) h =
      let same : url ∷ urls ≡ repo ∷ [] =
        makes path repo s (url ∷ urls) (ap (λ (m : S × Result (List Text)). m.1) h) in
      cc same

  replace-Remote : (path repo : Text) (s : S) → Remote repo (replace disk path repo s)
  unfolding replace
  replace-Remote path repo s = filled (disk.init path (disk.remove_all path s).0)
    where
      filled :
          (made : S × Option Text)
          → Remote repo (elim made.1 [
            | some x ↦
                some (
                  made.0,
                  err (codes "could not init local repository " ++ path ++ codes ": " ++ x),
                )
            | none ↦ created disk (disk.create_remote path repo made.0)
          ])
      filled (t, some x) = tt
      filled (t, none) = created-Remote path repo t (disk.create_remote path repo t) refl

  check_remote-Remote :
      (path repo : Text) (found : S × Option (List Text))
      → Remote repo (check_remote disk path repo found)
  unfolding check_remote
  check_remote-Remote path repo (s, none) = replace-Remote path repo s
  check_remote-Remote path repo (s, some []) = tt
  check_remote-Remote path repo (s, some (url ∷ _)) = elim (Bool-cases (url == repo)) [
    | inl e ↦ rw e ((==_iff url repo).0 e)
    | inr e ↦ rw e (replace-Remote path repo s)
  ]

  env_repository-Remote : (path repo : Text) (s : S) → Remote repo (env_repository disk path repo s)
  unfolding env_repository
  env_repository-Remote path repo s = found (disk.plain_open path s)
    where
      filled :
          (made : S × Option Text)
          → Remote repo (elim made.1 [
            | some x ↦
                some (
                  made.0,
                  err (codes "could not init local repository " ++ path ++ codes ": " ++ x),
                )
            | none ↦ check_remote disk path repo (attach disk path repo made.0)
          ])
      filled (t, some x) = tt
      filled (t, none) = check_remote-Remote path repo (attach disk path repo t)

      found :
          (o : Opened)
          → Remote repo (elim o [
            | not_opened ↦ none
            | opened ↦ check_remote disk path repo (attach disk path repo s)
            | not_exists ↦
                let made = disk.init path s in
                elim made.1 [
                  | some x ↦ some (
                    made.0,
                    err (codes "could not init local repository " ++ path ++ codes ": " ++ x),
                  )
                  | none ↦ check_remote disk path repo (attach disk path repo made.0)
                ]
          ])
      found not_opened = tt
      found opened = check_remote-Remote path repo (attach disk path repo s)
      found not_exists = filled (disk.init path s)

  -- When the disk makes remotes with the URL that they are made for, and the client of an
  -- environment's repository is made, whatever was on disk before and whatever of it failed, its
  -- remote is the repository of the environment.
  pub make_env_git_client-remote :
      (c : Config) (path repo branch : Text) (s t : S) (git : Git)
      → make_env_git_client disk c path repo branch s ≡ some (t, ok git)
      → git.remote_path ≡ repo
  unfolding make_env_git_client env_git_client
  make_env_git_client-remote c path repo branch s t git h =
      kept (env_repository disk path repo s) (env_repository-Remote path repo s) h
    where
      kept :
          (made : Option (S × Result Text))
          → Remote repo made
          → (elim made [ none ↦ none | some m ↦ some (with_client disk c path branch m) ])
            ≡ some (t, ok git)
          → git.remote_path ≡ repo
      kept none r e = cc
      kept (some (u, err x)) r e = cc
      kept (some (u, ok url)) r e =
          let same : env_git_client c path url branch ≡ git = cc e in
          ap (λ (g : Git). g.remote_path) (sym same)
          ∙ remote_path-env_git_client c path url branch
          ∙ r
