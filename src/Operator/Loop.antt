-- ===== src/Operator/Loop.antt =====
-- The loop of cmd/operator/main.go, for a number of rounds: the source never leaves it. What is slept
-- between the rounds is left out.
use environment_operator.Prelude.{
  ℕ, zero, suc, ◌<◌, arith, Text, List, [], ◌++◌, Option, none, some, Result, ok, ◌≡◌, refl, ap,
}
use environment_operator.Bitesize.Types.{Service}
use environment_operator.Bitesize.Gists.{Gist, Environment}
use environment_operator.Diff.Tools.{Tools, ToolsLaws}
use environment_operator.Reaper.{Clients}
use environment_operator.Git.{Config, Git, Library, pull, refresh}
use environment_operator.Operator.{round}
use environment_operator.Operator.Settled.{IsSettled, round-settled}

-- The copy after a number of refreshes.
unfoldable pub refreshes : {G : Type 0} → Library G → Config → Git → ℕ → G → G
refreshes lib c git zero g = g
refreshes lib c git (suc n) g = refreshes lib c git n (refresh lib c git g).0

abbrev pub Logged : Type 0 → Type 0 → Type 0
Logged G S = Option (G × S × List Text)

-- What was logged before stands first.
abbrev pub after : {G S : Type 0} → List Text → Logged G S → Logged G S
after before none = none
after before (some (g, s, errors)) = some (g, s, before ++ errors)

module _ {G S : Type 0} (lib : Library G) (c : Config) (git : Git)
    (load : G → Option (Result Environment)) (t : Tools)
    (scrape : Text → S → Result (List Service × List Gist))
    (apply_service : Service → List Gist → Text → S → S × Option Text) (clients : Clients S)
    (reaper_namespace : Text) where
  -- `none` is a panic in one of the rounds.
  unfoldable pub rounds : ℕ → G → S → Logged G S
  rounds zero g s = some (g, s, [])
  rounds (suc n) g s =
      elim (round lib c git load t scrape apply_service clients reaper_namespace g s) [
        | none ↦ none
        | some (g', s', errors) ↦ after errors (rounds n g' s')
      ]

  -- The copy is pulled before the first round; what that returns is only logged.
  unfoldable pub main : ℕ → G → S → Logged G S
  unfolding rounds
  main n g s = rounds n (pull lib c git g).0 s

module _ {G S : Type 0} (lib : Library G) (c : Config) (git : Git)
    (load : G → Option (Result Environment)) (t : Tools) (laws : ToolsLaws t)
    (scrape : Text → S → Result (List Service × List Gist))
    (apply_service : Service → List Gist → Text → S → S × Option Text) (clients : Clients S) where
  rounds-settled :
      (n : ℕ) (g : G) (s : S) (e : Environment) (current : List Service) (gists : List Gist)
      → ((k : ℕ) → k < n → load (refreshes lib c git (suc k) g) ≡ some (ok e))
      → scrape e.namespace s ≡ ok (current, gists)
      → IsSettled t clients e s current gists
      → rounds lib c git load t scrape apply_service clients e.namespace n g s
        ≡ some (refreshes lib c git n g, s, [])
  unfolding rounds refreshes
  rounds-settled zero g s e current gists l h settled = refl
  rounds-settled (suc n) g s e current gists l h settled =
      let first =
        round-settled lib c git load t laws scrape apply_service clients g s e current gists
          (l 0 (omega arith)) h settled in
      let rest =
        rounds-settled n (refresh lib c git g).0 s e current gists
          (λ k less. l (suc k) (omega arith)) h settled in
      rw (first, rounds) (ap (after []) rest)

  -- When every copy that a round of the operator refreshes loads an environment that the cluster
  -- runs, and that environment is of the reaper's namespace and has a list of services that is not nil,
  -- the operator leaves the cluster as it is
  -- for any number of rounds, and logs no error of loading, applying or reaping, whatever applying a
  -- service or deleting an object would do. A value has no difference to itself.
  pub main-settled :
      (n : ℕ) (g : G) (s : S) (e : Environment) (current : List Service) (gists : List Gist)
      → ((k : ℕ) → k < n → load (refreshes lib c git (suc k) (pull lib c git g).0) ≡ some (ok e))
      → scrape e.namespace s ≡ ok (current, gists)
      → IsSettled t clients e s current gists
      → main lib c git load t scrape apply_service clients e.namespace n g s
        ≡ some (refreshes lib c git n (pull lib c git g).0, s, [])
  unfolding main
  main-settled n g s = rounds-settled n (pull lib c git g).0 s
