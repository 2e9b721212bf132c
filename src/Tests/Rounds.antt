-- ===== src/Tests/Rounds.antt =====
-- A round on a cluster that cannot be read, and on one that runs the configuration.
use environment_operator.Prelude.{
  Text, codes, ◌==◌, false, List, [], ◌∷◌, Option, none, some, Result, ok, err, ◌≡◌, refl,
}
use environment_operator.Bitesize.Types.{Service}
use environment_operator.Bitesize.Gists.{Gist, Environment}
use environment_operator.Git.{client, pull, refresh}
use environment_operator.Operator.Settled.{IsSettled}
use environment_operator.Operator.Loop.{main, refreshes, main-settled}
use environment_operator.Bitesize.Service.{is_blue_green_parent, find_by_name}
use environment_operator.Operator.{round, round-unread}
use environment_operator.Tests.Data.{web, running, environment, tools, tools_laws}
use environment_operator.Tests.Comparisons.{web-Agrees}
use environment_operator.Tests.Loads.{config, library}
use environment_operator.Tests.Reapers.{clients}

abbrev pub load : List Text → Option (Result Environment)
load copy = some (ok (environment (web ∷ [])))

abbrev unreachable : Text → Text
unreachable namespace = codes "unreachable"

abbrev scrape : Text → List Text → Result (List Service × List Gist)
scrape namespace s = err (unreachable namespace)

abbrev pub apply : Service → List Gist → Text → List Text → List Text × Option Text
apply svc gists namespace s = (svc.name ∷ s, none)

round-unread_example :
    (error : Text) × (more : List Text) × (round library config
        (client config)
        load
        tools
        scrape
        apply
        clients
        (codes "dev")
        []
        []
      ≡ some ((refresh library config (client config) []).0, [], error ∷ more))
round-unread_example =
    round-unread library config (client config) load tools scrape apply clients (codes "dev") [] []
      (ok (environment (web ∷ []))) unreachable refl (λ n. refl)

abbrev settled_scrape : Text → List Text → Result (List Service × List Gist)
settled_scrape namespace s = ok (running ∷ [], [])

web_single : is_blue_green_parent web ≡ false
unfolding is_blue_green_parent
web_single = refl

web_found : find_by_name (web ∷ []) (codes "web") ≡ some web
unfolding find_by_name ◌==◌
web_found = refl

web-IsSettled : IsSettled tools clients (environment (web ∷ [])) [] (running ∷ []) []
web-IsSettled = record {
  given = refl;
  distinct = (tt, tt);
  agrees = (web-Agrees, tt);
  single = (tt, tt);
  configured = ((web, web_found), tt);
  parents = ((λ h. cc (h, web_single)), tt);
  imported = tt;
}

main-settled_example :
    main library config (client config) load tools settled_scrape apply clients (codes "ns") 2 [] []
    ≡ some (
      refreshes library config (client config) 2 (pull library config (client config) []).0,
      [],
      [],
    )
main-settled_example =
    main-settled library config (client config) load tools tools_laws settled_scrape apply clients 2
      [] [] (environment (web ∷ [])) (running ∷ []) [] (λ k h. refl) refl web-IsSettled
