-- ===== src/Tests/Reapers.antt =====
-- Cleaning up after a configuration with one service.
use environment_operator.Prelude.{
  Text, codes, ◌==◌, true, false, List, [], ◌∷◌, none, some, Result, ok, ◌≡◌, refl, All, inl, inr,
  not, ◌&&◌, ◌||◌, exists,
}
use environment_operator.Bitesize.Types.{Service}
use environment_operator.Bitesize.Service.{find_by_name}
use environment_operator.Bitesize.Gists.{Gist, type_job}
use environment_operator.Reaper.{Kind, ingress, service, hpa, Clients, cleanup}
use environment_operator.Reaper.Justified.{IsJustified, logged, cleanup-IsJustified}
use environment_operator.Reaper.Orphans.{Noted, cleanup-orphan}
use environment_operator.Reaper.Exact.{Present, exact, dooms_gist, any_dooms}
use environment_operator.Reaper.Exact.Whole.{cleanup-exact}
use environment_operator.Cluster.Scrape.Imported.{no_gist}
use environment_operator.Tests.Data.{web, shop}

-- The state is the names that were deleted; deployments always exist, and nothing fails.
abbrev pub clients : Clients (List Text)
clients = record {
  destroy = λ k n s. (n ∷ s, none);
  deployment_exists = λ n s. true;
  secrets_client = λ s. none;
}

abbrev online : Service
online = record web { external_url = codes "web.example.com" ∷ [] }

abbrev deployed : List Service
deployed = online ∷ shop ∷ []

abbrev scrape : List Text → Result (List Service × List Gist)
scrape s = ok (deployed, [])

cleanup-IsJustified_example :
    All
      (λ (d : Kind × Text). IsJustified (web ∷ []) [] deployed d.0 d.1)
      (cleanup (logged clients) (λ st. scrape st.0) (some (web ∷ [], [])) ([], [])).0.1
cleanup-IsJustified_example = cleanup-IsJustified clients scrape (web ∷ []) [] [] deployed [] refl

shop_orphan : find_by_name (web ∷ []) (codes "shop") ≡ none
unfolding find_by_name ◌==◌
shop_orphan = refl

cleanup-orphan_example :
    let log = (cleanup (logged clients) (λ st. scrape st.0) (some (web ∷ [], [])) ([], [])).0.1 in
    Noted ingress (codes "shop") log
    × Noted service (codes "shop") log
    × Noted hpa (codes "shop") log
cleanup-orphan_example =
    cleanup-orphan clients scrape (web ∷ []) [] [] deployed [] refl shop (inr (inl refl))
      shop_orphan

-- Every object is there, of every kind and name.
abbrev full : Present
full k n = true

abbrev old_job : Gist
old_job = record no_gist { name = codes "seed"; type = type_job }

abbrev exact_scrape : Present → Result (List Service × List Gist)
exact_scrape s = ok (deployed, old_job ∷ [])

shop_doomed : any_dooms service (codes "shop") (web ∷ []) deployed ≡ true
unfolding find_by_name ◌==◌
shop_doomed = refl

web_kept : any_dooms service (codes "web") (web ∷ []) deployed ≡ false
unfolding find_by_name ◌==◌
web_kept = refl

cleanup-exact_example :
    (left : Present) × (cleanup exact exact_scrape (some (web ∷ [], [])) full ≡ (left, none))
    × ((k : Kind) (n : Text)
        → left k n ≡ (
            full k n
            && not
                (any_dooms k n (web ∷ []) deployed || exists (dooms_gist k n []) (old_job ∷ []))))
cleanup-exact_example = cleanup-exact exact_scrape (web ∷ []) deployed [] (old_job ∷ []) full refl
