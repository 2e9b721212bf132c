-- ===== src/K8s/Custom.antt =====
-- pkg/util/k8s/crd.go and external_secret.go: the clients for custom resources and for external
-- secrets, which differ in their types only. The requests are those for the plural of the client's
-- type. A panic is `none`.
use environment_operator.Prelude.{
  ℕ, Text, codes, eqb, Bool, true, false, ◌||◌, List, [], ◌∷◌, ◌++◌, exists, Option, none, some,
  Result, ok, err, if◌then◌else◌,
}
use environment_operator.K8s.Api.{Api, Resource, unset}

unfoldable pub is_vowel : ℕ → Bool
is_vowel c = exists (λ v. eqb v c) (codes "aeiouAEIOU")

-- The text without its last characters, from the end.
abbrev reversed_on : Text → Text → Text
reversed_on [] done = done
reversed_on (c ∷ s) done = reversed_on s (c ∷ done)

-- The plural of a word that is given from its end.
unfoldable pub plural_back : Text → Option Text
unfolding is_vowel
plural_back [] = none
plural_back (c ∷ s) =
    let word = reversed_on (c ∷ s) [] in
    if eqb c b's' || eqb c b'x'
    then some (word ++ codes "es")
    else if eqb c b'y'
    then elim s [
      | [] ↦ none
      | v ∷ rest ↦
          some (if is_vowel v then word ++ codes "s" else reversed_on (v ∷ rest) [] ++ codes "ies")
    ]
    else some (word ++ codes "s")

unfoldable pub plural : Text → Option Text
unfolding plural_back
plural singular = plural_back (reversed_on singular [])

module _ {S B : Type 0} (api : Text → Api S (Resource B)) (type : Text) where
  -- The requests of the client, or the panic on its type.
  abbrev requests : {A : Type 0} → (Api S (Resource B) → A) → Option A
  requests f = elim (plural type) [ none ↦ none | some kind ↦ some (f (api kind)) ]

  unfoldable pub get : Text → S → Option (Result (Resource B))
  get name s = requests λ a. a.get name s

  unfoldable pub exist : Text → S → Option Bool
  exist name s = requests λ a. elim (a.get name s) [ ok _ ↦ true | err _ ↦ false ]

  unfoldable pub create : Option (Resource B) → S → Option (S × Option Text)
  create none s = some (s, none)
  create (some r) s = requests λ a. a.post r s

  unfoldable pub update : Option (Resource B) → S → Option (S × Option Text)
  update none s = some (s, none)
  update (some r) s = requests λ a. a.put r s

  abbrev versioned : Resource B → Resource B → Resource B
  versioned r current = record {
    name = r.name;
    resource_version = current.resource_version;
    labels = r.labels;
    spec = r.spec;
  }

  -- What is there is put with the version of the stored one.
  unfoldable pub apply : Option (Resource B) → S → Option (S × Option Text)
  unfolding get create update
  apply none s = some (s, none)
  apply (some r) s = elim (get r.name s) [
    | none ↦ none
    | some (err _) ↦ create (some r) s
    | some (ok current) ↦ update (some (versioned r current)) s
  ]

  unfoldable pub destroy : Text → S → Option (S × Option Text)
  destroy name s = requests λ a. a.remove unset name s

  unfoldable pub list : S → Option (Result (List (Resource B)))
  list s = requests λ a. a.items s
