-- ===== src/Translator/Variables.antt =====
-- The environment variables of a deployment: what is read back, and when they are refused.
use environment_operator.Prelude.{
  Text, codes, split, contains, ◌==◌, ==_iff, Bool, true, false, List, [], ◌∷◌, ◌++◌, map, Option,
  none, some, ok, err, ◌≡◌, ◌≢◌, refl, ap, sym, ◌∙◌, ◌↔◌, ◌||◌, if◌then◌else◌, arith, is_empty, All,
  Option-cases, inl, inr,
}
use environment_operator.Prelude.Splits.{split-append, split_whole}
use environment_operator.Bitesize.Types.{Service, EnvVar}
use environment_operator.Bitesize.Service.{blue_green_of}
use environment_operator.Cluster.Scrape.Objects.{KubeEnvVar}
use environment_operator.Cluster.Scrape.Containers.{is_reserved_env_var, env_var, env_vars}
use environment_operator.Translator.Objects.{Process, Cluster}
use environment_operator.Translator.Containers.{
  secret_parts, env_var_of, missing_secret, colour_vars, vars_of, kube_env_vars,
}

-- A variable of one kind: a value, the field of a pod, or the key of a secret. Its name is not that
-- of the colour's variable.
pub data IsPlain : EnvVar → Type 0 where
  plain_value :
      (name value : Text)
      → name ≢ codes "POD_DEPLOYMENT_COLOUR"
      → is_empty value ≡ false
      → IsPlain (record { name = name; value = value; secret = []; pod_field = [] })
  plain_field :
      (name field : Text)
      → name ≢ codes "POD_DEPLOYMENT_COLOUR"
      → is_empty field ≡ false
      → IsPlain (record { name = name; value = []; secret = []; pod_field = field })
  plain_secret :
      (secret name key : Text)
      → secret ≢ codes "POD_DEPLOYMENT_COLOUR"
      → is_empty secret ≡ false
      → contains b'/' name ≡ false
      → contains b'/' key ≡ false
      → IsPlain
          (record { name = []; value = name ++ (b'/' ∷ key); secret = secret; pod_field = [] })

-- What is read of the variable that is made.
env_var-env_var_of :
    (e : EnvVar)
    → IsPlain e
    → (is_reserved_env_var (env_var_of e) ≡ false) × (env_var (env_var_of e) ≡ e)
unfolding is_reserved_env_var env_var env_var_of secret_parts
env_var-env_var_of _ (plain_value name value n v) =
    (rw v (ground (arith, ==_iff name (codes "POD_DEPLOYMENT_COLOUR"))), rw v refl)
env_var-env_var_of _ (plain_field name field n v) =
    (rw v (ground (arith, ==_iff name (codes "POD_DEPLOYMENT_COLOUR"))), rw v refl)
env_var-env_var_of _ (plain_secret secret name key n s a b) = (
  rw s (ground (arith, ==_iff secret (codes "POD_DEPLOYMENT_COLOUR"))),
  rw (s, split-append b'/' name key a, split_whole b'/' key b) refl,
)

env_vars-cons :
    (k : KubeEnvVar) (ks : List KubeEnvVar)
    → is_reserved_env_var k ≡ false
    → env_vars (k ∷ ks) ≡ env_var k ∷ env_vars ks
unfolding env_vars
env_vars-cons k ks h = rw h refl

env_vars-colour_vars : (svc : Service) → env_vars (colour_vars svc) ≡ []
unfolding env_vars colour_vars is_reserved_env_var ◌==◌
env_vars-colour_vars svc = elim (Option-cases (blue_green_of svc)) [
  | inl e ↦ rw (e, colour_vars) refl
  | inr (b, e) ↦ elim (Option-cases b.deployment_colour) [
    | inl n ↦ rw (e, n, colour_vars) refl
    | inr (c, n) ↦ rw (e, n, colour_vars) refl
  ]
]

env_vars-made :
    (es : List EnvVar) (svc : Service)
    → All IsPlain es
    → env_vars (map env_var_of es ++ colour_vars svc) ≡ es
env_vars-made [] svc h = env_vars-colour_vars svc
env_vars-made (e ∷ es) svc h =
    let (kept, same) = env_var-env_var_of e h.0 in
    env_vars-cons (env_var_of e) (map env_var_of es ++ colour_vars svc) kept
    ∙ rw (same, env_vars-made es svc h.1) refl

-- The secret that a variable needs is there.
abbrev pub HasSecret : (Text → Bool) → EnvVar → Type 0
HasSecret has e = e.secret ≢ [] → has ((secret_parts (split b'/' e.value)).0) ≡ true

missing_secret-none :
    (has : Text → Bool) (es : List EnvVar) → All (HasSecret has) es → missing_secret has es ≡ none
unfolding missing_secret
missing_secret-none has [] h = refl
missing_secret-none has (e ∷ es) h = rw (missing_secret-none has es h.1) (ground (arith, h.0))

kept_none :
    (later : Option Text) (fine : Bool) (name : Text)
    → elim later [ some n ↦ some n | none ↦ (if fine then none else some name) ] ≡ none
    → (later ≡ none) × (fine ≡ true)
kept_none none true name h = (refl, refl)
kept_none none false name h = cc
kept_none (some n) fine name h = cc

missing_secret-HasSecret :
    (has : Text → Bool) (es : List EnvVar) → missing_secret has es ≡ none → All (HasSecret has) es
unfolding missing_secret
missing_secret-HasSecret has [] h = tt
missing_secret-HasSecret has (e ∷ es) h =
    let name : Text = (secret_parts (split b'/' e.value)).0 in
    let (none_later, fine) =
      kept_none (missing_secret has es) (is_empty e.secret || has name) name h in
    (λ filled. there e.secret (has name) filled fine, missing_secret-HasSecret has es none_later)
  where
    there :
        (secret : Text) (found : Bool)
        → secret ≢ []
        → (is_empty secret || found) ≡ true
        → found ≡ true
    there [] found filled fine = elim (filled refl) [ ]
    there (_ ∷ _) found filled fine = fine

made_ok :
    (missing : Option Text) (message : Text → Text) (ks vs : List KubeEnvVar)
    → elim missing [ some name ↦ err (message name) | none ↦ ok ks ] ≡ ok vs
    → (missing ≡ none) × (ks ≡ vs)
made_ok none message ks vs h = (refl, cc)
made_ok (some name) message ks vs h = cc

-- The variables of a deployment are made exactly when the cluster has every secret that they need;
-- each is then made of its own entry, with the colour's variable behind them. Otherwise the result is
-- an error.
pub kube_env_vars-HasSecret :
    (p : Process) (c : Cluster) (svc : Service) (vs : List KubeEnvVar)
    → (kube_env_vars p c svc ≡ ok vs) ↔ (
        All (HasSecret c.secret_exists) svc.env_vars
        × (vs ≡ map env_var_of svc.env_vars ++ colour_vars svc))
unfolding kube_env_vars vars_of
kube_env_vars-HasSecret p c svc vs = (
  λ h.
      let (absent, same) = made_ok (missing_secret c.secret_exists svc.env_vars) _ _ vs h in
      (missing_secret-HasSecret c.secret_exists svc.env_vars absent, sym same),
  λ h. rw (missing_secret-none c.secret_exists svc.env_vars h.0, vars_of) (ap ok (sym h.1)),
)

-- When every variable of a service is a value, a field or a secret's key, and none has the name of
-- the colour's variable, the variables read back from its deployment are those of the service.
pub env_vars-kube_env_vars :
    (p : Process) (c : Cluster) (svc : Service) (vs : List KubeEnvVar)
    → All IsPlain svc.env_vars
    → kube_env_vars p c svc ≡ ok vs
    → env_vars vs ≡ svc.env_vars
env_vars-kube_env_vars p c svc vs plain h =
    let (_, made) = (kube_env_vars-HasSecret p c svc vs).0 h in
    rw made (env_vars-made svc.env_vars svc plain)
