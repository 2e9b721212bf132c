-- ===== src/Diff/Tools.antt =====
-- What pkg/diff calls and the repository does not implement: the pretty-printed difference of
-- kylelemons/godebug, quantities of k8s.io/apimachinery, and the cluster's external secrets.
use environment_operator.Prelude.{Text, Bool, true, ◌≡◌, [], List, Option, some}
use environment_operator.Bitesize.Types.{Service}

pub record Tools : Type 0 where
  -- compareConfig.Compare, at the three types that it is called with
  pub diff_services : Option Service → Service → Text
  -- (of URLs with whether they are empty and not nil)
  pub diff_urls : List Text × Bool → List Text × Bool → Text
  pub diff_names : Text → Text → Text
  -- a, _ := ParseQuantity(x); b, _ := ParseQuantity(y); a.Cmp(b) == 0
  pub same_quantity : Text → Text → Bool
  -- k8s.ExternalSecretsEnabled, and ExternalSecretExist of a namespace and a name
  pub external_secrets_enabled : Bool
  pub external_secret_exists : Text → Text → Bool

-- Documented behaviour: a value has no difference to itself, slices that are nil being told from empty
-- ones (Bitesize/Types), and a quantity compares equal to itself.
pub record ToolsLaws (t : Tools) : Type 0 where
  pub diff_services_refl : (s : Service) → t.diff_services (some s) s ≡ []
  pub diff_urls_refl : (us : List Text × Bool) → t.diff_urls us us ≡ []
  pub diff_names_refl : (n : Text) → t.diff_names n n ≡ []
  pub same_quantity_refl : (q : Text) → t.same_quantity q q ≡ true
