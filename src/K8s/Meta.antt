-- ===== src/K8s/Meta.antt =====
-- metav1.ObjectMeta and TypeMeta, as far as the program sets them. A nil map is an empty one.
use environment_operator.Prelude.{Text, TextMap}

pub record Meta : Type 0 where
  pub name : Text
  pub namespace : Text
  pub resource_version : Text
  pub labels : TextMap Text
  pub annotations : TextMap Text

pub record TypeMeta : Type 0 where
  pub kind : Text
  pub api_version : Text
