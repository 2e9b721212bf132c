-- ===== src/K8s/Api.antt =====
-- The API server as the clients use it, and the part of an object's metadata that they read or set.
-- The specification of each kind is a parameter where its client does not look inside.
use environment_operator.Prelude.{Text, TextMap, List, Option, Result}

pub record Resource (Spec : Type 0) : Type 0 where
  pub name : Text
  pub resource_version : Text
  pub labels : TextMap Text
  pub spec : Spec

-- The propagation policy of a delete, where one is given: with the foreground policy an object stays
-- until what depends on it is deleted.
pub data Propagation : Type 0 where
  unset foreground : Propagation

-- The requests for one kind of object in one namespace, on the state of the server.
pub record Api (S O : Type 0) : Type 0 where
  pub get : Text → S → Result O
  pub post : O → S → S × Option Text
  pub put : O → S → S × Option Text
  pub remove : Propagation → Text → S → S × Option Text
  pub items : S → Result (List O)
