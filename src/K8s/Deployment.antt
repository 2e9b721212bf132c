-- ===== src/K8s/Deployment.antt =====
-- pkg/util/k8s/deployment.go: an update keeps the version and the first image where they are missing,
-- and no deployment without an image is created. The label map is taken to be made, as the program
-- always makes it.
pub mod Laws
use environment_operator.Prelude.{
  Text, Bool, true, false, List, [], ◌∷◌, Option, none, some, Result, ok, err, if◌then◌else◌,
  TextMap, is_empty, text_at, insert, codes, ◌++◌,
}
use environment_operator.K8s.Api.{Api, Resource, foreground}

-- The images of the containers, and the rest.
pub record Spec (B : Type 0) : Type 0 where
  pub images : List Text
  pub body : B

-- The version and the first image of the stored one fill in for missing ones.
unfoldable pub keep_version : TextMap Text → TextMap Text → TextMap Text
keep_version current labels =
    if is_empty (text_at (codes "version") labels)
    then insert (codes "version") (text_at (codes "version") current) labels
    else labels

unfoldable pub keep_image : List Text → List Text → List Text
keep_image [] images = images
keep_image (i ∷ is) [] = []
keep_image (i ∷ is) (image ∷ images) = if is_empty image then i ∷ images else image ∷ images

module _ {S B : Type 0} (api : Api S (Resource (Spec B))) where
  unfoldable pub exist : Text → S → Bool
  exist name s = elim (api.get name s) [ ok _ ↦ true | err _ ↦ false ]

  unfoldable pub update : Resource (Spec B) → S → S × Option Text
  update r s = elim (api.get r.name s) [
    | err x ↦ (s, some x)
    | ok current ↦
        api.put
          (record {
            name = r.name;
            resource_version = current.resource_version;
            labels = keep_version current.labels r.labels;
            spec = record {
              images = keep_image current.spec.images r.spec.images;
              body = r.spec.body;
            };
          })
          s
  ]

  unfoldable pub create : Resource (Spec B) → S → S × Option Text
  create r s =
      let refused : S × Option Text =
        (s, some (codes "Error creating deployment " ++ r.name ++ codes "; image not set")) in
      elim r.spec.images [
        | [] ↦ refused
        | image ∷ _ ↦ if is_empty image then refused else api.post r s
      ]

  unfoldable pub apply : Option (Resource (Spec B)) → S → S × Option Text
  apply none s = (s, none)
  apply (some r) s = if exist r.name s then update r s else create r s

  unfoldable pub destroy : Text → S → S × Option Text
  destroy name s = api.remove foreground name s

  unfoldable pub list : S → Result (List (Resource (Spec B)))
  list s = api.items s
