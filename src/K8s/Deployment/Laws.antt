-- ===== src/K8s/Deployment/Laws.antt =====
-- What applying a deployment sends to the API server.
use environment_operator.Prelude.{
  Text, ◌==◌, not, Bool, true, false, List, [], ◌∷◌, Option, some, Result, ok, err, ◌≡◌, refl, ◌∙◌,
  ap, TextMap, is_empty, text_at, codes, text_at-insert, Bool-cases, inl, inr, ◌⊎◌, ◌++◌,
  if◌then◌else◌,
}
use environment_operator.K8s.Api.{Api, Resource}
use environment_operator.K8s.Deployment.{
  Spec, keep_version, keep_image, exist, update, create, apply,
}

abbrev pub version_label : {B : Type 0} → Resource (Spec B) → Text
version_label r = text_at (codes "version") r.labels

abbrev pub has_image : List Text → Bool
has_image [] = false
has_image (image ∷ _) = not (is_empty image)

keep_version-none :
    (current labels : TextMap Text)
    → is_empty (text_at (codes "version") labels) ≡ true
    → text_at (codes "version") (keep_version current labels) ≡ text_at (codes "version") current
unfolding keep_version text_at ◌==◌
keep_version-none current labels e =
    rw e (
      text_at-insert (codes "version") (codes "version") (text_at (codes "version") current) labels)

keep_image-has_image :
    (current images : List Text)
    → has_image current ≡ true
    → is_empty images ≡ false
    → has_image (keep_image current images) ≡ true
unfolding keep_image
keep_image-has_image [] images h n = cc
keep_image-has_image (i ∷ is) [] h n = cc
keep_image-has_image (i ∷ is) (image ∷ images) h n = elim (Bool-cases (is_empty image)) [
  | inl e ↦ rw e h
  | inr e ↦ rw (e, e) refl
]

module _ {S B : Type 0} (api : Api S (Resource (Spec B))) where
  exist-ok :
      (name : Text) (current : Resource (Spec B)) (s : S)
      → api.get name s ≡ ok current
      → exist api name s ≡ true
  unfolding exist
  exist-ok name current s e = rw (e, exist) refl

  exist-err : (name x : Text) (s : S) → api.get name s ≡ err x → exist api name s ≡ false
  unfolding exist
  exist-err name x s e = rw (e, exist) refl

  abbrev pub sent : Resource (Spec B) → Resource (Spec B) → Resource (Spec B)
  sent r current = record {
    name = r.name;
    resource_version = current.resource_version;
    labels = keep_version current.labels r.labels;
    spec = record { images = keep_image current.spec.images r.spec.images; body = r.spec.body };
  }

  -- An object that is there is updated, one that is missing is created.
  pub apply-present :
      (r current : Resource (Spec B)) (s : S)
      → api.get r.name s ≡ ok current
      → apply api (some r) s ≡ api.put (sent r current) s
  unfolding apply update
  apply-present r current s e = rw (exist-ok r.name current s e) (rw (e, update) refl)

  pub apply-absent :
      (r : Resource (Spec B)) (x : Text) (s : S)
      → api.get r.name s ≡ err x
      → apply api (some r) s ≡ create api r s
  unfolding apply
  apply-absent r x s e = rw (exist-err r.name x s e) refl

  create-cases :
      (r : Resource (Spec B)) (s : S)
      → ((x : Text) × (create api r s ≡ (s, some x)))
        ⊎ ((has_image r.spec.images ≡ true) × (create api r s ≡ api.post r s))
  unfolding create
  create-cases r s = images r.spec.images
    where
      refused : Text
      refused = codes "Error creating deployment " ++ r.name ++ codes "; image not set"

      tried : List Text → S × Option Text
      tried [] = (s, some refused)
      tried (image ∷ _) = if is_empty image then (s, some refused) else api.post r s

      images :
          (is : List Text)
          → ((x : Text) × (tried is ≡ (s, some x)))
            ⊎ ((has_image is ≡ true) × (tried is ≡ api.post r s))
      images [] = inl (refused, refl)
      images (image ∷ is) = elim (Bool-cases (is_empty image)) [
        | inl e ↦ inl (refused, rw e refl)
        | inr e ↦ inr (rw e refl, rw e refl)
      ]

  -- The name, the image and the version of an object that is sent in place of one that was asked for.
  pub record IsWhole (r : Resource (Spec B)) (s : S) (q : Resource (Spec B)) : Type 0 where
    pub name : q.name ≡ r.name
    pub image : has_image q.spec.images ≡ true
    pub version :
        (current : Resource (Spec B))
        → api.get r.name s ≡ ok current
        → is_empty (version_label r) ≡ true
        → version_label q ≡ version_label current

  -- A deployment that has a container is applied; one that the server has under its name, if any, has
  -- an image. Then either nothing is sent and the error is returned, or one object is sent, to
  -- replace the one there or to be created: it has the name asked for and an image, and, where the
  -- deployment has no version, the version of the one there.
  pub apply-IsWhole :
      (r : Resource (Spec B)) (s : S)
      → is_empty r.spec.images ≡ false
      → ((current : Resource (Spec B))
          → api.get r.name s ≡ ok current
          → has_image current.spec.images ≡ true)
      → ((x : Text) × (apply api (some r) s ≡ (s, some x)))
        ⊎ ((q : Resource (Spec B)) × IsWhole r s q
            × ((apply api (some r) s ≡ api.put q s) ⊎ (apply api (some r) s ≡ api.post q s)))
  apply-IsWhole r s filled before = split (api.get r.name s) refl
    where
      split :
          (o : Result (Resource (Spec B)))
          → api.get r.name s ≡ o
          → ((x : Text) × (apply api (some r) s ≡ (s, some x)))
            ⊎ ((q : Resource (Spec B)) × IsWhole r s q
                × ((apply api (some r) s ≡ api.put q s) ⊎ (apply api (some r) s ≡ api.post q s)))
      split (ok current) here = inr (
        sent r current,
        record {
          name = refl;
          image =
              keep_image-has_image current.spec.images r.spec.images (before current here) filled;
          version = λ other there missing.
              let same : current ≡ other = cc in
              keep_version-none current.labels r.labels missing
              ∙ ap (λ (q : Resource (Spec B)). version_label q) same;
        },
        inl (apply-present r current s here),
      )
      split (err x) gone = elim (create-cases r s) [
        | inl (y, refuses) ↦ inl (y, apply-absent r x s gone ∙ refuses)
        | inr (image, posts) ↦ inr (
          r,
          record { name = refl; image = image; version = λ other there missing. cc },
          inr (apply-absent r x s gone ∙ posts),
        )
      ]
