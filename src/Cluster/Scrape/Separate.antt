-- ===== src/Cluster/Scrape/Separate.antt =====
-- The entry of a service in the map depends on the objects of its name only, in the order in which
-- they are listed.
use mathlib.Core.Path.{subst}
use environment_operator.Prelude.{
  Text, TextMap, lookup, lookup-insert, insert, ◌==◌, ==_iff, ==_refl, Bool, true, false, not, ◌&&◌,
  List, [], ◌∷◌, Option, none, some, ◌≡◌, refl, ap, sym, ◌∙◌, Bool-cases, inl, inr, if◌then◌else◌,
}
use environment_operator.Bitesize.Types.{Service}
use environment_operator.Cluster.Scrape.{or_new, create_or_get}
use environment_operator.Cluster.Scrape.Events.{Found, name_of, is_stray, write, put, add, add_all}

-- Whether an object is of the service.
abbrev pub is_of : Text → Found → Bool
is_of name f = not (is_stray f) && (name_of f == name)

-- The objects of the service, in turn.
unfoldable pub own : Text → List Found → List Found
own name [] = []
own name (f ∷ fs) = if is_of name f then f ∷ own name fs else own name fs

module _ (zero name : Text) where
  -- The entry after the service's own objects were read.
  unfoldable pub read_own : List Found → Option Service → Option (Option Service)
  read_own [] o = some o
  read_own (f ∷ fs) o = elim (write zero f (or_new name o)) [
    | none ↦ none
    | some s ↦ read_own fs (some s)
  ]

  -- Another object leaves the entry.
  other_object :
      (f : Found) (m m' : TextMap Service)
      → is_of name f ≡ false
      → add zero f m ≡ some m'
      → lookup name m' ≡ lookup name m
  unfolding add put
  other_object f m m' other e = elim (Bool-cases (is_stray f)) [
    | inl stray ↦ let same : m ≡ m' = cc (rw stray at e) in ap (lookup name) (sym same)
    | inr placed ↦
        let unlike : (name_of f == name) ≡ false = rw placed at other in
        put_other (write zero f (create_or_get (name_of f) m)) unlike (rw placed at e)
  ]
    where
      put_other :
          (o : Option Service)
          → (name_of f == name) ≡ false
          → put (name_of f) o m ≡ some m'
          → lookup name m' ≡ lookup name m
      put_other none unlike e = cc
      put_other (some s) unlike e =
          let same : insert (name_of f) s m ≡ m' = cc in
          ap (lookup name) (sym same) ∙ lookup-insert (name_of f) name s m ∙ rw unlike refl

  -- An object of the service is written to its entry.
  own_object :
      (f : Found) (m m' : TextMap Service)
      → is_of name f ≡ true
      → add zero f m ≡ some m'
      → (s : Service) × (write zero f (or_new name (lookup name m)) ≡ some s)
        × (lookup name m' ≡ some s)
  unfolding add put create_or_get
  own_object f m m' mine e = elim (Bool-cases (is_stray f)) [
    | inl stray ↦ cc (rw stray at mine)
    | inr placed ↦
        let same : name_of f ≡ name = (==_iff (name_of f) name).0 (rw placed at mine) in
        put_own (write zero f (or_new name (lookup name m))) (
          subst (λ (k : Text). put k (write zero f (create_or_get k m)) m ≡ some m') same
            (rw placed at e))
  ]
    where
      put_own :
          (o : Option Service)
          → put name o m ≡ some m'
          → (s : Service) × (o ≡ some s) × (lookup name m' ≡ some s)
      put_own none h = cc
      put_own (some s) h =
          let same : insert name s m ≡ m' = cc in
          (
            s,
            refl,
            ap (lookup name) (sym same) ∙ lookup-insert name name s m ∙ rw (==_refl name) refl,
          )

  -- When reading the listed objects ends without a panic, the entry of a service is what its own
  -- objects, in the order in which they are listed, make of the entry before them: the other objects
  -- have no part in it.
  pub add_all-own :
      (fs : List Found) (m m' : TextMap Service)
      → add_all zero fs m ≡ some m'
      → read_own (own name fs) (lookup name m) ≡ some (lookup name m')
  unfolding add_all own read_own
  add_all-own [] m m' e =
      let same : m ≡ m' = cc in ap (λ (n : TextMap Service). some (lookup name n)) same
  add_all-own (f ∷ fs) m m' e = step (add zero f m) refl e (λ n. add_all-own fs n m')
    where
      step :
          (o : Option (TextMap Service))
          → add zero f m ≡ o
          → elim o [ none ↦ none | some n ↦ add_all zero fs n ] ≡ some m'
          → ((n : TextMap Service)
              → add_all zero fs n ≡ some m'
              → read_own (own name fs) (lookup name n) ≡ some (lookup name m'))
          → read_own (if is_of name f then f ∷ own name fs else own name fs) (lookup name m)
            ≡ some (lookup name m')
      step none added rest ih = cc
      step (some n) added rest ih = elim (Bool-cases (is_of name f)) [
        | inl mine ↦
            let (s, written, found) = own_object f m n mine added in
            rw (mine, read_own, written) (rw found at (ih n rest))
        | inr other ↦ rw other (rw (other_object f m n other added) at (ih n rest))
      ]
