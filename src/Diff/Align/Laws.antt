-- ===== src/Diff/Align/Laws.antt =====
-- A deployed service that is aligned to itself stays as it is.
use environment_operator.Prelude.{
  Text, TextMap, insert, lookup, ◌==◌, ==_iff, ==_refl, Bool, true, false, List, [], ◌∷◌, Option,
  none, some, ℤ, ◌≡◌, ◌≢◌, refl, arith, equal_fold, to_lower, is_empty, if◌then◌else◌, Bool-cases,
  inl, inr, All,
}
use environment_operator.Prelude.Sort.{IsDistinct}
use environment_operator.Bitesize.Types.{HttpGetAction, Probe, Resources, Service}
use environment_operator.Diff.Tools.{Tools, ToolsLaws}
use environment_operator.Diff.Align.{
  or_int, or_list, align_get, align_probe, align_probes, merge_annotations, align_annotations,
  sync_quantity, align_http_get, sync_resources, align_limits, align_type, align_desired,
  align_current, headers_made, align_headers,
}

abbrev pub key_of : Text × Text → Text
key_of e = e.0

or_int_self : (c : ℤ) → or_int c c ≡ c
unfolding or_int
or_int_self c = ground arith

or_list_self {ℓ} : {A : Type ℓ} (c : List A) → or_list c c ≡ c
unfolding or_list
or_list_self [] = refl
or_list_self (x ∷ c) = refl

ruleset or_laws = (or_int_self, or_list_self)

align_get_self : (c : Option HttpGetAction) → align_get c c ≡ c
unfolding align_get
align_get_self none = refl
align_get_self (some c) = unfold align_http_get in simp or_laws

ruleset get_laws = (or_laws, align_get_self)

align_probe_self : (c : Probe) → align_probe c c ≡ c
unfolding align_probe
align_probe_self c = simp get_laws

align_probes_self : (c : Option Probe) → align_probes c c ≡ c
unfolding align_probes
align_probes_self none = refl
align_probes_self (some c) = simp align_probe_self

equal_fold_refl : (s : Text) → equal_fold s s ≡ true
unfolding equal_fold
equal_fold_refl s = ==_refl (to_lower s)

align_type_self : (c : Text) → align_type c c ≡ c
unfolding align_type
align_type_self [] = refl
align_type_self (x ∷ c) = ground (arith, equal_fold_refl (x ∷ c))

insert_present : (k v : Text) (m : TextMap Text) → lookup k m ≡ some v → insert k v m ≡ m
unfolding lookup insert
insert_present k v [] h = cc
insert_present k v ((j, w) ∷ m) h = elim (Bool-cases (j == k)) [
  | inl e ↦ let same : j ≡ k = (==_iff j k).0 e in ground arith
  | inr e ↦ ground (arith, insert_present k v m)
]

merge_annotations_self :
    (current desired : TextMap Text)
    → All (λ e. lookup (key_of e) desired ≡ some e.1) current
    → merge_annotations desired current ≡ desired
unfolding merge_annotations
merge_annotations_self [] desired h = refl
merge_annotations_self ((k, v) ∷ current) desired h =
    ground (arith, merge_annotations_self current desired h.1, insert_present k v desired h.0)

lookup_later :
    (j : Text) (w : Text) (m : TextMap Text) (es : TextMap Text)
    → All (λ e. j ≢ key_of e) es
    → All (λ e. lookup (key_of e) m ≡ some e.1) es
    → All (λ e. lookup (key_of e) ((j, w) ∷ m) ≡ some e.1) es
unfolding lookup
lookup_later j w m [] d h = tt
lookup_later j w m ((k, v) ∷ es) d h =
    (ground (arith, ==_iff j k, h.0, d.0), lookup_later j w m es d.1 h.1)

-- In a map each entry is what its key is looked up to.
lookup_entries :
    (m : TextMap Text) → IsDistinct key_of m → All (λ e. lookup (key_of e) m ≡ some e.1) m
unfolding lookup
lookup_entries [] d = tt
lookup_entries ((k, v) ∷ m) d =
    (ground (arith, ==_refl k), lookup_later k v m m d.0 (lookup_entries m d.1))

align_annotations_self :
    (version : Text) (m : TextMap Text) → IsDistinct key_of m → align_annotations version m m ≡ m
unfolding align_annotations
align_annotations_self [] m d = refl
align_annotations_self (x ∷ version) m d = merge_annotations_self m m (lookup_entries m d)

if_same : {A : Type 0} (b : Bool) (a : A) → (if b then a else a) ≡ a
if_same true a = refl
if_same false a = refl

headers_made_self : (o : Option HttpGetAction) (b : Bool) → headers_made o o b b ≡ b
unfolding headers_made
headers_made_self none b = refl
headers_made_self (some c) b = if_same (is_empty c.http_headers) b

align_headers_self : (o : Option Probe) (b : Bool) → align_headers o o b b ≡ b
unfolding align_headers
align_headers_self none b = refl
align_headers_self (some c) b = headers_made_self c.handler.http_get b

module _ (t : Tools) (laws : ToolsLaws t) where
  sync_quantity_self : (c : Text) → sync_quantity t c c ≡ c
  unfolding sync_quantity
  sync_quantity_self c = ground arith

  ruleset quantity_laws = (sync_quantity_self)

  sync_resources_self : (c : Resources) → sync_resources t c c ≡ c
  unfolding sync_resources
  sync_resources_self c = simp quantity_laws

  align_limits_self : (type : Text) (c : Resources) → align_limits t type c c ≡ c
  unfolding align_limits
  align_limits_self [] c = sync_resources_self c
  align_limits_self (x ∷ type) c = sync_resources_self c

  ruleset self_laws = (
    or_laws, align_probes_self, align_type_self, align_limits_self, sync_resources_self, if_same,
    align_headers_self,
  )

  -- A deployed service aligned with itself differs from it in the blue/green settings at most, which
  -- are cleared on both sides.
  pub align_desired_self :
      (c : Service) → IsDistinct key_of c.annotations → align_desired t c c ≡ align_current c
  unfolding align_desired align_current
  align_desired_self c d =
      let e = align_annotations_self c.version c.annotations d in simp (self_laws, e)
