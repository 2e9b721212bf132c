-- ===== src/Bitesize/Unmarshal.antt =====
-- The UnmarshalYAML methods of pkg/bitesize/service.go and their helpers. What the YAML library and
-- the validator make of a document is a parameter: each call of `unmarshal` is its result.
pub mod Ports
pub mod Completed
use environment_operator.Prelude.{
  Text, TextMap, codes, split, insert, ◌==◌, Bool, true, false, List, [], ◌∷◌, ◌++◌, map, Option,
  none, some, Result, ok, err, ◌>>=◌, ℤ, pos, nonzero, is_empty, if◌then◌else◌,
}
use environment_operator.Prelude.Numbers.{Parsed, number, syntax, range, atoi}
use environment_operator.Bitesize.Types.{
  Service, Volume, Metric, Value, text, array, object, Values, nil, cons, Fields, end, field,
}
use environment_operator.Bitesize.Zero.{
  no_service, no_resources, no_deployment, no_volume, no_metric, no_empties,
}

-- The defaults that the process takes from its environment.
pub record Defaults : Type 0 where
  pub limit_memory : Text
  pub limit_cpu : Text
  pub request_cpu : Text

-- An `interface{}` that came out of YAML; a scalar that is no string has the text of its %v. A map
-- lists the texts of its keys in the order in which it is read.
mutual
  pub data Raw : Type 0 where
    string scalar : Text → Raw
    sequence : RawItems → Raw
    mapping : RawFields → Raw

  pub data RawItems : Type 0 where
    no_items : RawItems
    item : Raw → RawItems → RawItems

  pub data RawFields : Type 0 where
    no_fields : RawFields
    raw_field : Text → Raw → RawFields → RawFields

-- The external_url of a document. An item that is no string has the text of reflect's String.
pub data Url : Type 0 where
  no_url : Url
  one_url : Text → Url
  many_urls : List Text → Url
  other_url : Text → Url

-- The calls of `unmarshal` and `Validate` on one service: the texts of port and ports, the pairs of
-- annotations, the URLs, the options, the decoding over a service, and the validator.
pub record Document : Type 0 where
  pub ports : Result (Text × Text)
  pub annotations : Result (List (Text × Text))
  pub external_url : Result Url
  pub options : Result RawFields
  pub decode : Service → Result Service
  pub validate : Service → Result (Unit {0})

unfoldable pub service_with_defaults : Defaults → Service
service_with_defaults d = record no_service {
  ports = pos 80 ∷ [];
  replicas = pos 1;
  limits = record { memory = d.limit_memory; cpu = d.limit_cpu };
  requests = record no_resources { cpu = d.request_cpu };
  deployment = some no_deployment;
  ssl = codes "false";
  https_only = codes "false";
  empties = record no_empties { external_url = true };
}

abbrev numbers_of : Parsed → List ℤ → List ℤ
numbers_of (number n) rest = n ∷ rest
numbers_of _ rest = rest

abbrev parse_all : List Text → List ℤ
parse_all [] = []
parse_all (p ∷ ps) = numbers_of (atoi p) (parse_all ps)

-- The pieces that are no numbers are left out.
unfoldable pub string_to_int_array : Text → List ℤ
string_to_int_array s = parse_all (split b',' s)

unfoldable pub unmarshal_ports : Result (Text × Text) → Result (List ℤ)
unfolding string_to_int_array
unmarshal_ports (err x) = err x
unmarshal_ports (ok (port, ports)) =
    if is_empty ports
    then (if is_empty port then ok (pos 80 ∷ []) else ok (string_to_int_array port))
    else ok (string_to_int_array ports)

abbrev insert_all : List (Text × Text) → TextMap Text → TextMap Text
insert_all [] m = m
insert_all ((name, value) ∷ rest) m = insert_all rest (insert name value m)

unfoldable pub unmarshal_annotations : Result (List (Text × Text)) → Result (TextMap Text)
unmarshal_annotations (err x) = err x
unmarshal_annotations (ok pairs) = ok (insert_all pairs [])

-- m[k] = v
unfoldable pub set_field : Text → Value → Fields → Fields
set_field key value end = field key value end
set_field key value (field k v rest) =
    let more = set_field key value rest in if k == key then field key value rest else field k v more

unfoldable mutual
  pub cleanup_value : Raw → Value
  cleanup_value (string s) = text s
  cleanup_value (scalar s) = text s
  cleanup_value (sequence items) = array (cleanup_array items)
  cleanup_value (mapping fields) = object (cleanup_map fields end)

  pub cleanup_array : RawItems → Values
  cleanup_array no_items = nil
  cleanup_array (item v rest) = cons (cleanup_value v) (cleanup_array rest)

  pub cleanup_map : RawFields → Fields → Fields
  cleanup_map no_fields done = done
  cleanup_map (raw_field key v rest) done = cleanup_map rest (set_field key (cleanup_value v) done)

abbrev unless_end : Fields → Option Fields
unless_end end = none
unless_end (field k v rest) = some (field k v rest)

unfoldable pub unmarshal_options : Result RawFields → Result (Option Fields)
unfolding cleanup_map
unmarshal_options (err x) = err x
unmarshal_options (ok fields) = ok (unless_end (cleanup_map fields end))

unfoldable pub unmarshal_external_url : Result Url → Result (List Text)
unmarshal_external_url (err x) = err x
unmarshal_external_url (ok no_url) = ok []
unmarshal_external_url (ok (one_url u)) = ok (u ∷ [])
unmarshal_external_url (ok (many_urls us)) = ok us
unmarshal_external_url (ok (other_url message)) = err message

-- fmt.Errorf of a prefix and the error
abbrev prefixed {ℓ} : {A : Type ℓ} → Text → Result A → Result A
prefixed prefix (err x) = err (prefix ++ x)
prefixed prefix (ok v) = ok v

-- What follows from the fields that were read. The URLs are a slice that is made, and the ports one
-- that is nil as long as it is empty.
unfoldable pub completed : List ℤ → TextMap Text → List Text → Option Fields → Service → Service
completed ports annotations urls options e =
    let scaled = nonzero e.hpa.min_replicas in
    record e {
      ports = if is_empty e.type then ports else [];
      annotations = annotations;
      external_url = urls;
      options = options;
      empties = record e.empties { external_url = is_empty urls; ports = false };
      replicas = if scaled then e.hpa.min_replicas else e.replicas;
      hpa = record e.hpa {
        metric =
            if scaled
            then (if is_empty e.hpa.metric.name
                then record no_metric { name = codes "cpu"; target_average_utilization = pos 80 }
                else e.hpa.metric)
            else e.hpa.metric;
      };
    }

unfoldable pub unmarshal_service : Defaults → Document → Result Service
unfolding service_with_defaults unmarshal_ports unmarshal_annotations unmarshal_external_url
    unmarshal_options completed
unmarshal_service defaults d = do
  ports ← prefixed (codes "service.ports.") (unmarshal_ports d.ports)
  annotations ← prefixed (codes "service.annotations.") (unmarshal_annotations d.annotations)
  urls ← prefixed (codes "service.external_url.") (unmarshal_external_url d.external_url)
  options ← prefixed (codes "service.options.") (unmarshal_options d.options)
  plain ← prefixed (codes "service.") (d.decode (service_with_defaults defaults))
  valid ← prefixed (codes "service.") (d.validate (completed ports annotations urls options plain))
  ok (completed ports annotations urls options plain)

unfoldable pub volume_with_defaults : Volume
volume_with_defaults = record no_volume {
  modes = codes "ReadWriteOnce";
  provisioning = codes "dynamic";
  type = codes "ebs";
}

unfoldable pub unmarshal_volume : (Volume → Result Volume) → Result Volume
unfolding volume_with_defaults
unmarshal_volume decode = prefixed (codes "volume.") (decode volume_with_defaults)
