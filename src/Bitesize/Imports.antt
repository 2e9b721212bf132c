-- ===== src/Bitesize/Imports.antt =====
-- LoadResource of pkg/bitesize/gist.go and the generator of pkg/util/configmap_generator.go. The files,
-- the decoding of their objects, the paths, the rules for keys and the hash are parameters. An
-- object without labels is taken to have a nil map of them.
use environment_operator.Prelude.{
  ℕ, zero, suc, Text, TextMap, codes, lookup, insert, ◌==◌, Bool, true, false, List, [], ◌∷◌, ◌++◌,
  map, length, ltb, eqb, none, some, Result, ok, err, ◌>>=◌, is_empty, if◌then◌else◌,
}
use environment_operator.Bitesize.Gists.{Object, Gist, type_configmap, type_job, type_cronjob}

pub data Entry : Type 0 where
  file directory : Entry

-- A directory lists its items by name, with whether each is a regular file. A decoding opens a path.
pub record Files : Type 0 where
  pub join_path : Text → Text → Text
  pub base : Text → Text
  pub stat : Text → Result Entry
  pub read_dir : Text → Result (List (Text × Bool))
  pub read_file : Text → Result Text
  pub decode : Text → Result Object
  pub is_key : Text → Bool
  pub hash : Object → Result Text

-- The letters that stand for vowels and for what looks like one.
abbrev consonant : ℕ → ℕ
consonant c =
    if eqb c b'0'
    then b'g'
    else if eqb c b'1'
    then b'h'
    else if eqb c b'3'
    then b'k'
    else if eqb c b'a'
    then b'm'
    else if eqb c b'e'
    then b't'
    else c

abbrev first_ten : ℕ → Text → Text
first_ten zero s = []
first_ten (suc n) [] = []
first_ten (suc n) (c ∷ s) = c ∷ first_ten n s

unfoldable pub encode_hash : Text → Result Text
encode_hash hex =
    if ltb (length hex) 10
    then err (codes "the hex string must contain at least 10 characters")
    else ok (map consonant (first_ten 10 hex))

module _ (files : Files) where
  -- Of the two errors only the kind is kept.
  unfoldable pub add_key_from_literal : TextMap Text → Text → Text → Result (TextMap Text)
  add_key_from_literal content key value =
      if files.is_key key
      then elim (lookup key content) [
        | none ↦ ok (insert key value content)
        | some _ ↦ err (codes "another key by that name already exists: " ++ key)
      ]
      else err (codes "not a valid key name for a ConfigMap: " ++ key)

  unfoldable pub add_key_from_file : TextMap Text → Text → Text → Result (TextMap Text)
  unfolding add_key_from_literal
  add_key_from_file content key path =
      files.read_file path >>= λ value. add_key_from_literal content key value

  -- The items that are no regular files are left out.
  unfoldable pub add_items : Text → List (Text × Bool) → TextMap Text → Result (TextMap Text)
  unfolding add_key_from_file
  add_items path [] content = ok content
  add_items path ((name, false) ∷ items) content = add_items path items content
  add_items path ((name, true) ∷ items) content =
      add_key_from_file content name (files.join_path path name) >>= λ more.
      add_items path items more

  abbrev wrapped : {A : Type 0} → Text → Result A → Result A
  wrapped context (err x) = err (context ++ codes ": " ++ x)
  wrapped context (ok a) = ok a

  unfoldable pub add_source : Text → TextMap Text → Result (TextMap Text)
  unfolding add_items
  add_source path content = wrapped (codes "error reading " ++ path) (files.stat path) >>= λ entry.
      elim entry [
        | file ↦ add_key_from_file content (files.base path) path
        | directory ↦
            wrapped (codes "error listing files in " ++ path) (files.read_dir path) >>= λ items.
            add_items path items content
      ]

  unfoldable pub handle_sources : List Text → TextMap Text → Result (TextMap Text)
  unfolding add_source
  handle_sources [] content = ok content
  handle_sources (path ∷ paths) content =
      add_source path content >>= λ more. handle_sources paths more

  unfoldable pub generate : Text → List Text → Bool → Result Object
  unfolding handle_sources encode_hash
  generate name sources append_hash =
      if is_empty name
      then err (codes "name must be specified")
      else (handle_sources sources [] >>= λ content.
          let object : Object = record {
            name = name;
            namespace = [];
            labels = [];
            content = content;
          } in
          if append_hash
          then (files.hash object >>= λ hex.
              encode_hash hex >>= λ h. ok (record object { name = name ++ (b'-' ∷ h) }))
          else ok object)

  abbrev with_creator : TextMap Text → TextMap Text
  with_creator labels = insert (codes "creator") (codes "pipeline") labels

  -- The metadata that every kind writes to the config map of the resource.
  abbrev pub named_as : Text → Text → TextMap Text → Object → Object
  named_as name namespace labels object = record object {
    name = name;
    namespace = namespace;
    labels = with_creator labels;
  }

  -- A job keeps its own name and namespace, and a cron job without labels gets none.
  unfoldable pub decoded : Text → Object → Gist → Gist
  decoded namespace object res =
      if res.type == type_configmap
      then record res { config_map = named_as res.name namespace object.labels object }
      else if res.type == type_job
      then record res {
        job = record object { labels = with_creator object.labels };
        config_map = named_as res.name namespace object.labels res.config_map;
      }
      else record res {
        cron_job =
            if is_empty object.labels
            then object
            else record object { labels = with_creator object.labels };
        config_map = named_as res.name namespace object.labels res.config_map;
      }

  abbrev is_decoded : Text → Bool
  is_decoded type =
      if type == type_configmap
      then true
      else if type == type_job
      then true
      else type == type_cronjob

  -- The file is opened whatever the type, which `stat` stands for here.
  unfoldable pub load_path : Text → Text → Gist → Result Gist
  unfolding decoded
  load_path namespace root res =
      let path = files.join_path root res.path in
      if is_empty res.path
      then ok res
      else (files.stat path >>= λ entry.
          if is_decoded res.type
          then (files.decode path >>= λ object. ok (decoded namespace object res))
          else ok res)

  unfoldable pub load_files : Text → Text → Gist → Result Gist
  unfolding generate
  load_files namespace root res =
      let paths = map (λ p. files.join_path root p) res.files in
      if is_empty res.files
      then ok res
      else (generate res.name paths false >>= λ object.
          ok (record res { files = paths; config_map = named_as res.name namespace [] object }))

  unfoldable pub load_resource : Text → Text → Gist → Result Gist
  unfolding load_path load_files
  load_resource namespace root res =
      load_path namespace root res >>= λ loaded. load_files namespace root loaded
