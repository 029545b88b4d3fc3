-- ===== src/Resolver/Source.antt =====
-- loadModuleSourceMetadata of src/core/module_resolver.cpp: the reader of wl2.module.source.yml and
-- its checks. The contents of the file are the argument; the directory that it lies in is left out.
use winglib.Base.{
  Bool, false, not, ◌&&◌, ◌||◌, List, [], ◌∷◌, ◌++◌, Text, codes, text_eq, text_Eq, member,
  if◌then◌else◌, ◌==◌, Result, ok, err, ◌>>=◌,
}
use winglib.Resolver.Versions.{VersionError}
use winglib.Resolver.Choice.{Requirement, required, optional}
use winglib.Deps.Locking.{ModuleDependency}

-- What stands before the first '#' outside quotes; the flags say which quotes are open.
unfoldable pub strip_quoted : Bool → Bool → Text → Text
strip_quoted single double [] = []
strip_quoted single double (c ∷ s) =
    let rest =
      strip_quoted (if c == b'\'' && not double then not single else single)
        (if c == b'"' && not single then not double else double) s in
    if c == b'#' && (not single && not double) then [] else c ∷ rest

unfoldable pub strip_comment : Text → Text
unfolding strip_quoted
strip_comment line = strip_quoted false false line

unfoldable pub known_source_key : Text → Bool
known_source_key key = member key (
    codes "schema"
    ∷ codes "provides"
    ∷ codes "version"
    ∷ codes "stableId"
    ∷ codes "path"
    ∷ codes "dependencies"
    ∷ codes "sourceDependencies"
    ∷ [])

pub data SourceError : Type 0 where
  module_source_not_found module_source_parse_error module_source_unexpected_list : SourceError
  module_source_unknown_key module_source_unknown_dependency_key : SourceError
  module_source_unknown_source_dependency_key module_source_floating_branch : SourceError
  module_source_invalid_dependencies module_source_invalid_source_dependencies : SourceError
  module_source_invalid_source_dependency module_source_invalid_schema : SourceError
  module_source_invalid_provides module_source_invalid_version : SourceError
  module_source_invalid_dependency : SourceError
  bad_range : VersionError → SourceError

pub record ModuleSourceMetadata : Type 0 where
  pub schema : Text
  pub provides : Text
  pub version : Text
  pub stable_id : Text
  pub module_path : Text
  pub dependencies : List Requirement
  pub source_dependencies : List ModuleDependency

abbrev pub source_v1 : Text
source_v1 = codes "wl2.module-source.v1"

abbrev pub no_metadata : ModuleSourceMetadata
no_metadata = record {
  schema = source_v1;
  provides = [];
  version = [];
  stable_id = [];
  module_path = codes ".";
  dependencies = [];
  source_dependencies = [];
}

unfoldable pub assign_requirement_field : Text → Text → Requirement → Result SourceError Requirement
assign_requirement_field key value dep =
    if text_eq key (codes "name")
    then ok (record dep { name = value })
    else if text_eq key (codes "version")
    then ok (record dep { version_range = value })
    else if text_eq key (codes "stableId")
    then ok (record dep { stable_id = value })
    else err module_source_unknown_dependency_key

unfoldable pub assign_source_dependency_field :
    Text → Text → ModuleDependency → Result SourceError ModuleDependency
assign_source_dependency_field key value dep =
    if text_eq key (codes "name")
    then ok (record dep { name = value })
    else if text_eq key (codes "git")
    then ok (record dep { git = value })
    else if text_eq key (codes "tag")
    then ok (record dep { tag = value })
    else if text_eq key (codes "commit")
    then ok (record dep { commit = value })
    else if text_eq key (codes "path")
    then ok (record dep { path = value })
    else if text_eq key (codes "provides")
    then ok (record dep { provides = value })
    else if text_eq key (codes "branch")
    then err module_source_floating_branch
    else err module_source_unknown_source_dependency_key

-- `back()` of the list, or the error where there is none.
unfoldable pub change_last {ℓ} :
    {A : Type ℓ} → SourceError → (A → Result SourceError A) → List A → Result SourceError (List A)
change_last e f [] = err e
change_last e f (x ∷ []) = f x >>= λ y. ok (y ∷ [])
change_last e f (x ∷ y ∷ xs) = change_last e f (y ∷ xs) >>= λ ys. ok (x ∷ ys)

-- The locals of the loop.
pub record Reading : Type 0 where
  pub metadata : ModuleSourceMetadata
  pub section : Text
  pub dependency_kind : Text
  pub source_section : Text

abbrev pub with_dependencies : Reading → List Requirement → Reading
with_dependencies r deps = record r { metadata = record r.metadata { dependencies = deps } }

abbrev pub with_sources : Reading → List ModuleDependency → Reading
with_sources r deps = record r { metadata = record r.metadata { source_dependencies = deps } }

abbrev pub no_source : ModuleDependency
no_source = record { name = []; git = []; tag = []; commit = []; path = []; provides = [] }

abbrev pub in_section : Reading → Text → Bool
in_section r name = text_eq r.section name

-- A list item, of the key and the value that stand behind its dash.
unfoldable pub list_item : Text → Text → Reading → Result SourceError Reading
unfolding assign_requirement_field assign_source_dependency_field
list_item key value r =
    if in_section r (codes "dependencies")
      && (text_eq r.dependency_kind (codes "required")
          || text_eq r.dependency_kind (codes "optional"))
    then (assign_requirement_field key value (record {
      name = [];
      version_range = [];
      stable_id = [];
      kind = if text_eq r.dependency_kind (codes "optional") then optional else required;
    })
        >>= λ dep. ok (with_dependencies r (r.metadata.dependencies ++ dep ∷ [])))
    else if in_section r (codes "sourceDependencies") && text_eq r.source_section (codes "modules")
    then (assign_source_dependency_field key value no_source >>= λ dep.
        ok (with_sources r (r.metadata.source_dependencies ++ dep ∷ [])))
    else err module_source_unexpected_list

unfoldable pub assign_metadata : Text → Text → ModuleSourceMetadata → ModuleSourceMetadata
assign_metadata key value m =
    if text_eq key (codes "schema")
    then record m { schema = value }
    else if text_eq key (codes "provides")
    then record m { provides = value }
    else if text_eq key (codes "version")
    then record m { version = value }
    else if text_eq key (codes "stableId")
    then record m { stable_id = value }
    else if text_eq key (codes "path")
    then record m { module_path = value }
    else m

-- A key that is not indented.
unfoldable pub top_key : Text → Text → Reading → Result SourceError Reading
unfolding known_source_key assign_metadata
top_key key value r =
    if not (known_source_key key)
    then err module_source_unknown_key
    else ok (record {
      metadata = assign_metadata key value r.metadata;
      section = key;
      dependency_kind = [];
      source_section = [];
    })

-- An indented key.
unfoldable pub inner_key : Bool → Bool → Text → Text → Reading → Result SourceError Reading
unfolding change_last assign_requirement_field assign_source_dependency_field
inner_key at_two deep key value r =
    if in_section r (codes "dependencies") && at_two
    then (if not (text_eq key (codes "required")) && not (text_eq key (codes "optional"))
        then err module_source_invalid_dependencies
        else ok (record r { dependency_kind = key }))
    else if in_section r (codes "dependencies") && deep
    then (change_last module_source_invalid_dependencies (assign_requirement_field key value)
          r.metadata.dependencies
        >>= λ deps. ok (with_dependencies r deps))
    else if in_section r (codes "sourceDependencies") && at_two
    then (if not (text_eq key (codes "modules"))
        then err module_source_invalid_source_dependencies
        else ok (record r { source_section = codes "modules" }))
    else if in_section r (codes "sourceDependencies")
        && (text_eq r.source_section (codes "modules") && deep)
    then (change_last module_source_invalid_source_dependency
          (assign_source_dependency_field key value) r.metadata.source_dependencies
        >>= λ deps. ok (with_sources r deps))
    else err module_source_parse_error
