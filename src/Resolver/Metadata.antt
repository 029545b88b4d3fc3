-- ===== src/Resolver/Metadata.antt =====
-- The loop of loadModuleSourceMetadata of src/core/module_resolver.cpp over the lines, and the checks
-- behind it.
pub mod AnyVersion
use winglib.Base.{
  Bool, true, false, not, ◌&&◌, ◌||◌, List, [], ◌∷◌, Option, none, some, Text, codes, is_empty,
  text_eq, starts_with, split_at, drop, if◌then◌else◌, ◌==◌, leb, Result, ok, err, ◌>>=◌, ◌>>◌,
  fail_if,
}
use winglib.Syntax.{trim, indent_of}
use winglib.Resolver.Versions.{VersionError, module_version_satisfies}
use winglib.Resolver.Choice.{Requirement}
use winglib.Deps.Locking.{ModuleDependency, lines}
use winglib.Resolver.Source.{
  strip_comment, SourceError, module_source_not_found, module_source_parse_error,
  module_source_invalid_source_dependency, module_source_invalid_schema,
  module_source_invalid_provides, module_source_invalid_version, module_source_invalid_dependency,
  bad_range, ModuleSourceMetadata, source_v1, no_metadata, Reading, list_item, top_key, inner_key,
}

unfoldable pub read_item : Text → Reading → Result SourceError Reading
unfolding list_item
read_item item r = elim (split_at b':' item) [
  | none ↦ err module_source_parse_error
  | some (key, value) ↦ list_item (trim key) (trim value) r
]

unfoldable pub read_key : Bool → Bool → Bool → Text → Reading → Result SourceError Reading
unfolding top_key inner_key
read_key at_margin at_two deep text r = elim (split_at b':' text) [
  | none ↦ err module_source_parse_error
  | some (key, value) ↦
      if at_margin
      then top_key (trim key) (trim value) r
      else inner_key at_two deep (trim key) (trim value) r
]

unfoldable pub read_line : Reading → Text → Result SourceError Reading
unfolding strip_comment read_item read_key
read_line r line =
    let without_comment = strip_comment line in
    let text = trim without_comment in
    let indent = indent_of without_comment in
    if is_empty text
    then ok r
    else if starts_with (codes "- ") text
    then read_item (trim (drop 2 text)) r
    else read_key (indent == 0) (indent == 2) (leb 6 indent) text r

unfoldable pub read_lines : Reading → List Text → Result SourceError Reading
unfolding read_line
read_lines r [] = ok r
read_lines r (line ∷ rest) = read_line r line >>= λ s. read_lines s rest

-- A range is tried on a version.
unfoldable pub range_of : Result VersionError Bool → Result SourceError (Unit {0})
range_of (ok b) = ok tt
range_of (err e) = err (bad_range e)

unfoldable pub check_dependencies : List Requirement → Result SourceError (Unit {0})
unfolding range_of
check_dependencies [] = ok tt
check_dependencies (dep ∷ deps) =
    fail_if (is_empty dep.name) module_source_invalid_dependency
    >> range_of (module_version_satisfies (codes "0.0.0") dep.version_range)
    >> check_dependencies deps

unfoldable pub check_sources : List ModuleDependency → Result SourceError (Unit {0})
check_sources [] = ok tt
check_sources (dep ∷ deps) =
    fail_if (is_empty dep.name || (is_empty dep.git || (is_empty dep.tag && is_empty dep.commit)))
      module_source_invalid_source_dependency
    >> check_sources deps

unfoldable pub checked : ModuleSourceMetadata → Result SourceError ModuleSourceMetadata
unfolding check_dependencies check_sources
checked m =
    fail_if (not (text_eq m.schema source_v1)) module_source_invalid_schema
    >> fail_if (is_empty m.provides) module_source_invalid_provides
    >> fail_if (is_empty m.version) module_source_invalid_version
    >> check_dependencies m.dependencies
    >> check_sources m.source_dependencies
    >> ok m

unfoldable pub load_module_source_metadata : Option Text → Result SourceError ModuleSourceMetadata
unfolding read_lines checked lines
load_module_source_metadata none = err module_source_not_found
load_module_source_metadata (some text) =
    read_lines
      (record { metadata = no_metadata; section = []; dependency_kind = []; source_section = [] })
      (lines text)
    >>= λ r. checked r.metadata
