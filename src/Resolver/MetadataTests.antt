-- ===== src/Resolver/MetadataTests.antt =====
-- Runs and instances for the reader of module sources of src/core/module_resolver.cpp.
use winglib.Base.{
  ◌≡◌, refl, List, [], ◌∷◌, ◌++◌, some, Text, codes, ok, err, text_eq, starts_with, split_at,
  member,
}
use winglib.Syntax.{is_space, strip_left, strip_right, unquote, trim, indent_of}
use winglib.Resolver.Versions.{parse_version, module_version_satisfies}
use winglib.Resolver.Choice.{required}
use winglib.Resolver.Source.{
  ModuleSourceMetadata, source_v1, no_source, strip_comment, module_source_floating_branch,
  module_source_unexpected_list, module_source_invalid_provides,
}
use winglib.Resolver.Metadata.{load_module_source_metadata}
use winglib.Resolver.Metadata.AnyVersion.{WellFormed, load_module_source_metadata-WellFormed}

abbrev joined : List Text → Text
joined [] = []
joined (line ∷ lines) = line ++ 10 ∷ joined lines

abbrev sources_text : Text
sources_text = joined (
    codes "schema: wl2.module-source.v1"
    ∷ codes "provides: wl2:x # the module"
    ∷ codes "version: 1.0.0"
    ∷ codes "dependencies:"
    ∷ codes "  required:"
    ∷ codes "    - name: wl2:y"
    ∷ codes "      version: '>=1.0.0 <2.0.0'"
    ∷ []
    ∷ codes "sourceDependencies:"
    ∷ codes "  modules:"
    ∷ codes "    - name: z"
    ∷ codes "      git: https://h/z"
    ∷ codes "      tag: v1"
    ∷ [])

abbrev sources_read : ModuleSourceMetadata
sources_read = record {
  schema = source_v1;
  provides = codes "wl2:x";
  version = codes "1.0.0";
  stable_id = [];
  module_path = codes ".";
  dependencies =
      record {
        name = codes "wl2:y";
        version_range = codes ">=1.0.0 <2.0.0";
        stable_id = [];
        kind = required;
      }
      ∷ [];
  source_dependencies =
      record no_source { name = codes "z"; git = codes "https://h/z"; tag = codes "v1" } ∷ [];
}

sources_loaded : load_module_source_metadata (some sources_text) ≡ ok sources_read
unfolding load_module_source_metadata text_eq starts_with split_at trim strip_left strip_right
    unquote is_space indent_of module_version_satisfies member
sources_loaded = refl

version_read : parse_version (codes "1.4.2") ≡ ok (record { major = 1; minor = 4; patch = 2 })
unfolding parse_version
version_read = refl

load_module_source_metadata-WellFormed_example : WellFormed (codes "1.4.2") sources_read
load_module_source_metadata-WellFormed_example =
    load_module_source_metadata-WellFormed sources_text sources_read (codes "1.4.2")
      (record { major = 1; minor = 4; patch = 2 }) sources_loaded version_read

branch_refused :
    load_module_source_metadata (
      some (
        joined
          (codes "sourceDependencies:" ∷ codes "  modules:" ∷ codes "    - branch: main" ∷ [])))
    ≡ err module_source_floating_branch
unfolding load_module_source_metadata text_eq starts_with split_at trim strip_left strip_right
    unquote is_space indent_of member
branch_refused = refl

stray_item :
    load_module_source_metadata (some (codes "- name: z")) ≡ err module_source_unexpected_list
unfolding load_module_source_metadata text_eq starts_with split_at trim strip_left strip_right
    unquote is_space member
stray_item = refl

-- The schema need not be written.
schema_left_out : load_module_source_metadata (some []) ≡ err module_source_invalid_provides
unfolding load_module_source_metadata text_eq
schema_left_out = refl

quoted_hash : strip_comment (codes "a: '#1' # b") ≡ codes "a: '#1' "
unfolding strip_comment
quoted_hash = refl
