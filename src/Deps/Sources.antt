-- ===== src/Deps/Sources.antt =====
-- read_fetched_source_metadata of src/core/module_deps.cpp: what locking reads of the sources of a
-- fetched module. The contents of the regular files are the argument.
use winglib.Base.{Option, none, some, Text, codes, is_empty, if◌then◌else◌, Result, ok, err}
use winglib.Deps.Lockfile.{LockedModule}
use winglib.Deps.Fetch.{SourceMetadata, join_path}
use winglib.Resolver.Source.{ModuleSourceMetadata, SourceError}
use winglib.Resolver.Metadata.{load_module_source_metadata}

abbrev pub of_loaded : Result SourceError ModuleSourceMetadata → Option SourceMetadata
of_loaded (err e) = none
of_loaded (ok m) =
    some (record { provides = m.provides; source_dependencies = m.source_dependencies })

unfoldable pub read_fetched_source_metadata :
    (Text → Option Text) → LockedModule → Text → Option SourceMetadata
unfolding join_path load_module_source_metadata
read_fetched_source_metadata files locked deps_root =
    let module_root = join_path deps_root locked.name in
    let source_root =
      if is_empty locked.path then module_root else join_path module_root locked.path in
    of_loaded
      (load_module_source_metadata (files (join_path source_root (codes "wl2.module.source.yml"))))
