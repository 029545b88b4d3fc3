-- ===== src/Resolver/Metadata/AnyVersion.antt =====
-- What loadModuleSourceMetadata of src/core/module_resolver.cpp lets through, for the resolver.
use winglib.Base.{
  Result-cases, All-map, text_eq, text_eq_iff, subst, ◌≡◌, refl, Bool, true, false, not, ◌&&◌, ◌||◌,
  List, [], ◌∷◌, some, Text, codes, is_empty, starts_with, drop, ◌==◌, Result, ok, >>=-eq-ok, All,
  Bool-cases, inl, inr,
}
use winglib.Resolver.Versions.{
  Version, parse_version, module_version_satisfies, within, within_parts, read_word,
  compare_versions, skip_blanks, at_least, less_than, is_same, is_below,
}
use winglib.Resolver.Choice.{Requirement}
use winglib.Deps.Locking.{ModuleDependency, lines}
use winglib.Resolver.Source.{source_v1, no_metadata, ModuleSourceMetadata, SourceError}
use winglib.Resolver.Metadata.{
  read_lines, range_of, check_dependencies, check_sources, checked, load_module_source_metadata,
}

-- The resolver gets an answer from the range, yes or no.
abbrev pub Decides : Text → Text → Type 0
Decides version range = (b : Bool) × (module_version_satisfies version range ≡ ok b)

within_parts-any :
    (v w : Version) (lower upper rest : Text) {b : Bool}
    → within_parts v lower upper rest ≡ ok b
    → (c : Bool) × (within_parts w lower upper rest ≡ ok c)
unfolding within_parts
within_parts-any v w lower upper rest h =
    elim (Bool-cases (
      not (starts_with at_least lower)
      || (not (starts_with less_than upper) || not (is_empty (skip_blanks rest))))) [
        | inl e ↦ cc (rw (within_parts, e) at h)
        | inr e ↦ elim (Result-cases (parse_version (drop 2 lower))) [
          | inr (x, p) ↦ cc (rw (within_parts, e, p) at h)
          | inl (low, p) ↦ elim (Result-cases (parse_version (drop 1 upper))) [
            | inr (x, q) ↦ cc (rw (within_parts, e, p, q) at h)
            | inl (high, q) ↦ (
              not (is_below (compare_versions w low)) && is_below (compare_versions w high),
              rw (within_parts, e, p, q) refl,
            )
          ]
        ]
      ]

-- A range that decides on one version decides on every other.
satisfies-any :
    (tried version range : Text) (v w : Version)
    → parse_version tried ≡ ok v
    → parse_version version ≡ ok w
    → Decides tried range
    → Decides version range
unfolding module_version_satisfies within
satisfies-any tried version [] v w p q d = (true, refl)
satisfies-any tried version (c ∷ range) v w p q (b, h) = elim (Bool-cases (c == b'=')) [
  | inl e ↦ elim (Result-cases (parse_version range)) [
    | inr (x, f) ↦ cc (rw (module_version_satisfies, p, e, f) at h)
    | inl (r, f) ↦ (is_same (compare_versions w r), rw (module_version_satisfies, q, e, f) refl)
  ]
  | inr e ↦
      let first = read_word (c ∷ range) in
      let second = read_word first.1 in
      let (a, g) =
        within_parts-any v w first.0 second.0 second.1
          (rw (module_version_satisfies, p, e, within) at h) in
      (a, rw (module_version_satisfies, q, e, within) g)
]

-- The dependencies that are let through: each has a name, and a range that decides on "0.0.0".
abbrev pub Usable : Text → Requirement → Type 0
Usable version dep = (is_empty dep.name ≡ false) × Decides version dep.version_range

check_dependencies-Usable :
    (deps : List Requirement) → check_dependencies deps ≡ ok tt → All (Usable (codes "0.0.0")) deps
unfolding check_dependencies range_of
check_dependencies-Usable [] h = tt
check_dependencies-Usable (dep ∷ deps) h = elim (Bool-cases (is_empty dep.name)) [
  | inl e ↦ cc (rw (check_dependencies, e) at h)
  | inr e ↦ elim (Result-cases (module_version_satisfies (codes "0.0.0") dep.version_range)) [
    | inr (x, f) ↦ cc (rw (check_dependencies, e, f) at h)
    | inl (b, f) ↦
        ((e, (b, f)), check_dependencies-Usable deps (rw (check_dependencies, e, f) at h))
  ]
]

zero_version : parse_version (codes "0.0.0") ≡ ok (record { major = 0; minor = 0; patch = 0 })
unfolding parse_version
zero_version = refl

-- A source dependency that can be fetched at a fixed commit.
abbrev pub Pinned : ModuleDependency → Type 0
Pinned dep =
    (is_empty dep.name ≡ false)
    × (is_empty dep.git ≡ false)
    × ((is_empty dep.tag && is_empty dep.commit) ≡ false)

check_sources-Pinned : (deps : List ModuleDependency) → check_sources deps ≡ ok tt → All Pinned deps
unfolding check_sources
check_sources-Pinned [] h = tt
check_sources-Pinned (dep ∷ deps) h = elim (Bool-cases (is_empty dep.name)) [
  | inl e ↦ cc (rw (check_sources, e) at h)
  | inr e ↦ elim (Bool-cases (is_empty dep.git)) [
    | inl f ↦ cc (rw (check_sources, e, f) at h)
    | inr f ↦ elim (Bool-cases (is_empty dep.tag && is_empty dep.commit)) [
      | inl g ↦ cc (rw (check_sources, e, f, g) at h)
      | inr g ↦ ((e, f, g), check_sources-Pinned deps (rw (check_sources, e, f, g) at h))
    ]
  ]
]

pub record WellFormed (version : Text) (m : ModuleSourceMetadata) : Type 0 where
  pub schema : m.schema ≡ source_v1
  pub provides : is_empty m.provides ≡ false
  pub has_version : is_empty m.version ≡ false
  pub dependencies : All (Usable version) m.dependencies
  pub sources : All Pinned m.source_dependencies

every-Usable :
    (version : Text) (w : Version) (deps : List Requirement)
    → parse_version version ≡ ok w
    → All (Usable (codes "0.0.0")) deps
    → All (Usable version) deps
every-Usable version w deps p h =
    All-map (Usable (codes "0.0.0")) (Usable version)
      (λ dep u. (
        u.0,
        satisfies-any (codes "0.0.0") version dep.version_range
            (record { major = 0; minor = 0; patch = 0 }) w zero_version p u.1,
      ))
      deps h

checked-WellFormed :
    (version : Text) (w : Version) (read m : ModuleSourceMetadata)
    → parse_version version ≡ ok w
    → checked read ≡ ok m
    → WellFormed version m
unfolding checked
checked-WellFormed version w read m p h = elim (Bool-cases (text_eq read.schema source_v1)) [
  | inr e ↦ cc (rw (checked, e) at h)
  | inl a ↦ elim (Bool-cases (is_empty read.provides)) [
    | inl e ↦ cc (rw (checked, a, e) at h)
    | inr b ↦ elim (Bool-cases (is_empty read.version)) [
      | inl e ↦ cc (rw (checked, a, b, e) at h)
      | inr c ↦ elim (Result-cases (check_dependencies read.dependencies)) [
        | inr (x, e) ↦ cc (rw (checked, a, b, c, e) at h)
        | inl (u, d) ↦ elim (Result-cases (check_sources read.source_dependencies)) [
          | inr (x, e) ↦ cc (rw (checked, a, b, c, d, e) at h)
          | inl (v, f) ↦
              subst (WellFormed version) (ok_inj (rw (checked, a, b, c, d, f) at h)) (record {
                schema = (text_eq_iff read.schema source_v1).0 a;
                provides = b;
                has_version = c;
                dependencies =
                    every-Usable version w read.dependencies p
                      (check_dependencies-Usable read.dependencies d);
                sources = check_sources-Pinned read.source_dependencies f;
              })
        ]
      ]
    ]
  ]
]
  where
    ok_inj :
        {x y : ModuleSourceMetadata}
        → ◌≡◌ {A = Result SourceError ModuleSourceMetadata} (ok x) (ok y)
        → x ≡ y
    ok_inj e = cc e

-- Metadata that is loaded has the schema, a module, a version and pinned sources; and whatever version
-- a provider has, if it is a version, the range of each of its named dependencies decides on it.
pub load_module_source_metadata-WellFormed :
    (text : Text) (m : ModuleSourceMetadata) (version : Text) (w : Version)
    → load_module_source_metadata (some text) ≡ ok m
    → parse_version version ≡ ok w
    → WellFormed version m
unfolding load_module_source_metadata
load_module_source_metadata-WellFormed text m version w h p =
    let (r, e, f) =
      >>=-eq-ok
        (read_lines
          (record {
            metadata = no_metadata;
            section = [];
            dependency_kind = [];
            source_section = [];
          })
          (lines text))
        (λ x. checked x.metadata) h in
    checked-WellFormed version w r.metadata m p f
