-- ===== src/Deps/LockTests.antt =====
-- Runs and instances for the lockfile text of src/core/module_deps.cpp.
use winglib.Base.{
  ◌≡◌, refl, inl, [], ◌∷◌, some, Text, codes, text_eq, text_lt, starts_with, split_at,
  contains_char, ok, err, sort,
}
use winglib.Syntax.{is_space, strip_left, strip_right, unquote, trim, indent_of}
use winglib.Deps.Lockfile.{LockedModule, Lockfile}
use winglib.Deps.Locking.{lock_v1, name_lt}
use winglib.Deps.LockText.{
  lock_v2, no_module, lockfile_text, load_lockfile, lockfile_invalid_schema,
}
use winglib.Deps.LockText.Fields.{Plain}
use winglib.Deps.LockText.Loaded.{PlainModule}
use winglib.Deps.LockText.RoundTrip.{load_lockfile-lockfile_text}

-- Two modules, the one with every field and the other with the least.
abbrev zlib : LockedModule
zlib = record {
  name = codes "zlib";
  git = codes "https://h/zlib.git";
  tag = codes "v1";
  commit = codes "c1";
  tree_checksum = codes "t1";
  path = codes "sub";
  provides = codes "wl2:z";
}

abbrev asio : LockedModule
asio = record no_module { name = codes "asio"; git = codes "g"; commit = codes "c2" }

-- What is written is read back, in the order of the names.
lock_reread :
    load_lockfile (some (lockfile_text (record { schema = lock_v2; modules = zlib ∷ asio ∷ [] })))
    ≡ ok (record { schema = lock_v2; modules = asio ∷ zlib ∷ [] })
unfolding load_lockfile lockfile_text text_eq starts_with split_at text_lt trim strip_left
    strip_right is_space unquote indent_of
lock_reread = refl

-- Quotes round a value are lost.
quotes_lost :
    load_lockfile (
      some (
        lockfile_text
          (record { schema = lock_v1; modules = record asio { path = codes "'p'" } ∷ [] })))
    ≡ ok (record { schema = lock_v1; modules = record asio { path = codes "p" } ∷ [] })
unfolding load_lockfile lockfile_text text_eq starts_with split_at text_lt trim strip_left
    strip_right is_space unquote indent_of
quotes_lost = refl

schema_refused : load_lockfile (some (codes "modules:")) ≡ err lockfile_invalid_schema
unfolding load_lockfile text_eq split_at trim strip_left strip_right is_space unquote indent_of
schema_refused = refl

empty-Plain : Plain []
unfolding strip_left strip_right unquote contains_char
empty-Plain = record { left = refl; right = refl; bare = refl; line = refl }

zlib_name-Plain : Plain (codes "zlib")
unfolding strip_left strip_right unquote contains_char is_space
zlib_name-Plain = record { left = refl; right = refl; bare = refl; line = refl }

asio_name-Plain : Plain (codes "asio")
unfolding strip_left strip_right unquote contains_char is_space
asio_name-Plain = record { left = refl; right = refl; bare = refl; line = refl }

url-Plain : Plain (codes "https://h/a b.git")
unfolding strip_left strip_right unquote contains_char is_space
url-Plain = record { left = refl; right = refl; bare = refl; line = refl }

-- A module with a tag and no checksum.
abbrev tagged : Text → LockedModule
tagged name = record no_module { name = name; git = codes "https://h/a b.git"; tag = codes "zlib" }

tagged-PlainModule : (name : Text) → Plain name → PlainModule (tagged name)
tagged-PlainModule name p = record {
  name = p;
  git = url-Plain;
  tag = zlib_name-Plain;
  commit = empty-Plain;
  tree_checksum = empty-Plain;
  path = empty-Plain;
  provides = empty-Plain;
}

abbrev two_modules : Lockfile
two_modules = record {
  schema = lock_v1;
  modules = tagged (codes "zlib") ∷ tagged (codes "asio") ∷ [];
}

load_lockfile-lockfile_text_example :
    load_lockfile (some (lockfile_text two_modules))
    ≡ ok (record { schema = lock_v1; modules = sort name_lt two_modules.modules })
load_lockfile-lockfile_text_example = load_lockfile-lockfile_text two_modules (inl refl) (
  tagged-PlainModule (codes "zlib") zlib_name-Plain,
  (tagged-PlainModule (codes "asio") asio_name-Plain, tt),
)
