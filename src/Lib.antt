-- ===== src/Lib.antt =====
-- A model of winglib2, the library behind the wl2 runtime, with the theorems that make its core
-- components correct.
--
-- Parts and files:
--   Base             texts as lists of bytes, results, maps as association lists, std::sort
--   Threads          include/wl2/thread_tree.h and src/core/thread_tree.cpp
--     Path           parent_path and validate_thread_path
--     Mailbox        Message and Mailbox (post, wait, size, close)
--     Reply          ThreadReply, PendingReplyState and resolve_state
--     Tree           ThreadTree: create, find, remove, send, request, take, deliverReply,
--                    expirePending, cancelPending, rejectPendingFor and shutdown
--     Tree/Calls     any number of threads that use one tree at once
--     Handle         PendingReply: id, done, poll, both forms of wait, cancel
--     Answer         ThreadRequest: reply, reject, defer, moves and the destructor
--     Script         ScriptThread, spawn with its exit handler, interruptSubtree
--   Permissions      PermissionSet of include/wl2/runtime.h and src/core/permissions.cpp
--     Endpoints      endpoint_matches, endpoint_inside and prefix_inside
--     Paths          path_contained_by and path_inside on POSIX paths
--     Sets           normalizePermissionSet, permissionSetContains and permissionSetDelta
--   Syntax           the text helpers that module_deps.cpp and module_resolver.cpp share
--   Deps             include/wl2/module_deps.h and src/core/module_deps.cpp
--     Trust          classify_source, sourceTrustPolicyFromEnv and checkSourceTrust
--     Shell          shell_quote, the command line of run_git, is_safe_dependency_name
--     Lockfile       LockedModule and Lockfile
--     Locking        resolveGitCommit and lockModuleDependencies
--     LockText       writeLockfile and loadLockfile
--     Fetch          fetchLockedModule, verifyFetchedCommit and dependencyStatus
--     Sources        read_fetched_source_metadata
--     Transitive     lockModuleDependenciesTransitive
--     Order          orderLockedModulesForBuild
--   Resolver         src/core/module_resolver.cpp
--     Versions       parse_version, compare_versions and moduleVersionSatisfies
--     Choice         the data of module resolution, and choose of its Resolver
--     Graph          resolveModuleGraph: visit and run of its Resolver
--     Source         the keys of wl2.module.source.yml
--     Metadata       loadModuleSourceMetadata
--   Sdp              modules/wl2_sdp/include/wl2_sdp/sdp.h and modules/wl2_sdp/src/sdp.cpp
--     Lines, Numbers the data, split_spaces, splitAttribute, parse_int
--     Parse          parse, with its caps and its lenient mode
--     Build          build, in the stored order and in the canonical one
--     Views          rtpmaps, fmtps, candidates, extmaps, ssrcs, fingerprint, attribute(s)
--     Munge          setAttribute, setFlag, addAttribute, removeAttribute, keepPayloads,
--                    reorderPayloads
--     Compare        equalNormalized
--   Hash             src/core/hash.cpp
--     Compress       processBlock
--   Media            modules/wl2_media/src/media_schema.cpp: the wire text of descriptors
--     Writer, Reader flat objects as text
--     Schema         StreamDescriptor, PacketMetadata, validate, serialize and the parsers
--     Timestamp      convertTimestamp
--   Buffer           include/wl2/buffer.h and src/core/buffer.cpp
--   Resources        include/wl2/resources.h and src/core/resources.cpp
--     Glob           glob_match
--     Paths, Mounts  the text helpers, and the files of a directory mount
--     Store          add, addStored, addCompressed, addResource, mountDirectory, entry, contains,
--                    isDirectory and exists
--     Open           open, with the decompressed copies
--
-- How they interact: the script threads of Threads use the tree's mailboxes and its pending map; a
-- Handle is what the requester holds of a request and an Answer what the receiver holds of it. The
-- build order and the locking of Deps take what the fetched metadata says as a parameter; Sources
-- reads it with the loader of Resolver.
--
-- State and steps. Shared objects stand in lists and handles are positions in them. A method that
-- gives up a mutex is cut there: its first critical section is a function that returns the new
-- tree and the tasks that the calling thread has still to do, and advance does one task.
-- Tree/Calls lets the threads take such steps in any order. Errors are their codes; messages to
-- the user are not modelled. Request ids wrap at 2 ^ 64, and the theorems on the tree hold until 2
-- ^ 64 requests have been made. The loop of orderLockedModulesForBuild runs on as many rounds as
-- there are modules, since a round that places none is its last. The queue of
-- lockModuleDependenciesTransitive runs on fuel of one round for each entry, since a round skips
-- its entry or locks a new name. The recursion of visit runs on fuel, its depth, since each visit
-- enters a provider that was not entered before. The loops of Hash and of the reader of Media run
-- on fuel of one turn for each byte, since each turn takes at least one. The shared storages of
-- Buffer stand in a list, and a use count is the number of objects that lead to a storage.
-- glob_match runs on the fuel of a pass for each byte of the value, since each pass gives the '*'
-- one byte more. In Resources a copy that no handle keeps alive any more expires in a step of its
-- own.
--
-- Not modelled: the operating system's threads and condition variables beyond their predicates,
-- the script engine, the file system and git, whose results are arguments; the stores of modules;
-- the manifest; list and walk of ResourceStore and the canonical form of a host path; and the
-- bindings to third-party libraries. Paths with a root name, as on Windows, are left out.
pub mod Base
pub mod Threads
pub mod Permissions
pub mod Syntax
pub mod Deps
pub mod Resolver
pub mod Sdp
pub mod Hash
pub mod Media
pub mod Buffer
pub mod Resources
