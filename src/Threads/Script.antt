-- ===== src/Threads/Script.antt =====
-- ScriptThread and ThreadTree::spawn of src/core/thread_tree.cpp, with the exit handler that spawn
-- installs. The script engine, the runtime and the operating system's threads are not modelled:
-- what they decide comes in as arguments.
pub mod Subtree
pub mod Spawn
use winglib.Base.{
  ℕ, ◌+◌, Bool, true, false, ◌&&◌, not, List, [], ◌∷◌, ◌++◌, Option, none, some, Text, codes,
  text_eq, is_empty, length, get_elem?, set, lookup, emplace, if◌then◌else◌, text_Eq, map,
  starts_with, Result, ok, err, ◌>>=◌, fail_if,
}
use winglib.Threads.Path.{validate_thread_path, parent_path, PathError}
use winglib.Threads.Mailbox.{Message}
use winglib.Threads.Reply.{main_path, thread_exited}
use winglib.Threads.Tree.{ThreadTree, Task, new_node, send, reject_pending_for, create}
use winglib.Threads.Handle.{finish}

pub data ThreadFailurePolicy : Type 0 where
  isolate shutdown_subtree : ThreadFailurePolicy

pub record ScriptThreadOptions : Type 0 where
  pub path : Text
  pub script : Text
  pub source : Text
  pub report_exit_to_parent : Bool
  pub on_failure : ThreadFailurePolicy

-- `cancelled` is `cancel_`; the error is its code.
pub record ScriptThread : Type 0 where
  pub path : Text
  pub cancelled : Bool
  pub finished : Bool
  pub succeeded : Bool
  pub exit_code : ℕ
  pub error : Text

abbrev pub new_thread : Text → ScriptThread
new_thread path = record {
  path = path;
  cancelled = false;
  finished = false;
  succeeded = false;
  exit_code = 0;
  error = [];
}

unfoldable pub interrupt : ScriptThread → ScriptThread
interrupt thread = record thread { cancelled = true }

unfoldable pub failed : ScriptThread → Bool
failed thread = thread.finished && not thread.succeeded

-- The end of the thread's function: `Result<int>` of the script becomes the thread's result.
unfoldable pub settle : Result Text ℕ → ScriptThread → ScriptThread
settle (ok code) thread = record thread { finished = true; succeeded = true; exit_code = code }
settle (err error) thread = record thread { finished = true; succeeded = false; error = error }

unfoldable pub result : ScriptThread → Result Text ℕ
result thread = if thread.succeeded then ok thread.exit_code else err thread.error

-- The tree with `scriptThreads_`.
pub record Threads : Type 0 where
  pub tree : ThreadTree
  pub scripts : List ScriptThread

pub data SpawnError : Type 0 where
  invalid_path : PathError → SpawnError
  path_is_main no_script path_exists : SpawnError
  load_failed init_failed : Text → SpawnError

-- The part of spawn before the runtime is initialised: the script's source. `load` is
-- Runtime::loadTextResource.
unfoldable pub spawn_source :
    (Text → Result Text Text) → ScriptThreadOptions → Result SpawnError Text
spawn_source load options =
    if is_empty options.source
    then (if is_empty options.script
        then err no_script
        else elim (load options.script) [ ok text ↦ ok text | err e ↦ err (load_failed e) ])
    else ok options.source

unfoldable pub check_path : Text → Result SpawnError (Unit {0})
unfolding main_path
check_path path = elim (validate_thread_path path) [
  | some e ↦ err (invalid_path e)
  | none ↦ if text_eq path main_path then err path_is_main else ok tt
]

unfoldable pub check_init : Result Text (Unit {0}) → Result SpawnError (Unit {0})
check_init (ok u) = ok u
check_init (err e) = err (init_failed e)

-- The critical section: a path that is taken is refused.
unfoldable pub register : Text → Threads → Result SpawnError Threads
register path s = elim (lookup path s.tree.names) [
  | some n ↦ err path_exists
  | none ↦ ok (record {
    tree = record (s.tree) {
      nodes = s.tree.nodes ++ new_node path ∷ [];
      names = emplace path (length s.tree.nodes) s.tree.names;
    };
    scripts = s.scripts ++ new_thread path ∷ [];
  })
]

-- `init` is Runtime::initialize. The result has the script that the new thread runs.
unfoldable pub spawn :
    (Text → Result Text Text)
    → Result Text (Unit {0})
    → ScriptThreadOptions
    → Threads
    → Result SpawnError (Threads × Text)
unfolding check_path spawn_source check_init register
spawn load init options s = do
  _ ← check_path options.path
  source ← spawn_source load options
  _ ← check_init init
  s' ← register options.path s
  ok (s', source)

-- interruptSubtree: every thread whose path starts with the path and a slash.
unfoldable pub interrupt_subtree : Text → List ScriptThread → List ScriptThread
unfolding interrupt
interrupt_subtree path =
    map (λ thread. if starts_with (path ++ b'/' ∷ []) thread.path then interrupt thread else thread)

unfoldable pub thread_exit : Text
thread_exit = codes "thread-exit"

unfoldable pub thread_error : Text
thread_error = codes "thread-error"

-- The message that reports an exit; `error` is the code of the script's error.
unfoldable pub exit_message : Text → Text → Bool → Text → Message
exit_message path parent success error = record {
  id = 0;
  reply_to = 0;
  source = path;
  destination = parent;
  type = if success then thread_exit else thread_error;
  payload = if success then [] else error;
  expects_reply = false;
}

-- The handler that a spawned thread runs when its script has ended.
unfoldable pub on_exit : ScriptThreadOptions → Bool → Text → Threads → Threads
unfolding finish send reject_pending_for thread_exited
on_exit options success error s = record { tree = reported; scripts = stopped }
  where
    parent : Text
    parent = parent_path options.path

    rejected : ThreadTree
    rejected =
        let (t, tasks) = reject_pending_for options.path thread_exited s.tree in finish tasks t

    reported : ThreadTree
    reported =
        if options.report_exit_to_parent && not (is_empty parent)
        then finish (send (exit_message options.path parent success error) rejected).0 rejected
        else rejected

    stopped : List ScriptThread
    stopped = if success then s.scripts else elim options.on_failure [
      | isolate ↦ s.scripts
      | shutdown_subtree ↦ interrupt_subtree options.path s.scripts
    ]
