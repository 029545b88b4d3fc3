-- ===== src/Threads/Script/Spawn.antt =====
-- What ThreadTree::spawn of src/core/thread_tree.cpp does, on each of its ways out.
use winglib.Base.{
  ℕ, ◌≡◌, refl, ap, ◌∙◌, ◌⊎◌, inl, inr, true, false, [], ◌∷◌, ◌++◌, none, some, arith, Text,
  text_eq, length, lookup, if◌then◌else◌, text_Eq, Result, ok, err, is_empty, Result-cases, ◌>>=◌,
  emplace, lookup-emplace, Option-cases, Bool-cases,
}
use winglib.Threads.Path.{validate_thread_path}
use winglib.Threads.Mailbox.{empty_mailbox}
use winglib.Threads.Reply.{main_path}
use winglib.Threads.Tree.{new_node}
use winglib.Threads.Script.{
  ScriptThreadOptions, Threads, SpawnError, invalid_path, path_is_main, no_script, load_failed,
  init_failed, path_exists, spawn, new_thread, spawn_source, check_path, check_init, register,
}

abbrev pub GoodPath : Text → Type 0
GoodPath path = (validate_thread_path path ≡ none) × (text_eq path main_path ≡ false)

-- Where the text of a new thread's script comes from: the options, or else the resource that they
-- name.
abbrev pub Sourced : (Text → Result Text Text) → ScriptThreadOptions → Text → Type 0
Sourced load options source =
    ((is_empty options.source ≡ false) × (source ≡ options.source))
    ⊎ ((is_empty options.source ≡ true)
        × (is_empty options.script ≡ false)
        × (load options.script ≡ ok source))

-- What is registered: one node with an empty mailbox and one thread whose result is open, each
-- behind those that there were; the path, which had no node, leads to that node, and the requests are
-- as they were.
pub record Registered (path : Text) (s s' : Threads) : Type 0 where
  pub free : lookup path s.tree.names ≡ none
  pub node : s'.tree.nodes ≡ s.tree.nodes ++ record { path = path; mailbox = empty_mailbox } ∷ []
  pub thread :
      s'.scripts
      ≡ s.scripts
        ++ record {
          path = path;
          cancelled = false;
          finished = false;
          succeeded = false;
          exit_code = 0;
          error = [];
        }
          ∷ []
  pub names :
      (p : Text)
      → lookup p s'.tree.names
        ≡ (if text_eq path p then some (length s.tree.nodes) else lookup p s.tree.names)
  pub requests : (s'.tree.states ≡ s.tree.states) × (s'.tree.pending ≡ s.tree.pending)

-- What holds after spawn: of a result, and of each error.
abbrev pub Outcome :
    (Text → Result Text Text)
    → Result Text (Unit {0})
    → ScriptThreadOptions
    → Threads
    → Result SpawnError (Threads × Text)
    → Type 0
Outcome load init options s (ok (s', source)) =
    GoodPath options.path
    × Sourced load options source
    × (init ≡ ok tt)
    × Registered options.path s s'
Outcome load init options s (err (invalid_path e)) = validate_thread_path options.path ≡ some e
Outcome load init options s (err path_is_main) =
    (validate_thread_path options.path ≡ none) × (text_eq options.path main_path ≡ true)
Outcome load init options s (err no_script) =
    GoodPath options.path × (is_empty options.source ≡ true) × (is_empty options.script ≡ true)
Outcome load init options s (err (load_failed e)) =
    GoodPath options.path
    × (is_empty options.source ≡ true)
    × (is_empty options.script ≡ false)
    × (load options.script ≡ err e)
Outcome load init options s (err (init_failed e)) =
    GoodPath options.path × ((source : Text) × Sourced load options source) × (init ≡ err e)
Outcome load init options s (err path_exists) =
    GoodPath options.path
    × ((source : Text) × Sourced load options source)
    × (init ≡ ok tt)
    × ((n : ℕ) × (lookup options.path s.tree.names ≡ some n))

module _ (load : Text → Result Text Text) (init : Result Text (Unit {0}))
    (options : ScriptThreadOptions) (s : Threads) where
  check_path-Outcome :
      ((u : Unit {0}) × (check_path options.path ≡ ok u) × GoodPath options.path)
      ⊎ ((e : SpawnError) × (check_path options.path ≡ err e) × Outcome load init options s (err e))
  unfolding check_path
  check_path-Outcome = elim (Option-cases (validate_thread_path options.path)) [
    | inr (e, bad) ↦ inr (invalid_path e, rw (check_path, bad) refl, bad)
    | inl good ↦ elim (Bool-cases (text_eq options.path main_path)) [
      | inl main ↦ inr (path_is_main, rw (check_path, good, main) refl, (good, main))
      | inr other ↦ inl (tt, rw (check_path, good, other) refl, (good, other))
    ]
  ]

  spawn_source-Outcome :
      GoodPath options.path
      → ((source : Text) × (spawn_source load options ≡ ok source) × Sourced load options source)
        ⊎ ((e : SpawnError) × (spawn_source load options ≡ err e)
            × Outcome load init options s (err e))
  unfolding spawn_source
  spawn_source-Outcome good = elim (Bool-cases (is_empty options.source)) [
    | inr given ↦ inl (options.source, rw (given) refl, inl (given, refl))
    | inl empty ↦ elim (Bool-cases (is_empty options.script)) [
      | inl missing ↦ inr (no_script, rw (empty, missing) refl, (good, empty, missing))
      | inr named ↦ elim (Result-cases (load options.script)) [
        | inl (text, loaded) ↦
            inl (text, rw (empty, named, loaded) refl, inr (empty, named, loaded))
        | inr (e, failed) ↦
            inr (load_failed e, rw (empty, named, failed) refl, (good, empty, named, failed))
      ]
    ]
  ]

register-ok : (path : Text) (s s' : Threads) → register path s ≡ ok s' → Registered path s s'
unfolding register
register-ok path s s' e = elim (Option-cases (lookup path s.tree.names)) [
  | inl new ↦
      let tree = record (s.tree) {
        nodes = s.tree.nodes ++ new_node path ∷ [];
        names = emplace path (length s.tree.nodes) s.tree.names;
      } in
      let built : s' ≡ record { tree = tree; scripts = s.scripts ++ new_thread path ∷ [] } =
        ground (arith, new, e) in
      record {
        free = new;
        node = ap (λ (t : Threads). t.tree.nodes) built;
        thread = ap (λ (t : Threads). t.scripts) built;
        names = λ p.
            ap (λ (t : Threads). lookup p t.tree.names) built
            ∙ lookup-emplace path p (length s.tree.nodes) s.tree.names new;
        requests =
            (ap (λ (t : Threads). t.tree.states) built, ap (λ (t : Threads). t.tree.pending) built);
      }
  | inr (n, old) ↦ ground (arith, old, e)
]

register-err :
    (path : Text) (s : Threads) (e : SpawnError)
    → register path s ≡ err e
    → (e ≡ path_exists) × ((n : ℕ) × (lookup path s.tree.names ≡ some n))
unfolding register
register-err path s e q = elim (Option-cases (lookup path s.tree.names)) [
  | inl new ↦ ground (arith, new, q)
  | inr (n, old) ↦ (ground (arith, old, q), (n, old))
]

-- The steps of spawn once it has the script.
start-Outcome :
    (load : Text → Result Text Text) (options : ScriptThreadOptions) (s : Threads) (source : Text)
    → GoodPath options.path
    → Sourced load options source
    → (init : Result Text (Unit {0}))
    → Outcome load init options s
        (check_init init >>= λ _. register options.path s >>= λ s'. ok (s', source))
unfolding check_init
start-Outcome load options s source good sourced (err e) = (good, (source, sourced), refl)
start-Outcome load options s source good sourced (ok u) =
    elim (Result-cases (register options.path s)) [
      | inl (s', x) ↦ rw (x) (good, sourced, refl, register-ok options.path s s' x)
      | inr (e, x) ↦
          let (same, taken) = register-err options.path s e x in
          rw (x, same) (good, (source, sourced), refl, taken)
    ]

-- spawn on all its ways out, in the order of its tests. It refuses a path that is not a thread path,
-- "/main", options with neither a text nor a script, a script that cannot be loaded, a runtime that
-- does not start and a path that a node has, each with its own error. Otherwise the script that the
-- thread runs is the options' text, or where that is empty the resource that they name; there is one
-- node more, with an empty mailbox, to which the path leads, while every other path leads where it
-- led, and one thread more, not cancelled and not finished; the requests are as they were.
pub spawn-Outcome :
    (load : Text → Result Text Text) (init : Result Text (Unit {0})) (options : ScriptThreadOptions)
    (s : Threads)
    → Outcome load init options s (spawn load init options s)
unfolding spawn check_init
spawn-Outcome load init options s = elim (check_path-Outcome load init options s) [
  | inr (e, q, o) ↦ rw (q) o
  | inl (u, q, good) ↦ elim (spawn_source-Outcome load init options s good) [
    | inr (e, r, o) ↦ rw (q, r) o
    | inl (source, r, sourced) ↦ rw (q, r) (start-Outcome load options s source good sourced init)
  ]
]
