-- ===== src/Deps/Fetch/Confined.antt =====
-- What fetchLockedModule of src/core/module_deps.cpp does to the world, and when.
use winglib.Base.{
  Result-cases, ◌≡◌, true, false, List, [], ◌∷◌, Text, codes, is_empty, ◌==◌, Bool-cases, inl, inr,
  ok,
}
use winglib.Deps.Lockfile.{LockedModule}
use winglib.Deps.Shell.{looks_like_option, is_safe_dependency_name}
use winglib.Deps.Trust.{SourceTrustPolicy, check_source_trust}
use winglib.Deps.Fetch.{
  Tools, join_path, fetch_guards, gave, checkout, update_clone, make_clone, fetch_locked_module,
}

-- The module may be fetched.
pub record MayFetch (policy : SourceTrustPolicy) (locked : LockedModule) : Type 0 where
  pub safe_name : is_safe_dependency_name locked.name ≡ true
  pub plain_git : looks_like_option locked.git ≡ false
  pub plain_commit : looks_like_option locked.commit ≡ false
  pub has_commit : is_empty locked.commit ≡ false
  pub trusted : check_source_trust locked.git policy ≡ ok tt

fetch_guards-MayFetch :
    (policy : SourceTrustPolicy) (locked : LockedModule)
    → fetch_guards policy locked ≡ ok tt
    → MayFetch policy locked
unfolding fetch_guards
fetch_guards-MayFetch policy locked h = elim (Bool-cases (is_empty locked.commit)) [
  | inl e ↦ cc (rw (fetch_guards, e) at h)
  | inr a ↦ elim (Bool-cases (is_safe_dependency_name locked.name)) [
    | inr e ↦ cc (rw (fetch_guards, a, e) at h)
    | inl b ↦ elim (Bool-cases (looks_like_option locked.git)) [
      | inl e ↦ cc (rw (fetch_guards, a, b, e) at h)
      | inr c ↦ elim (Bool-cases (looks_like_option locked.commit)) [
        | inl e ↦ cc (rw (fetch_guards, a, b, c, e) at h)
        | inr d ↦ elim (Result-cases (check_source_trust locked.git policy)) [
          | inl (u, t) ↦ record {
            safe_name = b;
            plain_git = c;
            plain_commit = d;
            has_commit = a;
            trusted = t;
          }
          | inr (e, t) ↦ cc (rw (fetch_guards, a, b, c, d, t) at h)
        ]
      ]
    ]
  ]
]

-- The commands that a fetch may give to git.
pub data Command (locked : LockedModule) (target : Text) : List Text → Type 0 where
  asks_head : Command locked target (codes "-C" ∷ target ∷ codes "rev-parse" ∷ codes "HEAD" ∷ [])
  fetches :
      Command locked target
        (codes "-C" ∷ target ∷ codes "fetch" ∷ codes "--all" ∷ codes "--tags" ∷ [])
  clones : Command locked target (codes "clone" ∷ codes "--" ∷ locked.git ∷ target ∷ [])
  checks_out :
      Command locked target
        (codes "-C" ∷ target ∷ codes "checkout" ∷ codes "--quiet" ∷ locked.commit ∷ [])

module _ {W : Type 0} (tools : Tools W) (policy : SourceTrustPolicy) (locked : LockedModule)
    (root : Text) where
  abbrev target : Text
  target = join_path root locked.name

  -- What holds of the world is kept by what a fetch may do.
  pub record Keeps (P : W → Type 0) : Type 0 where
    pub makes_root : (w : W) → P w → P (tools.create_directories root w)
    pub clears : (w : W) → P w → P (tools.remove_all target w)
    pub runs :
        (args : List Text) → Command locked target args → (w : W) → P w → P (tools.run_git args w).1

  module _ (P : W → Type 0) (k : Keeps P) where
    checkout-kept : (w : W) → P w → P (checkout tools locked target w).1
    unfolding checkout
    checkout-kept w p =
        k.runs (codes "-C" ∷ target ∷ codes "checkout" ∷ codes "--quiet" ∷ locked.commit ∷ [])
          checks_out w p

    update_clone-kept : (w : W) → P w → P (update_clone tools locked target w).1
    unfolding update_clone
    update_clone-kept w p =
        let head = codes "-C" ∷ target ∷ codes "rev-parse" ∷ codes "HEAD" ∷ [] in
        let more = codes "-C" ∷ target ∷ codes "fetch" ∷ codes "--all" ∷ codes "--tags" ∷ [] in
        let after = (tools.run_git head w).1 in
        let q : P after = k.runs head asks_head w p in
        elim (Bool-cases (gave (tools.run_git head w).0 locked.commit)) [
          | inl e ↦ rw (update_clone, e) q
          | inr e ↦
              rw (update_clone, e)
                (checkout-kept (tools.run_git more after).1 (k.runs more fetches after q))
        ]

    make_clone-kept : (w : W) → P w → P (make_clone tools locked target w).1
    unfolding make_clone
    make_clone-kept w p =
        let args = codes "clone" ∷ codes "--" ∷ locked.git ∷ target ∷ [] in
        let clear = tools.remove_all target w in
        let q : P (tools.run_git args clear).1 = k.runs args clones clear (k.clears w p) in
        elim (Bool-cases ((tools.run_git args clear).0.status == 0)) [
          | inr e ↦ rw (make_clone, e) q
          | inl e ↦ rw (make_clone, e) (checkout-kept (tools.run_git args clear).1 q)
        ]

  -- Whatever git answers, a fetch keeps what is kept by making the root, by clearing the module's own
  -- directory and by the four git commands; and it does any of this only for a module that may be
  -- fetched: a safe name, a trusted source, a commit, and neither of them an option.
  pub fetch_locked_module-confined :
      (P : W → Type 0) (w : W)
      → (MayFetch policy locked → Keeps P)
      → P w
      → P (fetch_locked_module tools policy locked root w).1
  unfolding fetch_locked_module
  fetch_locked_module-confined P w keeps p = elim (Result-cases (fetch_guards policy locked)) [
    | inr (e, h) ↦ rw (fetch_locked_module, h) p
    | inl (u, h) ↦
        let k = keeps (fetch_guards-MayFetch policy locked h) in
        let there = tools.create_directories root w in
        elim (Bool-cases (tools.is_directory (join_path target (codes ".git")) there)) [
          | inl e ↦ rw (fetch_locked_module, h, e) (update_clone-kept P k there (k.makes_root w p))
          | inr e ↦ rw (fetch_locked_module, h, e) (make_clone-kept P k there (k.makes_root w p))
        ]
  ]
