-- ===== src/Threads/Tree/Count.antt =====
-- How often a reply state is owned: by an entry of the pending map, or by a task.
use winglib.Base.{
  ℕ, zero, suc, ◌+◌, ◌≤◌, ◌<◌, ◌≡◌, refl, ◌≢◌, Bool, false, List, [], ◌∷◌, ◌++◌, none, some, arith,
  get_elem?, set, length, map, lookup, erase, emplace, keep, not, if◌then◌else◌, ◌==◌, nat_eq,
  ==_refl, Text, lookup-erase, lt-get_elem?,
}
use winglib.Threads.Reply.{PendingReplyState, resolve, ThreadReply}
use winglib.Threads.Tree.Calls.{remove_at}
use winglib.Threads.Tree.{
  Task, insert_pending, post_to, wait_on, close_box, resolve_with, unreachables,
}

abbrev pub bit : Bool → ℕ
bit b = if b then 1 else 0

abbrev pub in_pending : ℕ → List (ℕ × ℕ) → ℕ
in_pending h [] = 0
in_pending h ((k, j) ∷ m) = bit (j == h) + in_pending h m

abbrev pub owned_by : ℕ → Task → ℕ
owned_by h (insert_pending j message) = bit (j == h)
owned_by h (resolve_with j reply) = bit (j == h)
owned_by h (post_to n message) = 0
owned_by h (wait_on n) = 0
owned_by h (close_box n) = 0

abbrev pub in_tasks : ℕ → List Task → ℕ
in_tasks h [] = 0
in_tasks h (k ∷ ks) = owned_by h k + in_tasks h ks

abbrev pub resolved : ℕ → List PendingReplyState → ℕ
resolved h states = elim (get_elem? states h) [ none ↦ 0 | some state ↦ bit state.terminal ]

pub in_pending-append :
    (h : ℕ) (m n : List (ℕ × ℕ)) → in_pending h (m ++ n) ≡ in_pending h m + in_pending h n
in_pending-append h [] n = omega arith
in_pending-append h ((k, j) ∷ m) n = omega (arith, in_pending-append h m n)

pub in_tasks-append :
    (h : ℕ) (ks ls : List Task) → in_tasks h (ks ++ ls) ≡ in_tasks h ks + in_tasks h ls
in_tasks-append h [] ls = omega arith
in_tasks-append h (k ∷ ks) ls = omega (arith, in_tasks-append h ks ls)

-- No key twice.
abbrev pub Distinct : List (ℕ × ℕ) → Type 0
Distinct [] = Unit {0}
Distinct ((k, j) ∷ m) = (lookup k m ≡ none) × Distinct m

pub erase_absent : (k : ℕ) (m : List (ℕ × ℕ)) → lookup k m ≡ none → erase k m ≡ m
unfolding lookup erase
erase_absent k [] e = refl
erase_absent k ((i, j) ∷ m) e = ground (arith, erase_absent k m)

pub in_pending-erase :
    (k h i : ℕ) (m : List (ℕ × ℕ))
    → Distinct m
    → lookup k m ≡ some h
    → in_pending i (erase k m) + bit (h == i) ≡ in_pending i m
unfolding lookup erase
in_pending-erase k h i [] d e = cc
in_pending-erase k h i ((l, j) ∷ m) d e =
    ground (arith, erase_absent k m, in_pending-erase k h i m d.1)

lookup-erase-none : (k l : ℕ) (m : List (ℕ × ℕ)) → lookup l m ≡ none → lookup l (erase k m) ≡ none
unfolding lookup erase
lookup-erase-none k l [] e = refl
lookup-erase-none k l ((i, j) ∷ m) e = ground (arith, lookup-erase-none k l m)

pub Distinct-erase : (k : ℕ) (m : List (ℕ × ℕ)) → Distinct m → Distinct (erase k m)
unfolding erase
Distinct-erase k [] d = tt
Distinct-erase k ((l, j) ∷ m) d =
    ground (arith, Distinct-erase k m d.1, lookup-erase-none k l m d.0)

pub lookup-erase-some :
    (k l h : ℕ) (m : List (ℕ × ℕ)) → lookup l (erase k m) ≡ some h → lookup l m ≡ some h
lookup-erase-some k l h m e = ground (arith, lookup-erase k l m)

lookup-emplace-none :
    (k h l : ℕ) (m : List (ℕ × ℕ)) → lookup l m ≡ none → l ≢ k → lookup l (emplace k h m) ≡ none
unfolding lookup emplace
lookup-emplace-none k h l [] e n = ground arith
lookup-emplace-none k h l ((i, j) ∷ m) e n = ground (arith, lookup-emplace-none k h l m)

pub Distinct-emplace : (k h : ℕ) (m : List (ℕ × ℕ)) → Distinct m → Distinct (emplace k h m)
unfolding emplace lookup
Distinct-emplace k h [] d = (refl, tt)
Distinct-emplace k h ((l, j) ∷ m) d =
    ground (arith, Distinct-emplace k h m d.1, lookup-emplace-none k h l m d.0)

pub in_pending-lookup : (k h : ℕ) (m : List (ℕ × ℕ)) → lookup k m ≡ some h → 1 ≤ in_pending h m
unfolding lookup
in_pending-lookup k h [] e = cc
in_pending-lookup k h ((l, j) ∷ m) e = ground (arith, in_pending-lookup k h m)

pub lookup-in_pending :
    (h : ℕ) (m : List (ℕ × ℕ))
    → ((k j : ℕ) → lookup k m ≡ some j → k ≡ j + 1)
    → Distinct m
    → 1 ≤ in_pending h m
    → lookup (h + 1) m ≡ some h
unfolding lookup
lookup-in_pending h [] f d p = absurd (omega arith)
lookup-in_pending h ((k, j) ∷ m) f d p =
    let head : k ≡ j + 1 = f k j (ground (arith, ==_refl k)) in
    let rest : (l i : ℕ) → lookup l m ≡ some i → l ≡ i + 1 =
      λ l i e. f l i (ground (arith, d.0, e)) in
    ground (arith, head, lookup-in_pending h m rest d.1)

module _ (p : ℕ × ℕ → Bool) where
  lookup-keep-none : (l : ℕ) (m : List (ℕ × ℕ)) → lookup l m ≡ none → lookup l (keep p m) ≡ none
  unfolding lookup
  lookup-keep-none l [] e = refl
  lookup-keep-none l ((i, j) ∷ m) e = ground (arith, lookup-keep-none l m)

  pub Distinct-keep : (m : List (ℕ × ℕ)) → Distinct m → Distinct (keep p m)
  Distinct-keep [] d = tt
  Distinct-keep ((l, j) ∷ m) d = ground (arith, Distinct-keep m d.1, lookup-keep-none l m d.0)

  pub lookup-keep-some :
      (l h : ℕ) (m : List (ℕ × ℕ)) → Distinct m → lookup l (keep p m) ≡ some h → lookup l m ≡ some h
  unfolding lookup
  lookup-keep-some l h [] d e = e
  lookup-keep-some l h ((i, j) ∷ m) d e =
      ground (arith, lookup-keep-some l h m d.1, lookup-keep-none i m d.0)

  pub in_pending-keep :
      (h : ℕ) (m : List (ℕ × ℕ))
      → in_pending h (keep p m) + in_pending h (keep (λ x. not (p x)) m) ≡ in_pending h m
  in_pending-keep h [] = refl
  in_pending-keep h ((l, j) ∷ m) = ground (arith, in_pending-keep h m)

-- Each entry leads to a state.
abbrev pub InRange : List PendingReplyState → List (ℕ × ℕ) → Type 0
InRange states [] = Unit {0}
InRange states ((k, h) ∷ m) = (h < length states) × InRange states m

pub InRange-of :
    (states : List PendingReplyState) (m : List (ℕ × ℕ))
    → ((h : ℕ) → 1 ≤ in_pending h m → h < length states)
    → InRange states m
InRange-of states [] f = tt
InRange-of states ((k, j) ∷ m) f =
    (f j (ground (arith, ==_refl j)), InRange-of states m (λ h q. f h (omega (arith, q))))

pub InRange-keep :
    (p : ℕ × ℕ → Bool) (states : List PendingReplyState) (m : List (ℕ × ℕ))
    → InRange states m
    → InRange states (keep p m)
InRange-keep p states [] r = tt
InRange-keep p states ((k, h) ∷ m) r = ground (arith, InRange-keep p states m r.1)

-- Each entry gives one task, for the same state.
pub in_tasks-unreachables :
    (source : PendingReplyState → Text) (error : Text) (states : List PendingReplyState) (h : ℕ)
    (m : List (ℕ × ℕ))
    → InRange states m
    → in_tasks h (unreachables source error states m) ≡ in_pending h m
unfolding unreachables
in_tasks-unreachables source error states h [] r = refl
in_tasks-unreachables source error states h ((k, j) ∷ m) r =
    ground (arith, lt-get_elem? states j r.0, in_tasks-unreachables source error states h m r.1)

pub in_tasks-closes :
    (h : ℕ) (names : List (Text × ℕ)) → in_tasks h (map (λ entry. close_box entry.1) names) ≡ 0
in_tasks-closes h [] = refl
in_tasks-closes h ((path, n) ∷ names) = omega (arith, in_tasks-closes h names)

pub in_tasks-remove_at :
    (h i : ℕ) (task : Task) (tasks : List Task)
    → get_elem? tasks i ≡ some task
    → in_tasks h (remove_at i tasks) + owned_by h task ≡ in_tasks h tasks
in_tasks-remove_at h i task [] e = cc
in_tasks-remove_at h zero task (x ∷ tasks) e = ground arith
in_tasks-remove_at h (suc i) task (x ∷ tasks) e = omega (arith, in_tasks-remove_at h i task tasks e)

pub resolved-set :
    (h i : ℕ) (state : PendingReplyState) (reply : ThreadReply) (states : List PendingReplyState)
    → get_elem? states h ≡ some state
    → state.terminal ≡ false
    → resolved i (set states h (resolve reply state)) ≡ resolved i states + bit (h == i)
unfolding resolve
resolved-set h i state reply [] e f = cc
resolved-set zero zero state reply (x ∷ states) e f = ground arith
resolved-set zero (suc i) state reply (x ∷ states) e f = ground arith
resolved-set (suc h) zero state reply (x ∷ states) e f = ground arith
resolved-set (suc h) (suc i) state reply (x ∷ states) e f =
    ground (arith, resolved-set h i state reply states e f)
