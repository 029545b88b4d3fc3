-- ===== src/Threads/Tree/Advance.antt =====
-- Each task of a thread keeps the invariant.
use winglib.Base.{
  ℕ, ◌+◌, ◌≤◌, ◌≡◌, refl, inl, inr, false, List, [], ◌∷◌, ◌++◌, none, some, arith, get_elem?, set,
  lookup, emplace, if◌then◌else◌, ◌==◌, ltb, nat_eq, Option-cases, text_Eq, get_elem?-lt,
  length-set, get_elem?-set, lt-get_elem?, ap, ==_refl, emplace-new, lookup-emplace,
}
use winglib.Threads.Mailbox.{Message, Mailbox}
use winglib.Threads.Reply.{PendingReplyState, resolve, ThreadReply}
use winglib.Threads.Tree.{
  ThreadTree, Task, insert_pending, post_to, wait_on, close_box, resolve_with, advance,
  enter_pending, resolve_state, on_mailbox,
}
use winglib.Threads.Tree.Calls.{remove_at}
use winglib.Threads.Tree.Count.{
  bit, in_pending, owned_by, in_tasks, in_pending-append, in_tasks-append, Distinct-emplace,
  in_pending-lookup, in_tasks-remove_at, resolved-set,
}
use winglib.Threads.Tree.Invariant.{Inv, Inv-frame, Inv-nil}

-- A task that owns a state gives it up to `ls`.
resolved-Inv :
    (h : ℕ) (reply : ThreadReply) (state : PendingReplyState) (t : ThreadTree) (ks ls : List Task)
    → Inv t ks
    → get_elem? t.states h ≡ some state
    → state.terminal ≡ false
    → ((j : ℕ) → in_tasks j ls + bit (h == j) ≡ in_tasks j ks)
    → Inv (record t { states = set t.states h (resolve reply state) }) ls
unfolding resolve
resolved-Inv h reply state t ks ls v e f g = record {
  ids = λ j x q. ground (arith, at j, v.ids j x, v.ids h state e);
  blank = λ j x q. ground (arith, at j, v.blank j x);
  next = rw (length-set t.states h (resolve reply state)) v.next;
  keyed = v.keyed;
  distinct = v.distinct;
  once = λ j. omega (
    arith,
    v.once j,
    g j,
    resolved-set h j state reply t.states e f,
    ap (λ n. bit (ltb j n)) (length-set t.states h (resolve reply state)),
  );
}
  where
    at :
        (j : ℕ)
        → get_elem? (set t.states h (resolve reply state)) j
          ≡ (if h == j then some (resolve reply state) else get_elem? t.states j)
    at j = get_elem?-set t.states h j _ (get_elem?-lt t.states h e)

-- The state of a task that owns one is there and is not resolved.
pub owned_state :
    (h : ℕ) (t : ThreadTree) (ks : List Task)
    → Inv t ks
    → 1 ≤ in_tasks h ks
    → (state : PendingReplyState) × (get_elem? t.states h ≡ some state)
      × (state.terminal ≡ false)
      × (in_pending h t.pending ≡ 0)
owned_state h t ks v p = elim (Option-cases (get_elem? t.states h)) [
  | inl e ↦ let (x, q) = lt-get_elem? t.states h (ground (arith, v.once h, p)) in cc (e, q)
  | inr (state, e) ↦ (state, e, ground (arith, v.once h, p, e), ground (arith, v.once h, p, e))
]

pub owns-in_tasks :
    (h i : ℕ) (task : Task) (ks : List Task)
    → get_elem? ks i ≡ some task
    → owned_by h task ≡ 1
    → 1 ≤ in_tasks h ks
owns-in_tasks h i task ks e o = omega (arith, in_tasks-remove_at h i task ks e)

resolve_state-Inv :
    (i h : ℕ) (reply : ThreadReply) (t : ThreadTree) (ks : List Task)
    → Inv t ks
    → get_elem? ks i ≡ some (resolve_with h reply)
    → Inv (resolve_state h reply t) (remove_at i ks)
unfolding resolve_state
resolve_state-Inv i h reply t ks v e =
    let (state, p, q, r) =
      owned_state h t ks v (owns-in_tasks h i _ ks e (ground (arith, ==_refl h))) in
    rw (p, resolve_state)
      (resolved-Inv h reply state t ks (remove_at i ks) v p q
        (λ j. in_tasks-remove_at j i (resolve_with h reply) ks e))

-- A state that no entry owns is not in the map under its id.
pub absent :
    (h : ℕ) (state : PendingReplyState) (t : ThreadTree) (ks : List Task)
    → Inv t ks
    → get_elem? t.states h ≡ some state
    → in_pending h t.pending ≡ 0
    → lookup state.id t.pending ≡ none
absent h state t ks v e z = elim (Option-cases (lookup state.id t.pending)) [
  | inl q ↦ q
  | inr (j, q) ↦ absurd (
      ground
        (arith, v.keyed state.id j q, v.ids h state e, in_pending-lookup state.id j t.pending q, z))
]

-- The entry is new, so that `emplace` makes it.
entered-Inv :
    (h : ℕ) (message : Message) (n : ℕ) (state : PendingReplyState) (t : ThreadTree)
    (ks ls : List Task)
    → Inv t ks
    → get_elem? t.states h ≡ some state
    → in_pending h t.pending ≡ 0
    → ((j : ℕ) → in_tasks j ls + bit (h == j) ≡ in_tasks j ks)
    → Inv (record t { pending = emplace state.id h t.pending }) ls
entered-Inv h message n state t ks ls v e z g = record {
  ids = v.ids;
  blank = v.blank;
  next = v.next;
  keyed = λ k j q.
      ground (arith, lookup-emplace state.id k h t.pending new, v.keyed k j, v.ids h state e);
  distinct = Distinct-emplace state.id h t.pending v.distinct;
  once = λ j. omega (
    arith,
    v.once j,
    g j,
    ap (in_pending j) (emplace-new state.id h t.pending new),
    in_pending-append j t.pending ((state.id, h) ∷ []),
  );
}
  where
    new : lookup state.id t.pending ≡ none
    new = absent h state t ks v e z

remove_append :
    (h j i : ℕ) (task : Task) (ks new : List Task)
    → get_elem? ks i ≡ some task
    → in_tasks j new + bit (h == j) ≡ owned_by j task
    → in_tasks j (remove_at i ks ++ new) + bit (h == j) ≡ in_tasks j ks
remove_append h j i task ks new e f =
    omega (arith, in_tasks-remove_at j i task ks e, in_tasks-append j (remove_at i ks) new)

enter_pending-Inv :
    (i h : ℕ) (message : Message) (t : ThreadTree) (ks : List Task)
    → Inv t ks
    → get_elem? ks i ≡ some (insert_pending h message)
    → let (u, new) = enter_pending h message t in Inv u (remove_at i ks ++ new)
unfolding enter_pending
enter_pending-Inv i h message t ks v e =
    let (state, p, q, r) =
      owned_state h t ks v (owns-in_tasks h i _ ks e (ground (arith, ==_refl h))) in
    elim (Option-cases (lookup message.destination t.names)) [
      | inl x ↦
          rw (p, x, enter_pending)
            (Inv-frame v refl refl refl (λ j. omega (
              arith,
              in_tasks-remove_at j i _ ks e,
              in_tasks-append j (remove_at i ks) (resolve_with h _ ∷ []),
            )))
      | inr (n, x) ↦
          rw (p, x, enter_pending)
            (entered-Inv h message n state t ks _ v p r
              (λ j. remove_append h j i _ ks (post_to n message ∷ []) e (omega arith)))
    ]

on_mailbox-frame :
    (n : ℕ) (f : Mailbox → Mailbox) (t : ThreadTree)
    → ((on_mailbox n f t).states ≡ t.states)
      × ((on_mailbox n f t).pending ≡ t.pending)
      × ((on_mailbox n f t).next_id ≡ t.next_id)
unfolding on_mailbox
on_mailbox-frame n f t = ground arith

mailbox-Inv :
    (i n : ℕ) (f : Mailbox → Mailbox) (task : Task) (t : ThreadTree) (ks : List Task)
    → Inv t ks
    → get_elem? ks i ≡ some task
    → ((h : ℕ) → owned_by h task ≡ 0)
    → Inv (on_mailbox n f t) (remove_at i ks ++ [])
mailbox-Inv i n f task t ks v e z =
    let (a, b, c) = on_mailbox-frame n f t in
    Inv-nil (Inv-frame v a b c (λ h. omega (arith, in_tasks-remove_at h i task ks e, z h)))

pub advance-Inv :
    (i : ℕ) (task : Task) (t : ThreadTree) (ks : List Task)
    → Inv t ks
    → get_elem? ks i ≡ some task
    → let (u, new) = advance task t in Inv u (remove_at i ks ++ new)
unfolding advance
advance-Inv i (insert_pending h message) t ks v e = enter_pending-Inv i h message t ks v e
advance-Inv i (post_to n message) t ks v e = mailbox-Inv i n _ _ t ks v e (λ h. refl)
advance-Inv i (wait_on n) t ks v e = mailbox-Inv i n _ _ t ks v e (λ h. refl)
advance-Inv i (close_box n) t ks v e = mailbox-Inv i n _ _ t ks v e (λ h. refl)
advance-Inv i (resolve_with h reply) t ks v e = Inv-nil (resolve_state-Inv i h reply t ks v e)
