-- ===== src/Threads/Tree/Kept.antt =====
-- No move drops a reply state or changes one that is resolved.
use winglib.Base.{
  ℕ, ◌≤◌, ◌≡◌, refl, ◌∙◌, inl, inr, true, List, [], ◌∷◌, ◌++◌, some, arith, get_elem?, set, length,
  nat_eq, Option-cases, text_Eq, get_elem?-set, get_elem?-lt, get_elem?-append_left, length-append,
  length-set, Text,
}
use winglib.Threads.Mailbox.{Message, Mailbox}
use winglib.Threads.Reply.{PendingReplyState, resolve, ThreadReply}
use winglib.Threads.Tree.{
  ThreadTree, Task, insert_pending, post_to, wait_on, close_box, resolve_with, create, remove,
  request, release, deliver_reply, expire_pending, cancel_pending, reject_pending_for, shutdown,
  advance, enter_pending, resolve_state, on_mailbox,
}
use winglib.Threads.Tree.Calls.{
  Call, creates, removes, takes, sends, requests, delivers, expires, cancels, rejects, shuts, begin,
  System, Move, call, go_on, step,
}

-- States stay where they are, and a resolved one stays as it is.
abbrev pub Kept : List PendingReplyState → List PendingReplyState → Type 0
Kept xs ys =
    (length xs ≤ length ys)
    × ((h : ℕ) (state : PendingReplyState)
        → get_elem? xs h ≡ some state
        → state.terminal ≡ true
        → get_elem? ys h ≡ some state)

Kept-same : (xs ys : List PendingReplyState) → ys ≡ xs → Kept xs ys
Kept-same xs ys e = rw e (omega arith, λ h state p q. p)

Kept-snoc : (xs : List PendingReplyState) (state : PendingReplyState) → Kept xs (xs ++ state ∷ [])
Kept-snoc xs state = (
  omega (arith, length-append xs (state ∷ [])),
  λ h x p q. get_elem?-append_left xs (state ∷ []) h (get_elem?-lt xs h p) ∙ p,
)

Kept-resolve :
    (xs : List PendingReplyState) (h : ℕ) (state : PendingReplyState) (reply : ThreadReply)
    → get_elem? xs h ≡ some state
    → Kept xs (set xs h (resolve reply state))
unfolding resolve
Kept-resolve xs h state reply e = (
  omega (arith, length-set xs h (resolve reply state)),
  λ j x p q. ground (arith, get_elem?-set xs h j (resolve reply state) (get_elem?-lt xs h e)),
)

release-states :
    (id : ℕ) (reply : PendingReplyState → ThreadReply) (t : ThreadTree)
    → (release id reply t).0.states ≡ t.states
unfolding release
release-states id reply t = ground arith

remove-states : (path : Text) (t : ThreadTree) → (remove path t).0.states ≡ t.states
unfolding remove
remove-states path t = ground arith

create-states : (path : Text) (t : ThreadTree) → (create path t).0.states ≡ t.states
unfolding create
create-states path t = ground arith

deliver_reply-states :
    (reply : ThreadReply) (t : ThreadTree) → (deliver_reply reply t).0.states ≡ t.states
unfolding deliver_reply
deliver_reply-states reply t = ground (arith, release-states reply.request_id (λ _. reply) t)

begin-Kept : (c : Call) (t : ThreadTree) → Kept t.states (begin c t).0.states
unfolding begin expire_pending cancel_pending request reject_pending_for shutdown
begin-Kept (creates path) t = Kept-same t.states _ (create-states path t)
begin-Kept (removes path) t = Kept-same t.states _ (remove-states path t)
begin-Kept (takes path) t = Kept-same t.states _ refl
begin-Kept (sends message) t = Kept-same t.states _ refl
begin-Kept (requests message deadline) t = Kept-snoc t.states _
begin-Kept (delivers reply) t = Kept-same t.states _ (deliver_reply-states reply t)
begin-Kept (expires id) t = Kept-same t.states _ (release-states id _ t)
begin-Kept (cancels id) t = Kept-same t.states _ (release-states id _ t)
begin-Kept (rejects path error) t = Kept-same t.states _ refl
begin-Kept shuts t = Kept-same t.states _ refl

resolve_state-Kept :
    (h : ℕ) (reply : ThreadReply) (t : ThreadTree) → Kept t.states (resolve_state h reply t).states
unfolding resolve_state
resolve_state-Kept h reply t = elim (Option-cases (get_elem? t.states h)) [
  | inl e ↦ rw (e, resolve_state) (Kept-same t.states _ refl)
  | inr (state, e) ↦ rw (e, resolve_state) (Kept-resolve t.states h state reply e)
]

enter_pending-states :
    (h : ℕ) (message : Message) (t : ThreadTree) → (enter_pending h message t).0.states ≡ t.states
unfolding enter_pending
enter_pending-states h message t = ground arith

on_mailbox-states :
    (n : ℕ) (f : Mailbox → Mailbox) (t : ThreadTree) → (on_mailbox n f t).states ≡ t.states
unfolding on_mailbox
on_mailbox-states n f t = ground arith

advance-Kept : (task : Task) (t : ThreadTree) → Kept t.states (advance task t).0.states
unfolding advance
advance-Kept (insert_pending h message) t = Kept-same t.states _ (enter_pending-states h message t)
advance-Kept (post_to n message) t = Kept-same t.states _ (on_mailbox-states n _ t)
advance-Kept (wait_on n) t = Kept-same t.states _ (on_mailbox-states n _ t)
advance-Kept (close_box n) t = Kept-same t.states _ (on_mailbox-states n _ t)
advance-Kept (resolve_with h reply) t = resolve_state-Kept h reply t

pub step-Kept : (s : System) (m : Move) → Kept s.tree.states (step s m).tree.states
unfolding step
step-Kept s (call c) = begin-Kept c s.tree
step-Kept s (go_on i) = elim (Option-cases (get_elem? s.tasks i)) [
  | inl e ↦ rw (e, step) (Kept-same s.tree.states _ refl)
  | inr (task, e) ↦ rw (e, step) (advance-Kept task s.tree)
]
