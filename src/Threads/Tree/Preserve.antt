-- ===== src/Threads/Tree/Preserve.antt =====
-- The first critical section of each call keeps the invariant.
use winglib.Base.{
  ℕ, ◌+◌, ◌^◌, ◌<◌, ◌≡◌, refl, inl, inr, List, [], ◌∷◌, ◌++◌, arith, length, lookup, nat_eq,
  Option-cases, text_Eq, Bool-cases, keep, length-append, Text, text_eq, map,
}
use winglib.Threads.Mailbox.{Message}
use winglib.Threads.Reply.{ThreadReply, main_path, tree_shut_down}
use winglib.Threads.Tree.{
  ThreadTree, Task, post_to, wait_on, close_box, create, remove, send, request, take, deliver_reply,
  reject_pending_for, shutdown, addressed_to, unreachables,
}
use winglib.Threads.Tree.Calls.{
  Call, creates, removes, takes, sends, requests, delivers, expires, cancels, rejects, shuts, begin,
}
use winglib.Threads.Tree.Count.{
  in_tasks, in_tasks-append, Distinct-keep, lookup-keep-some, in_pending-keep, InRange-keep,
  in_tasks-unreachables, in_tasks-closes,
}
use winglib.Threads.Tree.Invariant.{Inv, Inv-frame, Inv-nil, in_range, request-Inv, release-Inv}

reject-Inv :
    (path error : Text) (t : ThreadTree) (ks : List Task)
    → Inv t ks
    → let (u, new) = reject_pending_for path error t in Inv u (ks ++ new)
unfolding reject_pending_for
reject-Inv path error t ks v = record {
  ids = v.ids;
  blank = v.blank;
  next = v.next;
  keyed = λ k h e. v.keyed k h (lookup-keep-some _ k h t.pending v.distinct e);
  distinct = Distinct-keep _ t.pending v.distinct;
  once = λ h. omega (
    arith,
    v.once h,
    in_tasks-append h ks
        (unreachables (λ _. path) error t.states (keep (addressed_to path t.states) t.pending)),
    in_tasks-unreachables (λ _. path) error t.states h (keep (addressed_to path t.states) t.pending)
        (InRange-keep (addressed_to path t.states) t.states t.pending (in_range v)),
    in_pending-keep (addressed_to path t.states) h t.pending,
  );
}

shutdown-Inv :
    (t : ThreadTree) (ks : List Task) → Inv t ks → let (u, new) = shutdown t in Inv u (ks ++ new)
unfolding shutdown lookup
shutdown-Inv t ks v = record {
  ids = v.ids;
  blank = v.blank;
  next = v.next;
  keyed = λ k h e. cc;
  distinct = tt;
  once = λ h.
      let closes = map (λ (entry : Text × ℕ). close_box entry.1) t.names in
      let rest = unreachables (λ state. state.destination) tree_shut_down t.states t.pending in
      omega (
        arith,
        v.once h,
        in_tasks-append h ks (closes ++ rest),
        in_tasks-append h closes rest,
        in_tasks-closes h t.names,
        in_tasks-unreachables (λ state. state.destination) tree_shut_down t.states h t.pending
            (in_range v),
      );
}

keep_tasks : (h : ℕ) (ks ls : List Task) → in_tasks h ls ≡ 0 → in_tasks h (ks ++ ls) ≡ in_tasks h ks
keep_tasks h ks ls e = omega (arith, in_tasks-append h ks ls)

create-Inv : (path : Text) (t : ThreadTree) (ks : List Task) → Inv t ks → Inv (create path t).0 ks
unfolding create
create-Inv path t ks v = elim (Option-cases (lookup path t.names)) [
  | inl e ↦ rw (e, create) (Inv-frame v refl refl refl (λ h. refl))
  | inr (n, e) ↦ rw (e, create) v
]

remove-Inv :
    (path : Text) (t : ThreadTree) (ks : List Task)
    → Inv t ks
    → let (u, new, done) = remove path t in Inv u (ks ++ new)
unfolding remove
remove-Inv path t ks v = elim (Bool-cases (text_eq path main_path)) [
  | inl q ↦ rw (q, remove) (Inv-nil v)
  | inr q ↦ elim (Option-cases (lookup path t.names)) [
    | inl e ↦ rw (q, e, remove) (Inv-nil v)
    | inr (n, e) ↦
        rw (q, e, remove)
          (Inv-frame v refl refl refl (λ h. keep_tasks h ks (close_box n ∷ []) (omega arith)))
  ]
]

send-Inv :
    (message : Message) (t : ThreadTree) (ks : List Task)
    → Inv t ks
    → Inv t (ks ++ (send message t).0)
unfolding send
send-Inv message t ks v = elim (Option-cases (lookup message.destination t.names)) [
  | inl e ↦ rw (e, send) (Inv-nil v)
  | inr (n, e) ↦
      rw (e, send)
        (Inv-frame v refl refl refl (λ h. keep_tasks h ks (post_to n message ∷ []) (omega arith)))
]

take-Inv : (path : Text) (t : ThreadTree) (ks : List Task) → Inv t ks → Inv t (ks ++ take path t)
unfolding take
take-Inv path t ks v = elim (Option-cases (lookup path t.names)) [
  | inl e ↦ rw (e, take) (Inv-nil v)
  | inr (n, e) ↦
      rw (e, take)
        (Inv-frame v refl refl refl (λ h. keep_tasks h ks (wait_on n ∷ []) (omega arith)))
]

deliver-Inv :
    (reply : ThreadReply) (t : ThreadTree) (ks : List Task)
    → Inv t ks
    → let (u, new) = deliver_reply reply t in Inv u (ks ++ new)
unfolding deliver_reply
deliver-Inv reply t ks v = elim (Option-cases (lookup reply.request_id t.pending)) [
  | inl e ↦ rw (e, deliver_reply) (Inv-nil (Inv-frame v refl refl refl (λ h. refl)))
  | inr (n, e) ↦ rw (e, deliver_reply) (release-Inv reply.request_id (λ _. reply) t ks v)
]

length-request :
    (message : Message) (deadline : ℕ) (t : ThreadTree)
    → length (request message deadline t).0.states ≡ length t.states + 1
unfolding request
length-request message deadline t = length-append t.states (_ ∷ [])

pub begin-Inv :
    (c : Call) (t : ThreadTree) (ks : List Task)
    → length (begin c t).0.states < 2 ^ 64
    → Inv t ks
    → let (u, new) = begin c t in Inv u (ks ++ new)
unfolding begin
begin-Inv (creates path) t ks small v = Inv-nil (create-Inv path t ks v)
begin-Inv (removes path) t ks small v = remove-Inv path t ks v
begin-Inv (takes path) t ks small v = take-Inv path t ks v
begin-Inv (sends message) t ks small v = send-Inv message t ks v
begin-Inv (requests message deadline) t ks small v =
    request-Inv message deadline t ks (omega (arith, small, length-request message deadline t)) v
begin-Inv (delivers reply) t ks small v = deliver-Inv reply t ks v
begin-Inv (expires id) t ks small v = release-Inv id _ t ks v
begin-Inv (cancels id) t ks small v = release-Inv id _ t ks v
begin-Inv (rejects path error) t ks small v = reject-Inv path error t ks v
begin-Inv shuts t ks small v = shutdown-Inv t ks v
