-- ===== src/Threads/Tree/Invariant.antt =====
-- What holds of the pending map, the reply states and the tasks in every reachable system.
use winglib.Base.{
  ℕ, zero, suc, ◌+◌, ◌%◌, ◌^◌, ◌<◌, ◌≡◌, refl, inl, inr, false, List, [], ◌∷◌, ◌++◌, some, arith,
  get_elem?, length, lookup, erase, ltb, nat_eq, Option-cases, get_elem?-snoc, length-append,
  append-nil,
}
use winglib.Threads.Mailbox.{Message}
use winglib.Threads.Reply.{PendingReplyState, ThreadReply, default_reply}
use winglib.Threads.Tree.{ThreadTree, Task, insert_pending, resolve_with, request, release}
use winglib.Threads.Tree.Count.{
  bit, in_pending, in_tasks, resolved, Distinct, in_tasks-append, in_pending-erase, Distinct-erase,
  lookup-erase-some, InRange, InRange-of,
}

-- An id is the position of its state, from 1 on. Each state is owned once: by an entry of the
-- pending map, by a task that will enter or resolve it, or by nobody when it is resolved.
pub record Inv (t : ThreadTree) (ks : List Task) : Type 0 where
  pub ids :
      (h : ℕ) (state : PendingReplyState) → get_elem? t.states h ≡ some state → state.id ≡ h + 1
  pub blank :
      (h : ℕ) (state : PendingReplyState)
      → get_elem? t.states h ≡ some state
      → state.terminal ≡ false
      → state.reply ≡ default_reply
  pub next : t.next_id ≡ (length t.states + 1) % 2 ^ 64
  pub keyed : (k h : ℕ) → lookup k t.pending ≡ some h → k ≡ h + 1
  pub distinct : Distinct t.pending
  pub once :
      (h : ℕ)
      → in_pending h t.pending + in_tasks h ks + resolved h t.states ≡ bit (ltb h (length t.states))

-- A change of other fields and of tasks that own nothing.
pub Inv-frame :
    {t u : ThreadTree} {ks ls : List Task}
    → Inv t ks
    → u.states ≡ t.states
    → u.pending ≡ t.pending
    → u.next_id ≡ t.next_id
    → ((h : ℕ) → in_tasks h ls ≡ in_tasks h ks)
    → Inv u ls
Inv-frame v a b c f = record {
  ids = λ h state e. v.ids h state (rw (← a) e);
  blank = λ h state e q. v.blank h state (rw (← a) e) q;
  next = rw (a, c) v.next;
  keyed = λ k h e. v.keyed k h (rw (← b) e);
  distinct = rw b v.distinct;
  once = λ h. rw (a, b, f h) (v.once h);
}

resolved-snoc :
    (states : List PendingReplyState) (state : PendingReplyState) (h : ℕ)
    → state.terminal ≡ false
    → resolved h (states ++ state ∷ []) ≡ resolved h states
resolved-snoc [] state zero f = ground arith
resolved-snoc [] state (suc h) f = refl
resolved-snoc (x ∷ states) state zero f = refl
resolved-snoc (x ∷ states) state (suc h) f = resolved-snoc states state h f

pub in_range : {t : ThreadTree} {ks : List Task} → Inv t ks → InRange t.states t.pending
in_range {t} {ks} v = InRange-of t.states t.pending (λ h q. ground (arith, v.once h, q))

-- A new state, under the next id, owned by the task that will enter it.
opened-Inv :
    (state : PendingReplyState) (message : Message) (t : ThreadTree) (ks : List Task)
    → length t.states + 1 < 2 ^ 64
    → state.id ≡ t.next_id
    → state.terminal ≡ false
    → state.reply ≡ default_reply
    → Inv t ks
    → Inv
        (record t { states = t.states ++ state ∷ []; next_id = (t.next_id + 1) % 2 ^ 64 })
        (ks ++ insert_pending (length t.states) message ∷ [])
opened-Inv state message t ks small a b c v = record {
  ids = λ h x e. ground (arith, get_elem?-snoc t.states state h e, v.ids h x, v.next);
  blank = λ h x e q. ground (arith, get_elem?-snoc t.states state h e, v.blank h x);
  next = omega (arith, v.next, length-append t.states (state ∷ []));
  keyed = v.keyed;
  distinct = v.distinct;
  once = λ h. ground (
    arith,
    v.once h,
    length-append t.states (state ∷ []),
    in_tasks-append h ks (insert_pending (length t.states) message ∷ []),
    resolved-snoc t.states state h b,
  );
}

pub request-Inv :
    (message : Message) (deadline : ℕ) (t : ThreadTree) (ks : List Task)
    → length t.states + 1 < 2 ^ 64
    → Inv t ks
    → let (u, new, h) = request message deadline t in Inv u (ks ++ new)
unfolding request
request-Inv message deadline t ks small v = opened-Inv _ _ t ks small refl refl refl v

released : ℕ → ThreadTree → ThreadTree
released id t = record t { pending = erase id t.pending }

-- One entry leaves the map, and a task takes its state over.
released-Inv :
    (id h : ℕ) (reply : ThreadReply) (t : ThreadTree) (ks : List Task)
    → Inv t ks
    → lookup id t.pending ≡ some h
    → Inv (released id t) (ks ++ resolve_with h reply ∷ [])
unfolding released
released-Inv id h reply t ks v e = record {
  ids = v.ids;
  blank = v.blank;
  next = v.next;
  keyed = λ k j q. v.keyed k j (lookup-erase-some id k j t.pending q);
  distinct = Distinct-erase id t.pending v.distinct;
  once = λ i. omega (
    arith,
    v.once i,
    in_pending-erase id h i t.pending v.distinct e,
    in_tasks-append i ks (resolve_with h reply ∷ []),
  );
}

pub Inv-nil : {t : ThreadTree} {ks : List Task} → Inv t ks → Inv t (ks ++ [])
Inv-nil v = rw append-nil v

pub release-Inv :
    (id : ℕ) (reply : PendingReplyState → ThreadReply) (t : ThreadTree) (ks : List Task)
    → Inv t ks
    → let (u, new) = release id reply t in Inv u (ks ++ new)
unfolding release released
release-Inv id reply t ks v = elim (Option-cases (lookup id t.pending)) [
  | inl e ↦ rw (e, release) (Inv-nil v)
  | inr (h, e) ↦ elim (Option-cases (get_elem? t.states h)) [
    | inl f ↦ rw (e, f, release) (Inv-nil v)
    | inr (state, f) ↦ rw (e, f, release) (released-Inv id h (reply state) t ks v e)
  ]
]
