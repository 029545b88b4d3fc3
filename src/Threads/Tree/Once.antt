-- ===== src/Threads/Tree/Once.antt =====
-- What the invariant says of requests: each is answered once, and by one answer.
use winglib.Base.{
  ℕ, ◌+◌, ◌^◌, ◌≤◌, ◌<◌, ◌≡◌, refl, ==_refl, ◌⊎◌, inl, inr, true, false, [], some, arith, get_elem?,
  length, lookup, nat_eq, Option-cases, text_Eq, Bool-cases, get_elem?-set, get_elem?-lt,
}
use winglib.Threads.Reply.{PendingReplyState, resolve, ThreadReply}
use winglib.Threads.Tree.{resolve_with, init, advance, resolve_state}
use winglib.Threads.Tree.Calls.{System, Move, call, go_on, step, Reach, start, move}
use winglib.Threads.Tree.Count.{in_pending, in_tasks, resolved, lookup-in_pending}
use winglib.Threads.Tree.Invariant.{Inv}
use winglib.Threads.Tree.Preserve.{begin-Inv}
use winglib.Threads.Tree.Kept.{step-Kept}
use winglib.Threads.Tree.Advance.{advance-Inv, owned_state, owns-in_tasks}

-- A reply that has been published is never replaced: no move of any thread changes a resolved
-- state.
pub step-terminal :
    (s : System) (m : Move) (h : ℕ) (state : PendingReplyState)
    → get_elem? s.tree.states h ≡ some state
    → state.terminal ≡ true
    → get_elem? (step s m).tree.states h ≡ some state
step-terminal s m = (step-Kept s m).1

step-Inv :
    (s : System) (m : Move)
    → length (step s m).tree.states < 2 ^ 64
    → Inv s.tree s.tasks
    → Inv (step s m).tree (step s m).tasks
unfolding step
step-Inv s (call c) small v = begin-Inv c s.tree s.tasks small v
step-Inv s (go_on i) small v = elim (Option-cases (get_elem? s.tasks i)) [
  | inl e ↦ rw (e, step) v
  | inr (task, e) ↦ rw (e, step) (advance-Inv i task s.tree s.tasks v e)
]

idle-Inv : Inv init []
unfolding init lookup
idle-Inv = record {
  ids = λ h state e. cc;
  blank = λ h state e q. cc;
  next = refl;
  keyed = λ k h e. cc;
  distinct = tt;
  once = λ h. ground arith;
}

-- Until 2 ^ 64 requests have been made.
pub Reach-Inv : {s : System} → Reach s → length s.tree.states < 2 ^ 64 → Inv s.tree s.tasks
Reach-Inv start small = idle-Inv
Reach-Inv (move {s = s} r m) small =
    step-Inv s m small (Reach-Inv r (omega (arith, (step-Kept s m).0)))

-- In every reachable system a request is in exactly one place: in the pending map, in one thread's
-- hands on the way into the map or out of it, or resolved. So no two of a reply, a timeout, a
-- cancellation, a thread's exit and a shutdown ever both resolve it, and none of them loses it.
pub Reach-once :
    {s : System}
    → Reach s
    → length s.tree.states < 2 ^ 64
    → (h : ℕ) → h < length s.tree.states
    → in_pending h s.tree.pending + in_tasks h s.tasks + resolved h s.tree.states ≡ 1
Reach-once r small h p = ground (arith, (Reach-Inv r small).once h)

-- A thread that has taken a request out of the map publishes its reply: when its turn comes the
-- state is not resolved, and holds that reply afterwards.
pub Reach-resolves :
    {s : System}
    → Reach s
    → length s.tree.states < 2 ^ 64
    → (i h : ℕ) (reply : ThreadReply) → get_elem? s.tasks i ≡ some (resolve_with h reply)
    → (state : PendingReplyState) × (get_elem? s.tree.states h ≡ some state)
      × (state.terminal ≡ false)
      × (get_elem? (step s (go_on i)).tree.states h
          ≡ some (record state { terminal = true; reply = reply }))
unfolding step advance resolve_state resolve
Reach-resolves {s} r small i h reply e =
    let (state, p, q, _) =
      owned_state h s.tree s.tasks (Reach-Inv r small)
        (owns-in_tasks h i (resolve_with h reply) s.tasks e (ground (arith, ==_refl h))) in
    (
      state,
      p,
      q,
      rw (e, step)
          (rw (p, resolve_state)
            (ground (
              arith,
              q,
              get_elem?-set s.tree.states h h (resolve reply state)
                  (get_elem?-lt s.tree.states h p),
            ))),
    )

-- When no thread is in the middle of a call, each request is resolved, or waits in the map under
-- its own id.
pub Reach-settled :
    {s : System}
    → Reach s
    → length s.tree.states < 2 ^ 64
    → s.tasks ≡ []
    → (h : ℕ) (state : PendingReplyState) → get_elem? s.tree.states h ≡ some state
    → (state.terminal ≡ true) ⊎ (lookup state.id s.tree.pending ≡ some h)
Reach-settled {s} r small q h state e = elim (Bool-cases state.terminal) [
  | inl done ↦ inl done
  | inr open_ ↦
      let v = Reach-Inv r small in
      let own : 1 ≤ in_pending h s.tree.pending =
        ground (arith, v.once h, q, e, open_, get_elem?-lt s.tree.states h e) in
      inr (rw (v.ids h state e) (lookup-in_pending h s.tree.pending v.keyed v.distinct own))
]
