-- ===== src/Threads/Handle/Deadline.antt =====
-- What poll and wait return from the deadline on: an answer if no thread is in the middle of
-- resolving the request, and else an answer that nobody gave.
use winglib.Base.{
  ℕ, ◌^◌, ◌≤◌, ◌<◌, ◌≡◌, refl, ap, ◌∙◌, inl, inr, false, List, [], ◌∷◌, none, some, arith,
  get_elem?, length, lookup, erase, if◌then◌else◌, ltb, nat_eq, Bool-cases, get_elem?-set,
  get_elem?-lt, ==_refl,
}
use winglib.Threads.Reply.{
  PendingReplyState, resolve, ThreadReply, default_reply, make_terminal, timeout, request_timed_out,
}
use winglib.Threads.Reply
use winglib.Threads.Tree.{ThreadTree, Task, resolve_with, advance, release, resolve_state}
use winglib.Threads.Tree.Calls.{System, Reach}
use winglib.Threads.Tree.Advance.{owned_state, owns-in_tasks, absent}
use winglib.Threads.Tree.Once.{Reach-Inv, Reach-settled}
use winglib.Threads.Handle.{poll, wait_round, returns, expire, reply_at, finish}

-- The reply of a request that timed out.
abbrev timed_out : PendingReplyState → ThreadReply
timed_out state = make_terminal timeout state.id state.destination request_timed_out

pub release-found :
    (id h : ℕ) (reply : PendingReplyState → ThreadReply) (state : PendingReplyState)
    (t : ThreadTree)
    → lookup id t.pending ≡ some h
    → get_elem? t.states h ≡ some state
    → release id reply t
      ≡ (record t { pending = erase id t.pending }, resolve_with h (reply state) ∷ [])
unfolding release
release-found id h reply state t e f = rw (e, f, release)

release-absent :
    (id : ℕ) (reply : PendingReplyState → ThreadReply) (t : ThreadTree)
    → lookup id t.pending ≡ none
    → release id reply t ≡ (t, [])
unfolding release
release-absent id reply t e = rw (e, release)

resolve_state-reply :
    (h : ℕ) (reply : ThreadReply) (state : PendingReplyState) (t : ThreadTree)
    → get_elem? t.states h ≡ some state
    → state.terminal ≡ false
    → reply_at h (resolve_state h reply t) ≡ some reply
unfolding resolve_state resolve reply_at
resolve_state-reply h reply state t f g =
    rw (f, resolve_state)
      (ground (
        arith,
        g,
        get_elem?-set t.states h h (resolve reply state) (get_elem?-lt t.states h f),
        ==_refl h,
      ))

expire-found :
    (h : ℕ) (state : PendingReplyState) (t : ThreadTree)
    → lookup state.id t.pending ≡ some h
    → get_elem? t.states h ≡ some state
    → state.terminal ≡ false
    → reply_at h (expire state.id t) ≡ some (timed_out state)
unfolding expire advance
expire-found h state t e f g =
    ap (λ (p : ThreadTree × List Task). reply_at h (finish p.1 p.0))
      (release-found state.id h
        (λ x. make_terminal timeout state.id x.destination request_timed_out) state t e f)
    ∙ resolve_state-reply h (timed_out state) state _ f g

expire-absent : (id : ℕ) (t : ThreadTree) → lookup id t.pending ≡ none → expire id t ≡ t
unfolding expire
expire-absent id t e =
    ap (λ (p : ThreadTree × List Task). finish p.1 p.0)
      (release-absent id (λ x. make_terminal timeout id x.destination request_timed_out) t e)

-- From the deadline on poll gives an answer, if no thread is in the middle of a call: the answer
-- that was published, or else a timeout. Before the deadline it gives only a published answer.
pub poll-settled :
    {s : System} (h now : ℕ) (state : PendingReplyState)
    → Reach s
    → length s.tree.states < 2 ^ 64
    → s.tasks ≡ []
    → get_elem? s.tree.states h ≡ some state
    → (poll (some h) now s.tree).1 ≡ (
        if state.terminal
        then some state.reply
        else if ltb now state.deadline
        then none
        else some (timed_out state))
unfolding poll
poll-settled {s} h now state r small q e =
    rw (e, poll)
      (elim (Bool-cases state.terminal) [
        | inl done ↦ rw done
        | inr open_ ↦ elim (Reach-settled r small q h state e) [
          | inl done ↦ cc (done, open_)
          | inr found ↦ ground (arith, open_, expire-found h state s.tree found e open_)
        ]
      ])

-- But while another thread has taken the request out of the map and has not yet published its
-- reply, poll and wait from the deadline on return the reply that the state was made with: its
-- status is Ok, with no payload, though nobody answered.
pub poll_races :
    {s : System} (i h now : ℕ) (reply : ThreadReply) (state : PendingReplyState)
    → Reach s
    → length s.tree.states < 2 ^ 64
    → get_elem? s.tasks i ≡ some (resolve_with h reply)
    → get_elem? s.tree.states h ≡ some state
    → state.deadline ≤ now
    → ((poll (some h) now s.tree) ≡ (s.tree, some default_reply))
      × ((wait_round (some h) now now s.tree) ≡ (s.tree, returns (some default_reply)))
      × (default_reply.status ≡ Reply.ok)
unfolding poll wait_round reply_at default_reply
poll_races {s} i h now reply state r small e f late =
    let v = Reach-Inv r small in
    let (x, p, q, z) =
      owned_state h s.tree s.tasks v
        (owns-in_tasks h i (resolve_with h reply) s.tasks e (ground (arith, ==_refl h))) in
    let same : x ≡ state = cc (p, f) in
    let open_ : state.terminal ≡ false = rw same at q in
    let blank = v.blank h state f open_ in
    let gone = expire-absent state.id s.tree (absent h state s.tree s.tasks v f z) in
    (
      rw (f, poll) (ground (arith, open_, gone, blank, f, late)),
      rw (f, wait_round) (ground (arith, open_, gone, blank, f, late)),
      refl,
    )
