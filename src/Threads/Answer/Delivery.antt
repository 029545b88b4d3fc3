-- ===== src/Threads/Answer/Delivery.antt =====
-- From the request to its answer: request, take, reply and poll one after the other.
use winglib.Base.{
  ℕ, ◌+◌, ◌%◌, ◌^◌, ◌<◌, ◌≡◌, refl, ap, ◌∙◌, inl, inr, true, false, List, [], ◌∷◌, ◌++◌, Option,
  none, some, arith, get_elem?, length, lookup, erase, emplace, nat_eq, text_Eq, Option-cases,
  get_elem?-set, get_elem?-lt, ==_refl, Text, get_elem?-append_length, lookup-emplace,
}
use winglib.Threads.Mailbox.{Message, Mailbox, empty_mailbox}
use winglib.Threads.Mailbox
use winglib.Threads.Reply.{PendingReplyState, resolve, ThreadReply, ok, default_reply}
use winglib.Threads.Tree.{
  ThreadTree, ThreadNode, Task, resolve_with, wait_on, request, advance, deliver_reply,
  resolve_state, enter_pending, on_mailbox,
}
use winglib.Threads.Tree.Count.{in_pending-lookup}
use winglib.Threads.Tree.Invariant.{Inv}
use winglib.Threads.Handle.{poll, finish, finish_last}
use winglib.Threads.Handle.Deadline.{release-found}
use winglib.Threads.Answer.{taken, reply}

-- The message that take would hand out at a node.
abbrev pub front : ℕ → ThreadTree → Option Message
front n t = elim (get_elem? t.nodes n) [ none ↦ none | some node ↦ (Mailbox.wait node.mailbox).0 ]

-- deliverReply of each reply in turn.
unfoldable pub deliver_all : List ThreadReply → ThreadTree → ThreadTree
unfolding finish
deliver_all [] t = t
deliver_all (answer ∷ answers) t =
    let (u, tasks) = deliver_reply answer t in deliver_all answers (finish tasks u)

deliver_reply-found :
    (h : ℕ) (answer : ThreadReply) (state : PendingReplyState) (t : ThreadTree)
    → lookup answer.request_id t.pending ≡ some h
    → get_elem? t.states h ≡ some state
    → deliver_reply answer t
      ≡ (record t { pending = erase answer.request_id t.pending }, resolve_with h answer ∷ [])
unfolding deliver_reply
deliver_reply-found h answer state t e f =
    rw (e, deliver_reply) (release-found answer.request_id h (λ _. answer) state t e f)

poll-resolved :
    (h now : ℕ) (answer : ThreadReply) (state : PendingReplyState) (t : ThreadTree)
    → get_elem? t.states h ≡ some state
    → state.terminal ≡ false
    → (poll (some h) now (resolve_state h answer t)).1 ≡ some answer
unfolding poll resolve_state resolve
poll-resolved h now answer state t f g =
    rw (f, resolve_state)
      (ground (
        arith,
        g,
        get_elem?-set t.states h h (resolve answer state) (get_elem?-lt t.states h f),
        ==_refl h,
      ))

poll-delivered :
    (h now : ℕ) (answer : ThreadReply) (state : PendingReplyState) (t : ThreadTree)
    → lookup answer.request_id t.pending ≡ some h
    → get_elem? t.states h ≡ some state
    → state.terminal ≡ false
    → (poll (some h) now (deliver_all (answer ∷ []) t)).1 ≡ some answer
unfolding deliver_all finish advance
poll-delivered h now answer state t e f g =
    ap (λ (p : ThreadTree × List Task). (poll (some h) now (finish p.1 p.0)).1)
      (deliver_reply-found h answer state t e f)
    ∙ poll-resolved h now answer state _ f g

on_mailbox-pending :
    (n : ℕ) (f : Mailbox → Mailbox) (t : ThreadTree) → (on_mailbox n f t).pending ≡ t.pending
unfolding on_mailbox
on_mailbox-pending n f t = ground arith

on_mailbox-states :
    (n : ℕ) (f : Mailbox → Mailbox) (t : ThreadTree) → (on_mailbox n f t).states ≡ t.states
unfolding on_mailbox
on_mailbox-states n f t = ground arith

front-post :
    (n : ℕ) (sent : Message) (node : ThreadNode) (t : ThreadTree)
    → get_elem? t.nodes n ≡ some node
    → node.mailbox ≡ empty_mailbox
    → front n (on_mailbox n (Mailbox.post sent) t) ≡ some sent
unfolding on_mailbox Mailbox.post Mailbox.wait
front-post n sent node t e q =
    rw (e, on_mailbox)
      (ground (
        arith,
        q,
        get_elem?-set t.nodes n n (record node { mailbox = Mailbox.post sent node.mailbox })
            (get_elem?-lt t.nodes n e),
        ==_refl n,
      ))

module _ (t : ThreadTree) (v : Inv t []) (small : length t.states + 1 < 2 ^ 64) (message : Message)
    (deadline : ℕ) (n : ℕ) (node : ThreadNode) (named : lookup message.destination t.names ≡ some n)
    (at_node : get_elem? t.nodes n ≡ some node) (waiting : node.mailbox ≡ empty_mailbox) where
  -- The message as it is posted.
  abbrev sent : Message
  sent = record message { id = t.next_id; expects_reply = true }

  abbrev fresh : PendingReplyState
  fresh = record {
    id = t.next_id;
    destination = message.destination;
    deadline = deadline;
    terminal = false;
    reply = default_reply;
  }

  abbrev entered : ThreadTree
  entered = record t {
    states = t.states ++ fresh ∷ [];
    next_id = (t.next_id + 1) % 2 ^ 64;
    pending = emplace t.next_id (length t.states) t.pending;
  }

  unused : lookup t.next_id t.pending ≡ none
  unused = elim (Option-cases (lookup t.next_id t.pending)) [
    | inl q ↦ q
    | inr (j, q) ↦ absurd (
        ground (
          arith,
          v.keyed t.next_id j q,
          v.next,
          v.once j,
          in_pending-lookup t.next_id j t.pending q,
        ))
  ]

  request_sends :
      finish (request message deadline t).1 (request message deadline t).0
      ≡ on_mailbox n (Mailbox.post sent) entered
  unfolding request finish advance enter_pending
  request_sends =
      rw (get_elem?-append_length t.states fresh, enter_pending) (rw (named, enter_pending))

  in_map : lookup t.next_id entered.pending ≡ some (length t.states)
  in_map = ground (
    arith,
    lookup-emplace t.next_id t.next_id (length t.states) t.pending unused,
    ==_refl t.next_id,
  )

  -- What the receiver's reply becomes.
  abbrev pub answer_of : Text → Text → ThreadReply
  answer_of payload type = record {
    status = ok;
    request_id = t.next_id;
    source = message.destination;
    type = type;
    payload = payload;
    error = [];
  }

  -- A request to a node that is there, is open and has nothing waiting, reaches that node as its
  -- next message; and when the receiver takes it and replies, the requester's poll returns that
  -- reply, at whatever time.
  pub request_answered :
      (now : ℕ) (payload type : Text)
      → let (a, tasks, h) = request message deadline t in
        let b = finish tasks a in
        let c = finish (wait_on n ∷ []) b in
        (front n b ≡ some sent)
        × ((poll (some h) now (deliver_all (reply payload type (taken sent)).2 c)).1
            ≡ some (answer_of payload type))
  unfolding request reply finish advance finish_last
  request_answered now payload type = (
    ap (front n) request_sends ∙ front-post n sent node entered at_node waiting,
    ap
          (λ u.
            (poll (some (length t.states)) now (
              deliver_all (answer_of payload type ∷ [])
                (on_mailbox n (λ box. (Mailbox.wait box).1) u))).1)
          request_sends
        ∙ poll-delivered (length t.states) now (answer_of payload type) fresh after
            (rw (on_mailbox-pending n _ _, on_mailbox-pending n _ _) in_map)
            (rw (on_mailbox-states n _ _, on_mailbox-states n _ _)
              (get_elem?-append_length t.states fresh))
            refl,
  )
    where
      after : ThreadTree
      after = on_mailbox n (λ box. (Mailbox.wait box).1) (on_mailbox n (Mailbox.post sent) entered)
