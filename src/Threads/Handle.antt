-- ===== src/Threads/Handle.antt =====
-- PendingReply of include/wl2/thread_tree.h and src/core/thread_tree.cpp: what the requester holds.
-- These methods run while other threads may be in the middle of a call.
pub mod Deadline
use winglib.Base.{
  ℕ, Bool, true, false, List, [], ◌∷◌, Option, none, some, get_elem?, Text, codes, if◌then◌else◌,
  ltb, leb,
}
use winglib.Threads.Reply.{ThreadReply, PendingReplyState, make_terminal, cancelled}
use winglib.Threads.Tree.{ThreadTree, Task, advance, expire_pending, cancel_pending}

-- A thread that goes through its tasks without a pause.
unfoldable pub finish_last : List Task → ThreadTree → ThreadTree
finish_last [] t = t
finish_last (task ∷ tasks) t = finish_last tasks (advance task t).0

unfoldable pub finish : List Task → ThreadTree → ThreadTree
unfolding finish_last
finish [] t = t
finish (task ∷ tasks) t = let (u, new) = advance task t in finish tasks (finish_last new u)

-- A handle is empty, or holds the position of its state.
abbrev pub PendingReply : Type 0
PendingReply = Option ℕ

unfoldable pub id : PendingReply → ThreadTree → ℕ
id none t = 0
id (some h) t = elim (get_elem? t.states h) [ none ↦ 0 | some state ↦ state.id ]

unfoldable pub is_done : PendingReply → ThreadTree → Bool
is_done none t = true
is_done (some h) t = elim (get_elem? t.states h) [ none ↦ true | some state ↦ state.terminal ]

-- `state_->reply`, whether it is published or not.
unfoldable pub reply_at : ℕ → ThreadTree → Option ThreadReply
reply_at h t = elim (get_elem? t.states h) [ none ↦ none | some state ↦ some state.reply ]

unfoldable pub expire : ℕ → ThreadTree → ThreadTree
unfolding finish expire_pending
expire id t = let (u, tasks) = expire_pending id t in finish tasks u

unfoldable pub poll : PendingReply → ℕ → ThreadTree → ThreadTree × Option ThreadReply
unfolding expire reply_at
poll none now t = (t, none)
poll (some h) now t = elim (get_elem? t.states h) [
  | none ↦ (t, none)
  | some state ↦
      if state.terminal
      then (t, some state.reply)
      else if ltb now state.deadline
      then (t, none)
      else let u = expire state.id t in (u, reply_at h u)
]

pub data Round : Type 0 where
  returns : Option ThreadReply → Round
  sleeps : Round

-- One round of the loop of `wait(timeout)`, entered or woken at `now`.
unfoldable pub wait_round : PendingReply → ℕ → ℕ → ThreadTree → ThreadTree × Round
unfolding expire reply_at
wait_round none until now t = (t, returns none)
wait_round (some h) until now t = elim (get_elem? t.states h) [
  | none ↦ (t, returns none)
  | some state ↦
      if state.terminal
      then (t, returns (some state.reply))
      else if leb state.deadline now
      then (let u = expire state.id t in (u, returns (reply_at h u)))
      else if leb until now
      then (t, returns none)
      else (t, sleeps)
]

unfoldable pub empty_reply : Text
empty_reply = codes "empty pending reply"

-- One round of the loop of `wait()`, which waits until the deadline.
unfoldable pub wait_forever_round : PendingReply → ℕ → ThreadTree → ThreadTree × Round
unfolding expire reply_at empty_reply
wait_forever_round none now t = (t, returns (some (make_terminal cancelled 0 [] empty_reply)))
wait_forever_round (some h) now t = elim (get_elem? t.states h) [
  | none ↦ (t, sleeps)
  | some state ↦
      if state.terminal
      then (t, returns (some state.reply))
      else if leb state.deadline now
      then (let u = expire state.id t in (u, returns (reply_at h u)))
      else (t, sleeps)
]

unfoldable pub cancel : PendingReply → ThreadTree → ThreadTree
unfolding finish cancel_pending
cancel none t = t
cancel (some h) t = elim (get_elem? t.states h) [
  | none ↦ t
  | some state ↦ let (u, tasks) = cancel_pending state.id t in finish tasks u
]
