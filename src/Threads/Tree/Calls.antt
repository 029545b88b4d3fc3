-- ===== src/Threads/Tree/Calls.antt =====
-- Any number of threads that use one tree at once. A move is one critical section: a thread begins
-- a call, with whatever arguments, or goes on with a call that it has begun. Moves come in any
-- order; a task may wait for ever.
use winglib.Base.{ℕ, zero, suc, List, [], ◌∷◌, ◌++◌, none, some, Text, get_elem?}
use winglib.Threads.Mailbox.{Message}
use winglib.Threads.Reply.{ThreadReply}
use winglib.Threads.Tree.{
  ThreadTree, Task, init, create, remove, send, request, take, deliver_reply, expire_pending,
  cancel_pending, reject_pending_for, shutdown, advance,
}

pub data Call : Type 0 where
  creates removes takes : Text → Call
  sends : Message → Call
  requests : Message → ℕ → Call
  delivers : ThreadReply → Call
  expires cancels : ℕ → Call
  rejects : Text → Text → Call
  shuts : Call

unfoldable pub begin : Call → ThreadTree → ThreadTree × List Task
unfolding create remove send request take deliver_reply expire_pending cancel_pending
    reject_pending_for shutdown
begin (creates path) t = ((create path t).0, [])
begin (removes path) t = let (t', tasks, done) = remove path t in (t', tasks)
begin (takes path) t = (t, take path t)
begin (sends message) t = (t, (send message t).0)
begin (requests message deadline) t = let (t', tasks, h) = request message deadline t in (t', tasks)
begin (delivers reply) t = deliver_reply reply t
begin (expires id) t = expire_pending id t
begin (cancels id) t = cancel_pending id t
begin (rejects path error) t = reject_pending_for path error t
begin shuts t = shutdown t

pub record System : Type 0 where
  pub tree : ThreadTree
  pub tasks : List Task

pub data Move : Type 0 where
  call : Call → Move
  go_on : ℕ → Move

abbrev pub remove_at {ℓ} : {A : Type ℓ} → ℕ → List A → List A
remove_at i [] = []
remove_at zero (x ∷ xs) = xs
remove_at (suc i) (x ∷ xs) = x ∷ remove_at i xs

-- A move that names no task changes nothing.
unfoldable pub step : System → Move → System
unfolding begin
step s (call c) = let (t, new) = begin c s.tree in record { tree = t; tasks = s.tasks ++ new }
step s (go_on i) = elim (get_elem? s.tasks i) [
  | none ↦ s
  | some task ↦
      let (t, new) = advance task s.tree in record { tree = t; tasks = remove_at i s.tasks ++ new }
]

abbrev pub idle : System
idle = record { tree = init; tasks = [] }

pub data Reach : System → Type 0 where
  start : Reach idle
  move : {s : System} → Reach s → (m : Move) → Reach (step s m)
