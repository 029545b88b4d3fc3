-- ===== src/Threads/Tree.antt =====
-- ThreadTree of include/wl2/thread_tree.h and src/core/thread_tree.cpp. Nodes and reply states are
-- shared objects: they stand in lists, and a handle is a position there. A method is cut where it
-- gives up a mutex: its first critical section is a function that returns the tree and the tasks
-- that the calling thread has still to do, and `advance` does one task.
pub mod Count
pub mod Calls
pub mod Invariant
pub mod Preserve
pub mod Advance
pub mod Kept
pub mod Once
use winglib.Base.{
  ℕ, ◌+◌, ◌%◌, ◌^◌, Bool, true, false, List, [], ◌∷◌, ◌++◌, Option, none, some, Text, text_eq,
  length, get_elem?, set, lookup, emplace, erase, if◌then◌else◌, keep, nat_eq, text_Eq, map, not,
}
use winglib.Threads.Mailbox.{Message, Mailbox, empty_mailbox}
use winglib.Threads.Mailbox as Mailbox
use winglib.Threads.Reply.{
  ReplyStatus, ok, rejected, timeout, cancelled, unreachable, ThreadReply, default_reply,
  make_terminal, PendingReplyState, resolve, request_timed_out, request_cancelled,
  no_such_destination, tree_shut_down, main_path,
}

pub record ThreadNode : Type 0 where
  pub path : Text
  pub mailbox : Mailbox

-- `names` is `nodes_` and `pending` is `pending_`, both onto handles.
pub record ThreadTree : Type 0 where
  pub nodes : List ThreadNode
  pub names : List (Text × ℕ)
  pub states : List PendingReplyState
  pub pending : List (ℕ × ℕ)
  pub next_id : ℕ
  pub dropped_replies : ℕ

-- What a thread has still to do when it has given up the tree's mutex.
pub data Task : Type 0 where
  insert_pending : ℕ → Message → Task
  post_to : ℕ → Message → Task
  wait_on : ℕ → Task
  close_box : ℕ → Task
  resolve_with : ℕ → ThreadReply → Task

abbrev pub new_node : Text → ThreadNode
new_node path = record { path = path; mailbox = empty_mailbox }

unfoldable pub init : ThreadTree
unfolding main_path
init = record {
  nodes = new_node main_path ∷ [];
  names = (main_path, 0) ∷ [];
  states = [];
  pending = [];
  next_id = 1;
  dropped_replies = 0;
}

unfoldable pub find : Text → ThreadTree → Option ℕ
find path t = lookup path t.names

-- A node that is there stays.
unfoldable pub create : Text → ThreadTree → ThreadTree × ℕ
create path t = elim (lookup path t.names) [
  | some n ↦ (t, n)
  | none ↦ (
    record t {
      nodes = t.nodes ++ new_node path ∷ [];
      names = emplace path (length t.nodes) t.names;
    },
    length t.nodes,
  )
]

unfoldable pub remove : Text → ThreadTree → ThreadTree × List Task × Bool
unfolding main_path
remove path t = if text_eq path main_path then (t, [], false) else elim (lookup path t.names) [
  | none ↦ (t, [], false)
  | some n ↦ (record t { names = erase path t.names }, close_box n ∷ [], true)
]

unfoldable pub send : Message → ThreadTree → List Task × Bool
send message t = elim (lookup message.destination t.names) [
  | none ↦ ([], false)
  | some n ↦ (post_to n message ∷ [], true)
]

-- `nextId_.fetch_add(1)` and the new state. The message carries its id from here on.
unfoldable pub request : Message → ℕ → ThreadTree → ThreadTree × List Task × ℕ
request message deadline t = (
  record t { states = t.states ++ state ∷ []; next_id = (t.next_id + 1) % 2 ^ 64 },
  insert_pending (length t.states) (record message { id = t.next_id; expects_reply = true }) ∷ [],
  length t.states,
)
  where
    state : PendingReplyState
    state = record {
      id = t.next_id;
      destination = message.destination;
      deadline = deadline;
      terminal = false;
      reply = default_reply;
    }

unfoldable pub take : Text → ThreadTree → List Task
take path t = elim (lookup path t.names) [ none ↦ [] | some n ↦ wait_on n ∷ [] ]

-- The common part of deliverReply, expirePending and cancelPending: take the state out of the map.
unfoldable pub release : ℕ → (PendingReplyState → ThreadReply) → ThreadTree → ThreadTree × List Task
release id reply t = elim (lookup id t.pending) [
  | none ↦ (t, [])
  | some h ↦ elim (get_elem? t.states h) [
    | none ↦ (t, [])
    | some state ↦ (record t { pending = erase id t.pending }, resolve_with h (reply state) ∷ [])
  ]
]

unfoldable pub deliver_reply : ThreadReply → ThreadTree → ThreadTree × List Task
unfolding release
deliver_reply reply t = elim (lookup reply.request_id t.pending) [
  | none ↦ (record t { dropped_replies = (t.dropped_replies + 1) % 2 ^ 64 }, [])
  | some h ↦ release reply.request_id (λ _. reply) t
]

unfoldable pub expire_pending : ℕ → ThreadTree → ThreadTree × List Task
unfolding release
expire_pending id t =
    release id (λ state. make_terminal timeout id state.destination request_timed_out) t

unfoldable pub cancel_pending : ℕ → ThreadTree → ThreadTree × List Task
unfolding release
cancel_pending id t =
    release id (λ state. make_terminal cancelled id state.destination request_cancelled) t

-- The entries for one destination leave the map, and each of their states is to be resolved.
abbrev pub addressed_to : Text → List PendingReplyState → ℕ × ℕ → Bool
addressed_to path states entry = elim (get_elem? states entry.1) [
  | none ↦ false
  | some state ↦ text_eq state.destination path
]

-- `resolve_state(state, make_terminal(Unreachable, state->id, source, error))`, one for each entry.
unfoldable pub unreachables :
    (PendingReplyState → Text) → Text → List PendingReplyState → List (ℕ × ℕ) → List Task
unreachables source error states [] = []
unreachables source error states ((id, h) ∷ m) = elim (get_elem? states h) [
  | none ↦ unreachables source error states m
  | some state ↦
      resolve_with h (make_terminal unreachable state.id (source state) error)
      ∷ unreachables source error states m
]

unfoldable pub reject_pending_for : Text → Text → ThreadTree → ThreadTree × List Task
unfolding unreachables
reject_pending_for path error t = (
  record t { pending = keep (λ entry. not (addressed_to path t.states entry)) t.pending },
  unreachables (λ _. path) error t.states (keep (addressed_to path t.states) t.pending),
)

-- The mutex section of shutdown, and what it does to mailboxes and states after the threads ended.
unfoldable pub shutdown : ThreadTree → ThreadTree × List Task
unfolding unreachables
shutdown t = (
  record t { pending = [] },
  map (λ entry. close_box entry.1) t.names
      ++ unreachables (λ state. state.destination) tree_shut_down t.states t.pending,
)

unfoldable pub on_mailbox : ℕ → (Mailbox → Mailbox) → ThreadTree → ThreadTree
on_mailbox n f t = elim (get_elem? t.nodes n) [
  | none ↦ t
  | some node ↦ record t { nodes = set t.nodes n (record node { mailbox = f node.mailbox }) }
]

-- request's critical section, with the decision that follows it.
unfoldable pub enter_pending : ℕ → Message → ThreadTree → ThreadTree × List Task
enter_pending h message t = elim (get_elem? t.states h) [
  | none ↦ (t, [])
  | some state ↦ elim (lookup message.destination t.names) [
    | some n ↦ (record t { pending = emplace state.id h t.pending }, post_to n message ∷ [])
    | none ↦ (
      t,
      resolve_with h (
            make_terminal unreachable state.id message.destination
              (no_such_destination ++ message.destination))
          ∷ [],
    )
  ]
]

unfoldable pub resolve_state : ℕ → ThreadReply → ThreadTree → ThreadTree
unfolding resolve
resolve_state h reply t = elim (get_elem? t.states h) [
  | none ↦ t
  | some state ↦ record t { states = set t.states h (resolve reply state) }
]

unfoldable pub advance : Task → ThreadTree → ThreadTree × List Task
unfolding on_mailbox enter_pending resolve_state Mailbox.post Mailbox.wait Mailbox.close
advance (insert_pending h message) t = enter_pending h message t
advance (post_to n message) t = (on_mailbox n (Mailbox.post message) t, [])
advance (wait_on n) t = (on_mailbox n (λ box. (Mailbox.wait box).1) t, [])
advance (close_box n) t = (on_mailbox n Mailbox.close t, [])
advance (resolve_with h reply) t = (resolve_state h reply t, [])
