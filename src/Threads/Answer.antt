-- ===== src/Threads/Answer.antt =====
-- ThreadRequest of include/wl2/thread_tree.h and src/core/thread_tree.cpp: a message that its
-- receiver has to answer.
pub mod Duty
pub mod Delivery
use winglib.Base.{
  ℕ, Bool, true, false, ◌&&◌, ◌||◌, not, List, [], ◌∷◌, ◌++◌, Option, none, some, Text, codes,
  if◌then◌else◌,
}
use winglib.Threads.Mailbox.{Message}
use winglib.Threads.Reply.{ThreadReply, ok, rejected, make_terminal}

-- `has_tree` says that `tree_` is not null.
pub record ThreadRequest : Type 0 where
  pub has_tree : Bool
  pub message : Message
  pub resolved : Bool
  pub deferred : Bool

-- `ThreadRequest{tree, message}`
abbrev pub taken : Message → ThreadRequest
taken message = record { has_tree = true; message = message; resolved = false; deferred = false }

unfoldable pub request_dropped : Text
request_dropped = codes "request_dropped"

-- A method returns the request, its result and the replies that it hands to deliverReply.
unfoldable pub reply : Text → Text → ThreadRequest → ThreadRequest × Bool × List ThreadReply
reply payload type r =
    if not r.has_tree || (not r.message.expects_reply || r.resolved)
    then (r, false, [])
    else (record r { resolved = true }, true, answer ∷ [])
  where
    answer : ThreadReply
    answer = record {
      status = ok;
      request_id = r.message.id;
      source = r.message.destination;
      type = type;
      payload = payload;
      error = [];
    }

unfoldable pub reject : Text → ThreadRequest → ThreadRequest × Bool × List ThreadReply
reject error r =
    if not r.has_tree || (not r.message.expects_reply || r.resolved) then (r, false, []) else (
      record r { resolved = true },
      true,
      make_terminal rejected r.message.id r.message.destination error ∷ [],
    )

unfoldable pub defer : ThreadRequest → ThreadRequest
defer r = record r { deferred = true }

abbrev pub owes : ThreadRequest → Bool
owes r = r.has_tree && (r.message.expects_reply && (not r.resolved && not r.deferred))

-- The destructor.
unfoldable pub destroy : ThreadRequest → List ThreadReply
unfolding reject
destroy r = if owes r then (reject request_dropped r).2 else []

-- `ThreadRequest(ThreadRequest&& other)`: the new request, and what is left of `other`.
unfoldable pub move_from : ThreadRequest → ThreadRequest × ThreadRequest
move_from other = (other, record other { has_tree = false })

-- `*this = std::move(other)` of two different requests: `this`, `other`, and the replies.
unfoldable pub move_assign :
    ThreadRequest → ThreadRequest → ThreadRequest × ThreadRequest × List ThreadReply
unfolding destroy
move_assign this other = (other, record other { has_tree = false }, destroy this)

-- What the receiver does with a request between taking it and giving it up.
pub data Op : Type 0 where
  replies : Text → Text → Op
  rejects : Text → Op
  defers : Op
  moves : Op

-- The request after one operation, and the replies. A move goes to a new object, and the old one
-- is destroyed.
unfoldable pub act : Op → ThreadRequest → ThreadRequest × List ThreadReply
unfolding reply reject defer move_from destroy
act (replies payload type) r = let (r', done, out) = reply payload type r in (r', out)
act (rejects error) r = let (r', done, out) = reject error r in (r', out)
act defers r = (defer r, [])
act moves r = let (new, old) = move_from r in (new, destroy old)

-- All replies of the operations and of the destructor.
unfoldable pub life : ThreadRequest → List Op → List ThreadReply
unfolding act destroy
life r [] = destroy r
life r (op ∷ ops) = let (r', out) = act op r in out ++ life r' ops
