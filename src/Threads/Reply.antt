-- ===== src/Threads/Reply.antt =====
-- ReplyStatus, ThreadReply and PendingReplyState of include/wl2/thread_tree.h and
-- src/core/thread_tree.cpp.
use winglib.Base.{ℕ, Bool, true, [], Text, codes, if◌then◌else◌}

pub data ReplyStatus : Type 0 where
  ok rejected timeout cancelled unreachable : ReplyStatus

pub record ThreadReply : Type 0 where
  pub status : ReplyStatus
  pub request_id : ℕ
  pub source : Text
  pub type : Text
  pub payload : Text
  pub error : Text

-- `ThreadReply reply;`: what a state holds until it is resolved. Its status is `Ok`.
unfoldable pub default_reply : ThreadReply
default_reply = record {
  status = ok;
  request_id = 0;
  source = [];
  type = [];
  payload = [];
  error = [];
}

unfoldable pub make_terminal : ReplyStatus → ℕ → Text → Text → ThreadReply
make_terminal status id source error = record {
  status = status;
  request_id = id;
  source = source;
  type = [];
  payload = [];
  error = error;
}

-- Time is the reading of `steady_clock`.
pub record PendingReplyState : Type 0 where
  pub id : ℕ
  pub destination : Text
  pub deadline : ℕ
  pub terminal : Bool
  pub reply : ThreadReply

-- resolve_state under the state's mutex: the first reply stays.
unfoldable pub resolve : ThreadReply → PendingReplyState → PendingReplyState
resolve reply state =
    if state.terminal then state else record state { terminal = true; reply = reply }

unfoldable pub request_timed_out : Text
request_timed_out = codes "request timed out"

unfoldable pub request_cancelled : Text
request_cancelled = codes "request cancelled"

unfoldable pub no_such_destination : Text
no_such_destination = codes "no such destination: "

unfoldable pub tree_shut_down : Text
tree_shut_down = codes "thread tree shut down"

unfoldable pub thread_exited : Text
thread_exited = codes "thread_exited"

unfoldable pub main_path : Text
main_path = codes "/main"
