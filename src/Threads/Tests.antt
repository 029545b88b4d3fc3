-- ===== src/Threads/Tests.antt =====
-- Runs of the thread tree on concrete calls, at which its theorems apply.
use winglib.Base.{
  ◌≡◌, ◌⊎◌, ◌↔◌, ◌+◌, ◌≤◌, ◌<◌, ◌^◌, refl, true, false, List, [], ◌∷◌, ◌++◌, none, some, arith,
  Text, codes, length, get_elem?, lookup, All, if◌then◌else◌, ltb, text_Eq, nat_eq, emplace,
  contains_char, Result, ok, err, text_eq,
}
use winglib.Threads.Path.{validate_thread_path, parent_path, check_segment}
use winglib.Threads.Path.Segments.{
  IsSegment, IsThreadPath, check_segment-none, validate_thread_path-IsThreadPath, parent_path-join,
}
use winglib.Threads.Mailbox.{Message, empty_mailbox, run, posts, waits, closes}
use winglib.Threads.Mailbox.Order.{run-fifo}
use winglib.Threads.Reply.{
  ThreadReply, PendingReplyState, default_reply, make_terminal, timeout, request_timed_out,
}
use winglib.Threads.Reply
use winglib.Threads.Tree.{
  ThreadNode, init, new_node, resolve_with, request, wait_on, advance, enter_pending,
}
use winglib.Threads.Tree.Calls.{
  System, Reach, start, move, idle, step, call, go_on, requests, expires, shuts,
}
use winglib.Threads.Tree.Count.{in_pending, in_tasks, resolved}
use winglib.Threads.Tree.Invariant.{Inv}
use winglib.Threads.Tree.Once.{step-terminal, Reach-Inv, Reach-once, Reach-resolves, Reach-settled}
use winglib.Threads.Handle.{poll, wait_round, returns, finish}
use winglib.Threads.Handle.Deadline.{poll-settled, poll_races}
use winglib.Threads.Answer.{taken, life, replies, rejects, moves, reply}
use winglib.Threads.Answer.Duty.{life-once, life-answers, first_answer, Answers}
use winglib.Threads.Answer.Delivery.{request_answered, front, deliver_all}
use winglib.Threads.Script.{
  ScriptThread, ScriptThreadOptions, Threads, spawn, interrupt_subtree, new_thread, isolate,
  path_exists,
}
use winglib.Threads.Script.Subtree.{interrupt_subtree_iff}
use winglib.Threads.Script.Spawn.{Outcome, spawn-Outcome}

abbrev main_text : Text
main_text = codes "main"

abbrev work : Text
work = codes "work"

main-IsSegment : IsSegment main_text
unfolding contains_char check_segment text_eq
main-IsSegment = check_segment-none main_text refl refl

work-IsSegment : IsSegment work
unfolding contains_char check_segment text_eq
work-IsSegment = check_segment-none work refl refl

validate_thread_path-IsThreadPath_example :
    (validate_thread_path (codes "/main/work") ≡ none) ↔ IsThreadPath (codes "/main/work")
validate_thread_path-IsThreadPath_example = validate_thread_path-IsThreadPath (codes "/main/work")

parent_of_work : parent_path (codes "/main/work") ≡ codes "/main"
parent_of_work = parent_path-join (main_text ∷ []) work work-IsSegment

abbrev message : Message
message = record {
  id = 0;
  reply_to = 0;
  source = codes "/work";
  destination = codes "/main";
  type = codes "ping";
  payload = codes "hello";
  expects_reply = false;
}

run-fifo_example :
    (run empty_mailbox (posts message ∷ waits ∷ posts message ∷ closes ∷ posts message ∷ [])).0
      ++ (run empty_mailbox
          (posts message ∷ waits ∷ posts message ∷ closes ∷ posts message ∷ [])).1.messages
    ≡ message ∷ message ∷ []
run-fifo_example =
    run-fifo empty_mailbox (posts message ∷ waits ∷ posts message ∷ closes ∷ posts message ∷ [])

-- A request to /main is in the map and posted, runs into its deadline, and is then resolved.
abbrev waiting : System
waiting = step (step (step idle (call (requests message 5))) (go_on 0)) (go_on 0)

abbrev expiring : System
expiring = step waiting (call (expires 1))

abbrev expired : System
expired = step expiring (go_on 0)

waiting-Reach : Reach waiting
waiting-Reach = move (move (move start (call (requests message 5))) (go_on 0)) (go_on 0)

expiring-Reach : Reach expiring
expiring-Reach = move waiting-Reach (call (expires 1))

abbrev open_state : PendingReplyState
open_state = record {
  id = 1;
  destination = codes "/main";
  deadline = 5;
  terminal = false;
  reply = default_reply;
}

abbrev late : ThreadReply
late = make_terminal timeout 1 (codes "/main") request_timed_out

abbrev expired_state : PendingReplyState
expired_state = record open_state { terminal = true; reply = late }

expired_at : get_elem? expired.tree.states 0 ≡ some expired_state
unfolding step init request advance enter_pending lookup text_eq emplace
expired_at = refl

waiting_at : get_elem? waiting.tree.states 0 ≡ some open_state
unfolding step init request advance enter_pending lookup text_eq emplace
waiting_at = refl

expiring_at : get_elem? expiring.tree.states 0 ≡ some open_state
unfolding step init request advance enter_pending lookup text_eq emplace
expiring_at = refl

waiting_idle : waiting.tasks ≡ []
unfolding step init request advance enter_pending lookup text_eq emplace
waiting_idle = refl

expiring_task : get_elem? expiring.tasks 0 ≡ some (resolve_with 0 late)
unfolding step init request advance enter_pending lookup text_eq emplace
expiring_task = refl

waiting_small : length waiting.tree.states < 2 ^ 64
unfolding step init request advance enter_pending lookup text_eq emplace
waiting_small = omega arith

expiring_small : length expiring.tree.states < 2 ^ 64
unfolding step init request advance enter_pending lookup text_eq emplace
expiring_small = omega arith

expiring_one : 0 < length expiring.tree.states
unfolding step init request advance enter_pending lookup text_eq emplace
expiring_one = omega arith

step-terminal_example : get_elem? (step expired (call shuts)).tree.states 0 ≡ some expired_state
step-terminal_example = step-terminal expired (call shuts) 0 expired_state expired_at refl

waiting-Inv : Inv waiting.tree waiting.tasks
waiting-Inv = Reach-Inv waiting-Reach waiting_small

Reach-once_example :
    in_pending 0 expiring.tree.pending + in_tasks 0 expiring.tasks + resolved 0 expiring.tree.states
    ≡ 1
Reach-once_example = Reach-once expiring-Reach expiring_small 0 expiring_one

Reach-resolves_example :
    (state : PendingReplyState) × (get_elem? expiring.tree.states 0 ≡ some state)
    × (state.terminal ≡ false)
    × (get_elem? (step expiring (go_on 0)).tree.states 0
        ≡ some (record state { terminal = true; reply = late }))
Reach-resolves_example = Reach-resolves expiring-Reach expiring_small 0 0 late expiring_task

Reach-settled_example : (open_state.terminal ≡ true) ⊎ (lookup 1 waiting.tree.pending ≡ some 0)
Reach-settled_example =
    Reach-settled waiting-Reach waiting_small waiting_idle 0 open_state waiting_at

poll-settled_example : (poll (some 0) 9 waiting.tree).1 ≡ (
    if open_state.terminal
    then some open_state.reply
    else if ltb 9 open_state.deadline
    then none
    else some late)
poll-settled_example =
    poll-settled 0 9 open_state waiting-Reach waiting_small waiting_idle waiting_at

poll_races_example :
    ((poll (some 0) 9 expiring.tree) ≡ (expiring.tree, some default_reply))
    × ((wait_round (some 0) 9 9 expiring.tree) ≡ (expiring.tree, returns (some default_reply)))
    × (default_reply.status ≡ Reply.ok)
poll_races_example =
    poll_races 0 0 9 late open_state expiring-Reach expiring_small expiring_task expiring_at
      (omega arith)

abbrev main_node : ThreadNode
main_node = new_node (codes "/main")

main_named : lookup message.destination init.names ≡ some 0
unfolding init lookup text_eq
main_named = refl

main_there : get_elem? init.nodes 0 ≡ some main_node
unfolding init
main_there = refl

init_small : length init.states + 1 < 2 ^ 64
unfolding init
init_small = omega arith

idle_small : length idle.tree.states < 2 ^ 64
unfolding init
idle_small = omega arith

request_answered_example :
    let (a, tasks, h) = request message 5 init in
    let b = finish tasks a in
    let c = finish (wait_on 0 ∷ []) b in
    (front 0 b ≡ some (record message { id = init.next_id; expects_reply = true }))
    × ((poll (some h) 9 (
          deliver_all
            (reply
              (codes "pong")
              (codes "text")
              (taken (record message { id = init.next_id; expects_reply = true }))).2
            c)).1
        ≡ some (record {
          status = Reply.ok;
          request_id = init.next_id;
          source = codes "/main";
          type = codes "text";
          payload = codes "pong";
          error = [];
        }))
request_answered_example =
    request_answered init (Reach-Inv start idle_small) init_small message 5 0 main_node main_named
      main_there refl 9 (codes "pong") (codes "text")

abbrev asked : Message
asked = record message { id = 7; expects_reply = true }

life-once_example :
    (length (life (taken asked) (moves ∷ rejects (codes "busy") ∷ replies [] [] ∷ [])) ≤ 1)
    × All (Answers asked) (life (taken asked) (moves ∷ rejects (codes "busy") ∷ replies [] [] ∷ []))
life-once_example = life-once (taken asked) (moves ∷ rejects (codes "busy") ∷ replies [] [] ∷ [])

life-answers_example : life (taken asked) (moves ∷ []) ≡ first_answer asked (moves ∷ []) ∷ []
life-answers_example = life-answers asked (moves ∷ []) refl tt

abbrev worker : ScriptThread
worker = new_thread (codes "/main/work")

interrupt_subtree_iff_example :
    (thread : ScriptThread) × (get_elem? (interrupt_subtree (codes "/main") (worker ∷ [])) 0
      ≡ some thread)
    × (thread.path ≡ codes "/main/work")
    × ((thread.cancelled ≡ true) ↔ (
        (worker.cancelled ≡ true)
        ⊎ ((u : Text) × (us : List Text) × (main_text ∷ work ∷ [] ≡ (main_text ∷ []) ++ u ∷ us))))
interrupt_subtree_iff_example =
    interrupt_subtree_iff (main_text ∷ []) (main_text ∷ work ∷ []) (worker ∷ []) 0 worker
      (main-IsSegment, tt) (main-IsSegment, (work-IsSegment, tt)) refl refl

abbrev options : ScriptThreadOptions
options = record {
  path = codes "/main/work";
  script = [];
  source = codes "run()";
  report_exit_to_parent = true;
  on_failure = isolate;
}

abbrev no_resource : Text → Result Text Text
no_resource name = err name

abbrev before : Threads
before = record { tree = init; scripts = [] }

abbrev after : Threads
after = record {
  tree = record init {
    nodes = main_node ∷ new_node (codes "/main/work") ∷ [];
    names = (codes "/main", 0) ∷ (codes "/main/work", 1) ∷ [];
  };
  scripts = worker ∷ [];
}

abbrev runtime : Result Text (Unit {0})
runtime = ok tt

spawned : spawn no_resource runtime options before ≡ ok (after, codes "run()")
unfolding spawn init validate_thread_path text_eq lookup emplace
spawned = refl

spawn-Outcome_example :
    Outcome no_resource runtime options before (spawn no_resource runtime options before)
spawn-Outcome_example = spawn-Outcome no_resource runtime options before

taken_path : spawn no_resource runtime options after ≡ err path_exists
unfolding spawn init validate_thread_path text_eq lookup emplace
taken_path = refl
