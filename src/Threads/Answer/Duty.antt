-- ===== src/Threads/Answer/Duty.antt =====
-- A request is answered at most once, and unless it is deferred exactly once.
use winglib.Base.{◌≤◌, ◌≡◌, refl, true, List, [], ◌∷◌, arith, length, All, if◌then◌else◌, codes}
use winglib.Threads.Mailbox.{Message}
use winglib.Threads.Reply.{ThreadReply, ok, rejected, make_terminal}
use winglib.Threads.Answer.{
  ThreadRequest, Op, replies, rejects, defers, moves, taken, life, request_dropped,
}

-- An answer to a message goes out under the message's id and names its destination.
pub record Answers (message : Message) (answer : ThreadReply) : Type 0 where
  pub same_id : answer.request_id ≡ message.id
  pub same_source : answer.source ≡ message.destination

-- After an answer nothing follows.
resolved-silent : (r : ThreadRequest) (ops : List Op) → r.resolved ≡ true → life r ops ≡ []
unfolding life
resolved-silent r [] e = ground arith
resolved-silent r (replies payload type ∷ ops) e = ground (arith, resolved-silent r ops e)
resolved-silent r (rejects error ∷ ops) e = ground (arith, resolved-silent r ops e)
resolved-silent r (defers ∷ ops) e = resolved-silent _ ops e
resolved-silent r (moves ∷ ops) e = ground (arith, resolved-silent r ops e)

-- Whatever the receiver does with a request, at most one answer goes out, none if the message
-- expects none, and an answer carries the message's id and names its destination.
pub life-once :
    (r : ThreadRequest) (ops : List Op)
    → (length (life r ops) ≤ (if r.message.expects_reply then 1 else 0))
      × All (Answers r.message) (life r ops)
unfolding life make_terminal
life-once r [] = (ground arith, ground arith)
life-once r (replies payload type ∷ ops) =
    let rest = life-once r ops in
    let silent = resolved-silent (record r { resolved = true }) ops refl in
    (ground (arith, rest, silent), ground (arith, rest, silent))
life-once r (rejects error ∷ ops) =
    let rest = life-once r ops in
    let silent = resolved-silent (record r { resolved = true }) ops refl in
    (ground (arith, rest, silent), ground (arith, rest, silent))
life-once r (defers ∷ ops) = life-once (record r { deferred = true }) ops
life-once r (moves ∷ ops) = life-once r ops

abbrev pub NoDefer : List Op → Type 0
NoDefer [] = Unit {0}
NoDefer (defers ∷ ops) = ⊥
NoDefer (op ∷ ops) = NoDefer ops

-- The answer that the message gets: the first that its receiver gives, or else the rejection of a
-- request that was dropped.
unfoldable pub first_answer : Message → List Op → ThreadReply
first_answer message [] = record {
  status = rejected;
  request_id = message.id;
  source = message.destination;
  type = [];
  payload = [];
  error = codes "request_dropped";
}
first_answer message (replies payload type ∷ ops) = record {
  status = ok;
  request_id = message.id;
  source = message.destination;
  type = type;
  payload = payload;
  error = [];
}
first_answer message (rejects error ∷ ops) = record {
  status = rejected;
  request_id = message.id;
  source = message.destination;
  type = [];
  payload = [];
  error = error;
}
first_answer message (defers ∷ ops) = first_answer message ops
first_answer message (moves ∷ ops) = first_answer message ops

-- A message that expects an answer gets exactly one, if its receiver never defers it: the first
-- that the receiver gives, a reply or a rejection, or else, when the request is destroyed, a
-- rejection with the code request_dropped; each under the message's id and with its destination for
-- the source.
pub life-answers :
    (message : Message) (ops : List Op)
    → message.expects_reply ≡ true
    → NoDefer ops
    → life (taken message) ops ≡ first_answer message ops ∷ []
unfolding life make_terminal first_answer request_dropped
life-answers message [] e n = rw (e) refl
life-answers message (replies payload type ∷ ops) e n =
    let silent = resolved-silent (record (taken message) { resolved = true }) ops refl in
    ground (arith, e, silent)
life-answers message (rejects error ∷ ops) e n =
    let silent = resolved-silent (record (taken message) { resolved = true }) ops refl in
    ground (arith, e, silent)
life-answers message (defers ∷ ops) e n = absurd n
life-answers message (moves ∷ ops) e n = life-answers message ops e n
