-- ===== src/Threads/Mailbox/Order.antt =====
-- A mailbox delivers each accepted message once, in the order of posting.
use winglib.Base.{◌≡◌, ap, Bool, true, false, List, [], ◌∷◌, ◌++◌, append-nil, append_assoc, ◌∙◌}
use winglib.Threads.Mailbox.{Message, Mailbox, Op, posts, waits, closes, run}

-- The messages that are posted before the first close.
abbrev pub accepted : Bool → List Op → List Message
accepted true ops = []
accepted false [] = []
accepted false (posts m ∷ ops) = m ∷ accepted false ops
accepted false (waits ∷ ops) = accepted false ops
accepted false (closes ∷ ops) = []

abbrev Fifo : Mailbox → List Op → Type 0
Fifo box ops = (run box ops).0 ++ (run box ops).1.messages ≡ box.messages ++ accepted box.closed ops

abbrev box_of : List Message → Bool → Mailbox
box_of ms b = record { messages = ms; closed = b }

run-Fifo_of : (ms : List Message) (b : Bool) (ops : List Op) → Fifo (box_of ms b) ops
unfolding run
run-Fifo_of ms true [] = rw append-nil
run-Fifo_of ms false [] = rw append-nil
run-Fifo_of ms true (posts m ∷ ops) = run-Fifo_of ms true ops
run-Fifo_of ms false (posts m ∷ ops) =
    run-Fifo_of (ms ++ m ∷ []) false ops ∙ append_assoc ms (m ∷ []) (accepted false ops)
run-Fifo_of [] true (waits ∷ ops) = run-Fifo_of [] true ops
run-Fifo_of [] false (waits ∷ ops) = run-Fifo_of [] false ops
run-Fifo_of (m ∷ ms) true (waits ∷ ops) = ap (λ x. m ∷ x) (run-Fifo_of ms true ops)
run-Fifo_of (m ∷ ms) false (waits ∷ ops) = ap (λ x. m ∷ x) (run-Fifo_of ms false ops)
run-Fifo_of ms true (closes ∷ ops) = run-Fifo_of ms true ops
run-Fifo_of ms false (closes ∷ ops) = run-Fifo_of ms true ops

-- What the waits returned, followed by what still waits, is what was there at the start followed
-- by what was posted before the mailbox was closed: nothing is lost, doubled or reordered, and a
-- closed mailbox still hands out what it holds and accepts nothing.
pub run-fifo :
    (box : Mailbox) (ops : List Op)
    → (run box ops).0 ++ (run box ops).1.messages ≡ box.messages ++ accepted box.closed ops
run-fifo box ops = run-Fifo_of box.messages box.closed ops
