-- ===== src/Threads/Mailbox.antt =====
-- Messages and Mailbox of include/wl2/thread_tree.h and src/core/thread_tree.cpp.
pub mod Order
use winglib.Base.{
  ℕ, Bool, true, false, ◌||◌, not, List, [], ◌∷◌, ◌++◌, Option, none, some, Text, if◌then◌else◌,
  length,
}

pub record Message : Type 0 where
  pub id : ℕ
  pub reply_to : ℕ
  pub source : Text
  pub destination : Text
  pub type : Text
  pub payload : Text
  pub expects_reply : Bool

-- `messages_`, oldest first, and `closed_`.
pub record Mailbox : Type 0 where
  pub messages : List Message
  pub closed : Bool

abbrev pub empty_mailbox : Mailbox
empty_mailbox = record { messages = []; closed = false }

unfoldable pub post : Message → Mailbox → Mailbox
post message box =
    if box.closed then box else record box { messages = box.messages ++ message ∷ [] }

-- The predicate of the wait: with it the call returns at once, whatever its timeout.
unfoldable pub ready : Mailbox → Bool
ready box = box.closed || not (is_nil box.messages)
  where
    is_nil : List Message → Bool
    is_nil [] = true
    is_nil (m ∷ ms) = false

-- What `wait` does once it wakes, by its predicate or by the timeout.
unfoldable pub wait : Mailbox → Option Message × Mailbox
wait box = elim box.messages [
  | [] ↦ (none, box)
  | message ∷ rest ↦ (some message, record box { messages = rest })
]

unfoldable pub size : Mailbox → ℕ
size box = length box.messages

unfoldable pub close : Mailbox → Mailbox
close box = record box { closed = true }

-- What the threads do with a mailbox, in the order in which they take its mutex.
pub data Op : Type 0 where
  posts : Message → Op
  waits : Op
  closes : Op

-- The messages that the waits return, in order, and the mailbox at the end.
unfoldable pub run : Mailbox → List Op → List Message × Mailbox
unfolding post wait close
run box [] = ([], box)
run box (posts message ∷ ops) = run (post message box) ops
run box (closes ∷ ops) = run (close box) ops
run box (waits ∷ ops) =
    let (got, box') = wait box in
    let (out, last) = run box' ops in elim got [ none ↦ (out, last) | some m ↦ (m ∷ out, last) ]
