-- ===== src/Buffer/Tests.antt =====
-- Runs and instances for the model of src/core/buffer.cpp.
use winglib.Base.{◌≡◌, ◌≢◌, refl, ℕ, List, [], ◌∷◌, some, codes, set}
use winglib.Buffer.{Buffer, Op, do_copy, do_slice, do_write, run, no_buffers, read, view, write_at}
use winglib.Buffer.Programs.{run-isolated}

-- The example of buffer.h: a slice of "hello", and a write to it.
abbrev sliced : List Op
sliced = do_copy (codes "hello") ∷ do_slice 0 1 3 ∷ []

abbrev ell : Buffer
ell = record { storage = 0; offset = 1; size = 3 }

read_slice : read (run sliced no_buffers) 1 ≡ some (codes "ell")
unfolding run read
read_slice = refl

write_slice :
    read (run (do_copy (codes "hello") ∷ do_slice 0 1 3 ∷ do_write 1 0 b'E' ∷ []) no_buffers) 1
    ≡ some (codes "Ell")
unfolding run read
write_slice = refl

kept_whole :
    read (run (do_copy (codes "hello") ∷ do_slice 0 1 3 ∷ do_write 1 0 b'E' ∷ []) no_buffers) 0
    ≡ some (codes "hello")
unfolding run read
kept_whole = refl

run-isolated_example :
    (read (write_at 1 ell 0 b'E' (run sliced no_buffers)) 1
      ≡ some (set (view (run sliced no_buffers) ell) 0 b'E'))
    × ((j : ℕ)
        → 1 ≢ j
        → read (write_at 1 ell 0 b'E' (run sliced no_buffers)) j ≡ read (run sliced no_buffers) j)
unfolding run
run-isolated_example = run-isolated sliced 1 ell 0 b'E' refl
