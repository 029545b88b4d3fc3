-- ===== src/Threads/Script/Subtree.antt =====
-- Which threads a failed thread takes down with it.
use winglib.Base.{
  ℕ, zero, suc, ◌≡◌, ◌≢◌, ◌↔◌, refl, ap, sym, ◌∙◌, ◌⊎◌, inl, inr, true, false, List, [], ◌∷◌, ◌++◌,
  some, arith, Text, get_elem?, text_Eq, map, starts_with, starts_with_iff, All, contains_char,
  append_assoc, append-nil, Bool-cases,
}
use mathlib.Core.Option
use winglib.Threads.Path.Segments.{IsSegment, join}
use winglib.Threads.Script.{ScriptThread, interrupt, interrupt_subtree}

-- The text before the first slash is determined.
same_head :
    (s t a b : Text)
    → contains_char b'/' s ≡ false
    → contains_char b'/' t ≡ false
    → s ++ b'/' ∷ a ≡ t ++ b'/' ∷ b
    → (s ≡ t) × (a ≡ b)
unfolding contains_char
same_head [] [] a b hs ht e = (refl, cc)
same_head [] (d ∷ t) a b hs ht e = ground arith
same_head (c ∷ s) [] a b hs ht e = ground arith
same_head (c ∷ s) (d ∷ t) a b hs ht e =
    let rest : s ++ b'/' ∷ a ≡ t ++ b'/' ∷ b = cc in
    let q = same_head s t a b (ground arith) (ground arith) rest in (cc (q.0, e), q.1)

no_slash_here : (s t a : Text) → contains_char b'/' t ≡ false → t ≢ s ++ b'/' ∷ a
unfolding contains_char
no_slash_here [] [] a h e = cc
no_slash_here [] (d ∷ t) a h e = ground arith
no_slash_here (c ∷ s) [] a h e = cc
no_slash_here (c ∷ s) (d ∷ t) a h e = no_slash_here s t a (ground arith) (cc)

slash_first : (ss : List Text) (r : Text) → (x : Text) × (join ss ++ b'/' ∷ r ≡ b'/' ∷ x)
slash_first [] r = (r, refl)
slash_first (s ∷ ss) r = ((s ++ join ss) ++ b'/' ∷ r, refl)

below :
    (ss ts : List Text)
    → All IsSegment ss
    → All IsSegment ts
    → (r : Text) → join ts ≡ join ss ++ b'/' ∷ r
    → (u : Text) × (us : List Text) × (ts ≡ ss ++ u ∷ us)
below [] [] g h r e = cc
below [] (t ∷ ts) g h r e = (t, ts, refl)
below (s ∷ ss) [] g h r e = cc
below (s ∷ ss) (t ∷ []) g h r e =
    let (x, q) = slash_first ss r in
    absurd (
      no_slash_here s t x h.0.no_slash
        (cc (e, q, append_assoc s (join ss) (b'/' ∷ r), append-nil t)))
below (s ∷ ss) (t ∷ t' ∷ ts) g h r e =
    let (x, q) = slash_first ss r in
    let (p, z) =
      same_head s t x (t' ++ join ts) g.0.no_slash h.0.no_slash
        (cc (e, q, append_assoc s (join ss) (b'/' ∷ r))) in
    let (u, us, w) = below ss (t' ∷ ts) g.1 h.1 r (cc (z, q)) in (u, us, cc (p, w))

join-append : (ss ts : List Text) → join (ss ++ ts) ≡ join ss ++ join ts
join-append [] ts = refl
join-append (s ∷ ss) ts = rw (join-append ss ts, append_assoc)

-- "path/" begins another path exactly if that path goes on below it.
starts_with-below :
    (ss ts : List Text)
    → All IsSegment ss
    → All IsSegment ts
    → (starts_with (join ss ++ b'/' ∷ []) (join ts) ≡ true)
      ↔ ((u : Text) × (us : List Text) × (ts ≡ ss ++ u ∷ us))
starts_with-below ss ts g h = (
  (λ e.
      let (r, q) = (starts_with_iff (join ss ++ b'/' ∷ []) (join ts)).0 e in
      below ss ts g h r (q ∙ append_assoc (join ss) (b'/' ∷ []) r)),
  (λ (u, us, q). (starts_with_iff (join ss ++ b'/' ∷ []) (join ts)).1 (
    u ++ join us,
    ap join q ∙ join-append ss (u ∷ us) ∙ sym (append_assoc (join ss) (b'/' ∷ []) (u ++ join us)),
  )),
)

get_elem?-map {ℓ κ} :
    {A : Type ℓ} {B : Type κ} (f : A → B) (xs : List A) (i : ℕ) (a : A)
    → get_elem? xs i ≡ some a
    → get_elem? (map f xs) i ≡ some (f a)
get_elem?-map f [] i a e = cc
get_elem?-map f (x ∷ xs) zero a e = ap (Option.map f) e
get_elem?-map f (x ∷ xs) (suc i) a e = get_elem?-map f xs i a e

-- interruptSubtree asks the threads below a path to stop, and no other: a thread at path `ts` is
-- cancelled afterwards exactly if it was before or `ts` goes on below `ss`. (So the failed thread
-- itself, its siblings, and a thread whose name only begins with the same letters are left alone.)
pub interrupt_subtree_iff :
    (ss ts : List Text) (threads : List ScriptThread) (i : ℕ) (thread : ScriptThread)
    → All IsSegment ss
    → All IsSegment ts
    → get_elem? threads i ≡ some thread
    → thread.path ≡ join ts
    → (thread' : ScriptThread) × (get_elem? (interrupt_subtree (join ss) threads) i ≡ some thread')
      × (thread'.path ≡ thread.path)
      × ((thread'.cancelled ≡ true)
          ↔ ((thread.cancelled ≡ true) ⊎ ((u : Text) × (us : List Text) × (ts ≡ ss ++ u ∷ us))))
unfolding interrupt_subtree
interrupt_subtree_iff ss ts threads i thread g h e q =
    let test = starts_with-below ss ts g h in
    elim (Bool-cases (starts_with (join ss ++ b'/' ∷ []) thread.path)) [
      | inl hit ↦ (
        interrupt thread,
        get_elem?-map _ threads i thread e ∙ rw hit refl,
        refl,
        ((λ _. inr (test.0 (rw (← q) hit))), λ _. refl),
      )
      | inr miss ↦ (
        thread,
        get_elem?-map _ threads i thread e ∙ rw miss refl,
        refl,
        ((λ c. inl c), (λ d. elim d [ inl c ↦ c | inr w ↦ cc (test.1 w, miss, q) ])),
      )
    ]
