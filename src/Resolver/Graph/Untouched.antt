-- ===== src/Resolver/Graph/Untouched.antt =====
-- How many providers a resolver can still enter.
use winglib.Base.{
  ℕ, suc, ◌≤◌, ◌<◌, ◌≡◌, refl, subst, ap, ◌∙◌, inl, inr, Bool, true, false, ◌||◌, List, [], ◌∷◌,
  some, arith, Text, text_eq, text_eq_iff, text_eq_refl, text_Eq, member, keep, all, any, all-sort,
  length, if◌then◌else◌, Bool-cases, is_empty,
}
use winglib.Resolver.Choice.{
  Requirement, ModuleProvider, Resolver, choose_from, choose_among, choose, candidates, identity_ok,
  version_ok,
}
use winglib.Resolver.Graph.{enter}
use winglib.Resolver.Graph.Kept.Same.{Kept}

-- In the map or done with.
abbrev busy : Text → Resolver → Bool
busy n r = member n r.visiting || member n r.visited

abbrev has : List ModuleProvider → Text → Bool
has ps n = any (λ p. text_eq p.info.name n) ps

-- The providers whose name is neither being visited nor visited.
unfoldable pub untouched : List ModuleProvider → Resolver → ℕ
untouched [] r = 0
untouched (p ∷ ps) r = let n = untouched ps r in if busy p.info.name r then n else suc n

pub untouched-length : (ps : List ModuleProvider) (r : Resolver) → untouched ps r ≤ length ps
unfolding untouched
untouched-length [] r = omega arith
untouched-length (p ∷ ps) r = ground (arith, untouched-length ps r)

busy-Kept : (n : Text) (r r' : Resolver) → Kept r r' → busy n r ≡ true → busy n r' ≡ true
busy-Kept n r r' k h = elim (Bool-cases (member n r.visiting)) [
  | inl e ↦ ground (arith, k.stays n e)
  | inr e ↦ ground (arith, e, h, k.grows n (ground (arith, e, h)))
]

pub untouched-Kept :
    (ps : List ModuleProvider) (r r' : Resolver) → Kept r r' → untouched ps r' ≤ untouched ps r
unfolding untouched
untouched-Kept [] r r' k = omega arith
untouched-Kept (p ∷ ps) r r' k = elim (Bool-cases (busy p.info.name r)) [
  | inl e ↦ ground (arith, e, busy-Kept p.info.name r r' k e, untouched-Kept ps r r' k)
  | inr e ↦ ground (arith, e, untouched-Kept ps r r' k)
]

untouched-enter_le :
    (ps : List ModuleProvider) (name : Text) (r : Resolver)
    → untouched ps (enter name r) ≤ untouched ps r
unfolding untouched member
untouched-enter_le [] name r = omega arith
untouched-enter_le (p ∷ ps) name r = ground (arith, untouched-enter_le ps name r)

pub untouched-enter :
    (ps : List ModuleProvider) (name : Text) (r : Resolver)
    → has ps name ≡ true
    → busy name r ≡ false
    → untouched ps (enter name r) < untouched ps r
unfolding untouched member
untouched-enter [] name r h b = cc
untouched-enter (p ∷ ps) name r h b = elim (Bool-cases (text_eq p.info.name name)) [
  | inl e ↦
      let q = (text_eq_iff p.info.name name).0 e in
      ground (
        arith,
        e,
        ap (λ n. busy n r) q ∙ b,
        ap (λ n. text_eq name n) q ∙ text_eq_refl name,
        untouched-enter_le ps name r,
      )
  | inr e ↦ ground (arith, e, h, untouched-enter ps name r (ground (arith, e, h)) b)
]

all_mono :
    (f g : ModuleProvider → Bool) (ps : List ModuleProvider)
    → ((p : ModuleProvider) → f p ≡ true → g p ≡ true)
    → all f ps ≡ true
    → all g ps ≡ true
all_mono f g [] m h = refl
all_mono f g (p ∷ ps) m h = ground (arith, h, m p, all_mono f g ps m)

all-keep :
    (f t : ModuleProvider → Bool) (ps : List ModuleProvider)
    → all f ps ≡ true
    → all f (keep t ps) ≡ true
all-keep f t [] h = refl
all-keep f t (p ∷ ps) h = ground (arith, h, all-keep f t ps)

all-has : (ps : List ModuleProvider) → all (λ p. has ps p.info.name) ps ≡ true
all-has [] = refl
all-has (p ∷ ps) =
    let rest =
      all_mono (λ x. has ps x.info.name) (λ x. has (p ∷ ps) x.info.name) ps
        (λ x e. ground (arith, e)) (all-has ps) in
    ground (arith, text_eq_refl p.info.name, rest)

all-candidates :
    (ps : List ModuleProvider) (name : Text)
    → all (λ p. has ps p.info.name) (candidates ps name) ≡ true
unfolding candidates
all-candidates ps name = elim (Bool-cases (is_empty name)) [
  | inl e ↦ rw (candidates, e) refl
  | inr e ↦
      rw (candidates, e)
        (all-sort _ (λ p. has ps p.info.name) (keep (λ p. text_eq p.info.name name) ps)
          ∙ all-keep (λ p. has ps p.info.name) (λ p. text_eq p.info.name name) ps (all-has ps))
]

choose_from-all :
    (f : ModuleProvider → Bool) (q : Requirement) (chain : List Text) (must : Bool)
    (everything ps : List ModuleProvider) (identity version : Bool) (r : Resolver)
    {p : ModuleProvider}
    → all f ps ≡ true
    → (choose_from q chain must everything ps identity version r).1 ≡ some p
    → f p ≡ true
unfolding choose_from
choose_from-all f q chain must everything [] identity version r h e = cc
choose_from-all f q chain must everything (x ∷ ps) identity version r {p} h e =
    elim (Bool-cases (identity_ok q x.info)) [
      | inl i ↦ elim (Bool-cases (version_ok q x.info)) [
        | inl v ↦
            let same : some x ≡ some p = rw (choose_from, i, v) at e in
            let here : x ≡ p = cc same in subst (λ y. f y ≡ true) here (ground (arith, h))
        | inr v ↦
            choose_from-all f q chain must everything ps identity true r (ground (arith, h))
              (rw (choose_from, i, v) at e)
      ]
      | inr i ↦
          choose_from-all f q chain must everything ps true version r (ground (arith, h))
            (rw (choose_from, i) at e)
    ]

pub choose-has :
    (ps : List ModuleProvider) (q : Requirement) (chain : List Text) (must : Bool) (r : Resolver)
    {p : ModuleProvider}
    → (choose ps q chain must r).1 ≡ some p
    → has ps p.info.name ≡ true
unfolding choose
choose-has ps q chain must r {p} e = go (candidates ps q.name) (all-candidates ps q.name) e
  where
    go :
        (cs : List ModuleProvider)
        → all (λ x. has ps x.info.name) cs ≡ true
        → (choose_among q chain must cs r).1 ≡ some p
        → has ps p.info.name ≡ true
    go [] h e = cc
    go (c ∷ cs) h e =
        choose_from-all (λ x. has ps x.info.name) q chain must (c ∷ cs) (c ∷ cs) false false r h e
