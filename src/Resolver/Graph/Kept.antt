-- ===== src/Resolver/Graph/Kept.antt =====
-- What visit leaves as it is: a module is loaded once, and what is being visited stays so.
pub mod Same
use winglib.Base.{
  text_eq_swap, ℕ, zero, suc, ◌≡◌, refl, subst, ap, sym, ◌∙◌, inl, inr, Bool, true, false, ◌&&◌,
  ◌||◌, not, List, [], ◌∷◌, ◌++◌, Option, some, arith, Text, text_eq, text_eq_iff, text_eq_refl,
  text_Eq, member, member-append, keep, lookup, if◌then◌else◌, ltb, Bool-cases, Option-cases,
}
use winglib.Resolver.Choice.{
  Requirement, ModuleProvider, Resolver, diagnose, diagnose_shadowed, choose_from, choose_among,
  choose, candidates, identity_ok, version_ok, source_rank, shadow_key, dependency_cycle,
}
use winglib.Resolver.Graph.{select, each_dependency, enter, leave, visit, is_required}
use winglib.Resolver.Graph.Kept.Same.{
  Good, Kept, Kept-trans, Same-Kept, Same-refl, Same-trans, choose-Same, distinct, select-Same,
}

distinct-snoc :
    (xs : List Text) (x : Text) → distinct (xs ++ x ∷ []) ≡ (distinct xs && not (member x xs))
unfolding distinct member
distinct-snoc [] x = refl
distinct-snoc (y ∷ ys) x = elim (Bool-cases (text_eq y x)) [
  | inl e ↦
      rw (member-append y ys (x ∷ []), distinct-snoc ys x, member)
        (ground (arith, e, ap (λ z. text_eq x z) ((text_eq_iff y x).0 e) ∙ text_eq_refl x))
  | inr e ↦
      rw (member-append y ys (x ∷ []), distinct-snoc ys x, member)
        (ground (arith, e, text_eq_swap y x e))
]

member-keep :
    (n name : Text) (xs : List Text)
    → text_eq n name ≡ false
    → member n (keep (λ m. not (text_eq m name)) xs) ≡ member n xs
unfolding member
member-keep n name [] e = refl
member-keep n name (x ∷ xs) e = elim (Bool-cases (text_eq x name)) [
  | inl q ↦ ground (
    arith,
    q,
    ap (λ z. text_eq z n) ((text_eq_iff x name).0 q),
    text_eq_swap n name e,
    member-keep n name xs e,
  )
  | inr q ↦ ground (arith, q, member-keep n name xs e)
]

absent_ne :
    (n name : Text) (xs : List Text)
    → member n xs ≡ true
    → member name xs ≡ false
    → text_eq name n ≡ false
absent_ne n name xs h g = elim (Bool-cases (text_eq name n)) [
  | inl e ↦ cc (h, ap (λ z. member z xs) ((text_eq_iff name n).0 e), g)
  | inr e ↦ e
]

pub enter-Kept : (name : Text) (r r' : Resolver) → Kept (enter name r) r' → Kept r r'
unfolding member
enter-Kept name r r' k = record {
  good = λ g. k.good (record { once = g.once; names = g.names });
  stays = λ n h. k.stays n (ground (arith, h));
  frozen = λ n h. k.frozen n (ground (arith, h));
  grows = k.grows;
}

pub leave-Kept :
    (name : Text) (r r' : Resolver)
    → member name r.visited ≡ false
    → member name r.visiting ≡ false
    → Kept (enter name r) r'
    → Kept r (leave name r')
unfolding member
leave-Kept name r r' new free k =
    let e = enter-Kept name r r' k in
    let here : member name (name ∷ r.visiting) ≡ true = ground (arith, text_eq_refl name) in
    let unseen : member name r'.visited ≡ false = k.frozen name here ∙ new in
    record {
      good = λ g.
          let h = e.good g in
          record {
            once = rw (distinct-snoc r'.order name, h.once, h.names name, unseen) refl;
            names =
                λ n. rw (member-append n r'.order (name ∷ []), h.names n, member) (ground arith);
          };
      stays = λ n h.
          member-keep n name r'.visiting (text_eq_swap name n (absent_ne n name r.visiting h free))
          ∙ e.stays n h;
      frozen = λ n h. rw (member, absent_ne n name r.visiting h free) (e.frozen n h);
      grows = λ n h. ground (arith, e.grows n h);
    }

abbrev pub answer : Resolver → Bool → Option (Resolver × Bool)
answer r b = some (r, b)

same_result : {r x r' : Resolver} {b c : Bool} → answer x b ≡ answer r' c → Kept r x → Kept r r'
same_result {r} {x} {r'} e k = subst (λ z. Kept r z) (cc e) k

pub each_dependency-Kept :
    (go : Requirement → Resolver → Option (Resolver × Bool))
    → ((d : Requirement) (r r' : Resolver) (b : Bool) → go d r ≡ some (r', b) → Kept r r')
    → (inherited : Bool) (ds : List Requirement) (r r' : Resolver) (b : Bool)
    → each_dependency go inherited ds r ≡ some (r', b)
    → Kept r r'
unfolding each_dependency
each_dependency-Kept go f inherited [] r r' b h = same_result h (Same-Kept r r (Same-refl r))
each_dependency-Kept go f inherited (d ∷ ds) r r' b h = elim (Option-cases (go d r)) [
  | inl e ↦ cc (h, e)
  | inr ((r1, done), e) ↦ elim (Bool-cases (not done && (is_required d.kind && not inherited))) [
    | inl t ↦ same_result (rw (each_dependency, e, t) at h) (f d r r1 done e)
    | inr t ↦
        Kept-trans r r1 r' (f d r r1 done e)
          (each_dependency-Kept go f inherited ds r1 r' b (rw (each_dependency, e, t) at h))
  ]
]

pub visit-Kept :
    (fuel : ℕ) (providers : List ModuleProvider) (q : Requirement) (inherited : Bool)
    (chain : List Text) (r r' : Resolver) (b : Bool)
    → visit fuel providers q inherited chain r ≡ some (r', b)
    → Kept r r'
unfolding visit diagnose
visit-Kept zero providers q inherited chain r r' b h = cc
visit-Kept (suc fuel) providers q inherited chain r r' b h =
    let must = is_required q.kind && not inherited in
    let path = chain ++ q.name ∷ [] in
    let r1 = (choose providers q path must r).0 in
    let k1 = choose-Same providers q path must r in
    let under : (r2 : Resolver) (p : ModuleProvider) (r3 : Resolver) (c : Bool)
        → each_dependency (λ d. visit fuel providers d (inherited || not (is_required q.kind)) path)
            inherited p.info.dependencies (enter p.info.name r2)
          ≡ some (r3, c)
        → Kept (enter p.info.name r2) r3 =
      λ r2 p r3 c.
        each_dependency-Kept _
          (λ d x y z.
            visit-Kept fuel providers d (inherited || not (is_required q.kind)) path x y z)
          inherited p.info.dependencies (enter p.info.name r2) r3 c in
    elim (Option-cases (choose providers q path must r).1) [
      | inl e ↦ same_result (rw (visit, e) at h) (Same-Kept r r1 k1)
      | inr (p, e) ↦
          let r2 = (select q inherited p path r1).0 in
          let k2 = Same-trans r r1 r2 k1 (select-Same q inherited p path r1) in
          elim (Bool-cases (select q inherited p path r1).1) [
            | inr f ↦ same_result (rw (visit, e, f) at h) (Same-Kept r r2 k2)
            | inl f ↦ elim (Bool-cases (member p.info.name r2.visited)) [
              | inl seen ↦ same_result (rw (visit, e, f, seen) at h) (Same-Kept r r2 k2)
              | inr new ↦ elim (Bool-cases (member p.info.name r2.visiting)) [
                | inl open_ ↦ same_result (rw (visit, e, f, new, open_) at h) (
                    Same-Kept r _ (
                      Same-trans r r2 (diagnose dependency_cycle path r2) k2
                        (record { visiting = refl; visited = refl; order = refl })))
                | inr free ↦
                    elim (Option-cases (
                      each_dependency
                        (λ d. visit fuel providers d (inherited || not (is_required q.kind)) path)
                        inherited p.info.dependencies (enter p.info.name r2))) [
                          | inl w ↦ cc (rw (visit, e, f, new, free, w) at h)
                          | inr ((r3, false), w) ↦
                              same_result (rw (visit, e, f, new, free, w) at h) (
                                Kept-trans r r2 r3 (Same-Kept r r2 k2)
                                  (enter-Kept p.info.name r2 r3 (under r2 p r3 false w)))
                          | inr ((r3, true), w) ↦
                              same_result (rw (visit, e, f, new, free, w) at h) (
                                Kept-trans r r2 (leave p.info.name r3) (Same-Kept r r2 k2)
                                  (leave-Kept p.info.name r2 r3 new free (under r2 p r3 true w)))
                        ]
              ]
            ]
          ]
    ]
