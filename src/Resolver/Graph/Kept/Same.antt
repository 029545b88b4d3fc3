-- ===== src/Resolver/Graph/Kept/Same.antt =====
-- What the choice of a provider leaves as it is: Resolver of src/core/module_resolver.cpp.
use winglib.Base.{
  ◌≡◌, refl, ap, sym, ◌∙◌, inl, inr, Bool, true, false, ◌&&◌, ◌||◌, not, List, [], ◌∷◌, Text,
  text_Eq, member, lookup, if◌then◌else◌, ltb, Bool-cases, Option-cases,
}
use winglib.Resolver.Choice.{
  Requirement, ModuleProvider, Resolver, diagnose, diagnose_shadowed, choose_from, choose_among,
  choose, candidates, identity_ok, version_ok, source_rank, shadow_key,
}
use winglib.Resolver.Graph.{select}

unfoldable pub distinct : List Text → Bool
distinct [] = true
distinct (x ∷ xs) = not (member x xs) && distinct xs

-- The same names, in the same places.
pub record Same (r r' : Resolver) : Type 0 where
  pub visiting : r'.visiting ≡ r.visiting
  pub visited : r'.visited ≡ r.visited
  pub order : r'.order ≡ r.order

-- The names of the order are those of the visited modules, each once.
pub record Good (r : Resolver) : Type 0 where
  pub once : distinct r.order ≡ true
  pub names : (n : Text) → member n r.order ≡ member n r.visited

pub record Kept (r r' : Resolver) : Type 0 where
  pub good : Good r → Good r'
  pub stays : (n : Text) → member n r.visiting ≡ true → member n r'.visiting ≡ true
  pub frozen : (n : Text) → member n r.visiting ≡ true → member n r'.visited ≡ member n r.visited
  pub grows : (n : Text) → member n r.visited ≡ true → member n r'.visited ≡ true

pub Same-refl : (r : Resolver) → Same r r
Same-refl r = record { visiting = refl; visited = refl; order = refl }

pub Same-trans : (r r' r'' : Resolver) → Same r r' → Same r' r'' → Same r r''
Same-trans r r' r'' s t = record {
  visiting = t.visiting ∙ s.visiting;
  visited = t.visited ∙ s.visited;
  order = t.order ∙ s.order;
}

pub Same-Kept : (r r' : Resolver) → Same r r' → Kept r r'
Same-Kept r r' s = record {
  good = λ g. record {
    once = ap distinct s.order ∙ g.once;
    names = λ n. ap (member n) s.order ∙ g.names n ∙ ap (member n) (sym s.visited);
  };
  stays = λ n h. ap (member n) s.visiting ∙ h;
  frozen = λ n h. ap (member n) s.visited;
  grows = λ n h. ap (member n) s.visited ∙ h;
}

pub Kept-trans : (r r' r'' : Resolver) → Kept r r' → Kept r' r'' → Kept r r''
Kept-trans r r' r'' s t = record {
  good = λ g. t.good (s.good g);
  stays = λ n h. t.stays n (s.stays n h);
  frozen = λ n h. t.frozen n (s.stays n h) ∙ s.frozen n h;
  grows = λ n h. t.grows n (s.grows n h);
}

Same-if : (b : Bool) (r x y : Resolver) → Same r x → Same r y → Same r (if b then x else y)
Same-if true r x y s t = s
Same-if false r x y s t = t

diagnose_shadowed-Same :
    (name : Text) (p : ModuleProvider) (chain : List Text) (others : List ModuleProvider)
    (r : Resolver)
    → Same r (diagnose_shadowed name p chain others r)
unfolding diagnose_shadowed diagnose
diagnose_shadowed-Same name p chain [] r = Same-refl r
diagnose_shadowed-Same name p chain (o ∷ os) r =
    Same-trans r _ _
      (Same-if
        (ltb (source_rank p.source) (source_rank o.source)
          && not (member (shadow_key name p o) r.shadow_keys))
        r _ r (record { visiting = refl; visited = refl; order = refl }) (Same-refl r))
      (diagnose_shadowed-Same name p chain os _)

choose_from-Same :
    (q : Requirement) (chain : List Text) (must : Bool) (all ps : List ModuleProvider)
    (identity version : Bool) (r : Resolver)
    → Same r (choose_from q chain must all ps identity version r).0
unfolding choose_from diagnose
choose_from-Same q chain must all [] identity version r = record {
  visiting = refl;
  visited = refl;
  order = refl;
}
choose_from-Same q chain must all (p ∷ ps) identity version r =
    elim (Bool-cases (identity_ok q p.info)) [
      | inl e ↦ elim (Bool-cases (version_ok q p.info)) [
        | inl f ↦ rw (choose_from, e, f) (diagnose_shadowed-Same q.name p chain all r)
        | inr f ↦ rw (choose_from, e, f) (choose_from-Same q chain must all ps identity true r)
      ]
      | inr e ↦ rw (choose_from, e) (choose_from-Same q chain must all ps true version r)
    ]

pub choose-Same :
    (providers : List ModuleProvider) (q : Requirement) (chain : List Text) (must : Bool)
    (r : Resolver)
    → Same r (choose providers q chain must r).0
unfolding choose diagnose
choose-Same providers q chain must r = go (candidates providers q.name)
  where
    go : (ps : List ModuleProvider) → Same r (choose_among q chain must ps r).0
    go [] = record { visiting = refl; visited = refl; order = refl }
    go (p ∷ ps) = choose_from-Same q chain must (p ∷ ps) (p ∷ ps) false false r

pub select-Same :
    (q : Requirement) (inherited : Bool) (p : ModuleProvider) (chain : List Text) (r : Resolver)
    → Same r (select q inherited p chain r).0
unfolding select diagnose
select-Same q inherited p chain r = elim (Option-cases (lookup p.info.name r.selected)) [
  | inl e ↦ rw (select, e) (record { visiting = refl; visited = refl; order = refl })
  | inr (old, e) ↦
      elim (Bool-cases
        (not (identity_ok q old.provider.info) || not (version_ok q old.provider.info))) [
          | inl f ↦ rw (select, e, f) (record { visiting = refl; visited = refl; order = refl })
          | inr f ↦ rw (select, e, f) (Same-refl r)
        ]
]
