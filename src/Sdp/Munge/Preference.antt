-- ===== src/Sdp/Munge/Preference.antt =====
-- The order that reorderPayloads of modules/wl2_sdp/src/sdp.cpp gives the formats.
use winglib.Base.{
  ◌≡◌, refl, sym, ap, ◌∙◌, ℕ, Bool, true, false, not, ◌&&◌, ◌||◌, List, [], ◌∷◌, ◌++◌, map,
  append-nil, append_assoc, Text, text_eq, text_eq_iff, arith, Bool-cases, inl, inr, keep, member,
  member-append, text_Eq,
}
use winglib.Sdp.Lines.{Media}
use winglib.Sdp.Numbers.{to_string}
use winglib.Sdp.Munge.{pick_wanted, pick_missing, reorder_payloads}

-- Each text at its first place only.
unfoldable pub first_occurrences : List Text → List Text
first_occurrences [] = []
first_occurrences (x ∷ xs) = x ∷ keep (λ y. not (text_eq x y)) (first_occurrences xs)

-- The formats that the order names, as it names them.
unfoldable pub wanted : List Text → List ℕ → List Text
wanted formats order = keep (λ w. member w formats) (map to_string order)

pick_wanted-missing :
    (formats : List Text) (order : List ℕ) (result : List Text)
    → pick_wanted formats order result ≡ pick_missing (wanted formats order) result
unfolding pick_wanted pick_missing wanted
pick_wanted-missing formats [] result = refl
pick_wanted-missing formats (pt ∷ order) result =
    elim (Bool-cases (member (to_string pt) formats)) [
      | inl e ↦ elim (Bool-cases (member (to_string pt) result)) [
        | inl f ↦ rw (e, pick_missing, f) (pick_wanted-missing formats order result)
        | inr f ↦
            rw (e, pick_missing, f)
              (pick_wanted-missing formats order (result ++ to_string pt ∷ []))
      ]
      | inr e ↦ rw (e) (pick_wanted-missing formats order result)
    ]

pick_missing-append :
    (xs ys result : List Text)
    → pick_missing (xs ++ ys) result ≡ pick_missing ys (pick_missing xs result)
unfolding pick_missing
pick_missing-append [] ys result = refl
pick_missing-append (x ∷ xs) ys result = pick_missing-append xs ys _

keep-keep :
    (p q r : Text → Bool) (xs : List Text)
    → ((x : Text) → r x ≡ (p x && q x))
    → keep p (keep q xs) ≡ keep r xs
keep-keep p q r [] h = refl
keep-keep p q r (x ∷ xs) h = ground (arith, h x, keep-keep p q r xs h)

keep-member_snoc :
    (x : Text) (result xs : List Text)
    → member x result ≡ false
    → keep (λ y. not (member y result)) (keep (λ y. not (text_eq x y)) xs)
      ≡ keep (λ y. not (member y (result ++ x ∷ []))) xs
unfolding member
keep-member_snoc x result xs h =
    keep-keep _ _ _ xs (λ y. ground (arith, member-append y result (x ∷ [])))

-- A text that `result` has already adds nothing.
keep-drop :
    (x : Text) (result xs : List Text)
    → member x result ≡ true
    → keep (λ y. not (member y result)) (keep (λ y. not (text_eq x y)) xs)
      ≡ keep (λ y. not (member y result)) xs
keep-drop x result xs h = keep-keep _ _ _ xs (λ y. elim (Bool-cases (text_eq x y)) [
  | inl e ↦ ground (arith, e, h, ap (λ t. member t result) ((text_eq_iff x y).0 e))
  | inr e ↦ ground (arith, e)
])

pick_missing-occurrences :
    (xs result : List Text)
    → pick_missing xs result ≡ result ++ keep (λ y. not (member y result)) (first_occurrences xs)
unfolding pick_missing first_occurrences
pick_missing-occurrences [] result = sym (append-nil result)
pick_missing-occurrences (x ∷ xs) result = elim (Bool-cases (member x result)) [
  | inl e ↦
      rw (pick_missing, e, keep-drop x result (first_occurrences xs) e)
        (pick_missing-occurrences xs result)
  | inr e ↦
      rw
        (
          pick_missing,
          e,
          pick_missing-occurrences xs (result ++ x ∷ []),
          append_assoc result (x ∷ []) _,
          keep-member_snoc x result (first_occurrences xs) e,
        )
        refl
]

keep-all : (xs : List Text) → keep (λ y. true) xs ≡ xs
keep-all [] = refl
keep-all (x ∷ xs) = ap (λ t. x ∷ t) (keep-all xs)

member-keep_ne :
    (f x : Text) (xs : List Text)
    → text_eq x f ≡ false
    → member f (keep (λ y. not (text_eq x y)) xs) ≡ member f xs
unfolding member
member-keep_ne f x [] h = refl
member-keep_ne f x (y ∷ xs) h = elim (Bool-cases (text_eq x y)) [
  | inl e ↦
      let n : text_eq y f ≡ false = ap (λ t. text_eq t f) (sym ((text_eq_iff x y).0 e)) ∙ h in
      rw (e) (member-keep_ne f x xs h ∙ ap (λ b. b || member f xs) (sym n))
  | inr e ↦ rw (e) (ap (λ b. text_eq y f || b) (member-keep_ne f x xs h))
]

member-first_occurrences :
    (f : Text) (xs : List Text) → member f (first_occurrences xs) ≡ member f xs
unfolding member first_occurrences
member-first_occurrences f [] = refl
member-first_occurrences f (x ∷ xs) = elim (Bool-cases (text_eq x f)) [
  | inl e ↦ rw (e) refl
  | inr e ↦ rw (e) (member-keep_ne f x (first_occurrences xs) e ∙ member-first_occurrences f xs)
]

member-keep :
    (f : Text) (p : Text → Bool) (xs : List Text) → member f (keep p xs) ≡ true → p f ≡ true
unfolding member
member-keep f p [] h = cc
member-keep f p (x ∷ xs) h = elim (Bool-cases (p x)) [
  | inl e ↦ elim (Bool-cases (text_eq x f)) [
    | inl g ↦ ap p (sym ((text_eq_iff x f).0 g)) ∙ e
    | inr g ↦ member-keep f p xs (rw (e, member, g) at h)
  ]
  | inr e ↦ member-keep f p xs (rw (e) at h)
]

member-wanted :
    (f : Text) (formats : List Text) (order : List ℕ)
    → (member f (wanted formats order) || member f formats) ≡ member f formats
unfolding wanted
member-wanted f formats order = elim (Bool-cases (member f (wanted formats order))) [
  | inl e ↦ rw (e) (sym (member-keep f (λ w. member w formats) (map to_string order) e))
  | inr e ↦ rw (e) refl
]

-- reorderPayloads: the formats become the wanted ones that the section has, in the wanted order, and
-- behind them the section's own formats, each of all these at its first place only, and the result
-- has just the formats that there were.
pub reorder_payloads-formats :
    (m : Media) (order : List ℕ)
    → ((reorder_payloads m order).formats ≡ first_occurrences (wanted m.formats order ++ m.formats))
      × ((f : Text) → member f (reorder_payloads m order).formats ≡ member f m.formats)
unfolding reorder_payloads member
reorder_payloads-formats m order =
    let all = wanted m.formats order ++ m.formats in
    let e : (reorder_payloads m order).formats ≡ first_occurrences all =
      ap (pick_missing m.formats) (pick_wanted-missing m.formats order [])
      ∙ sym (pick_missing-append (wanted m.formats order) m.formats [])
      ∙ pick_missing-occurrences all []
      ∙ keep-all (first_occurrences all) in
    (
      e,
      λ f.
          ap (member f) e
          ∙ member-first_occurrences f all
          ∙ member-append f (wanted m.formats order) m.formats
          ∙ member-wanted f m.formats order,
    )
