-- ===== src/Sdp/Munge/Attributes.antt =====
-- The attribute edits of modules/wl2_sdp/src/sdp.cpp against its attribute views.
use winglib.Base.{
  ◌≡◌, ◌≢◌, refl, ℕ, ◌+◌, Bool, true, false, not, List, [], ◌∷◌, some, Text, text_eq, text_eq_iff,
  text_eq_refl, contains_char, split_at-append, split_at-none, if◌then◌else◌, ◌==◌, arith,
  Bool-cases, inl, inr, length, keep, drop,
}
use winglib.Sdp.Lines.{Line, split_attribute}
use winglib.Sdp.Views.{attribute_key_is, attribute_in, attributes_in}
use winglib.Sdp.Munge.{rendered, replace_or_add, set_attribute_lines, remove_attribute_lines}

text_eq-ne : (s t : Text) → s ≢ t → text_eq s t ≡ false
text_eq-ne s t n = elim (Bool-cases (text_eq s t)) [
  | inl e ↦ absurd (n ((text_eq_iff s t).0 e))
  | inr e ↦ e
]

split_attribute-rendered :
    (key value : Text) (flag : Bool)
    → contains_char b':' key ≡ false
    → split_attribute (rendered key value flag) ≡ (key, (if flag then [] else value), not flag)
unfolding split_attribute rendered
split_attribute-rendered key value true h = rw (split_attribute, split_at-none b':' key h) refl
split_attribute-rendered key value false h =
    rw (split_attribute, split_at-append b':' key value h) refl

-- Two keys of one line are equal.
key_is-key :
    (line : Line) (j k : Text)
    → attribute_key_is line j ≡ true
    → attribute_key_is line k ≡ text_eq j k
unfolding attribute_key_is
key_is-key line j k h =
    let a : line.type == b'a' ≡ true = ground arith in
    let b : text_eq (split_attribute line.value).0 j ≡ true = ground arith in
    rw (a, (text_eq_iff (split_attribute line.value).0 j).0 b) refl

key_is-type : (line : Line) (k : Text) → attribute_key_is line k ≡ true → line.type ≡ b'a'
unfolding attribute_key_is
key_is-type line k h = ground arith

module _ (key value : Text) (flag : Bool) (h : contains_char b':' key ≡ false) where
  abbrev stored : Line
  stored = record { type = b'a'; value = rendered key value flag }

  key_is-rendered :
      (type : ℕ) (k : Text)
      → type ≡ b'a'
      → attribute_key_is (record { type = type; value = rendered key value flag }) k ≡ text_eq key k
  unfolding attribute_key_is
  key_is-rendered type k e = rw (e, split_attribute-rendered key value flag h) refl

  attributes_in-replace_or_add_other :
      (lines : List Line) (k : Text)
      → text_eq key k ≡ false
      → attributes_in (replace_or_add lines key (rendered key value flag)) k ≡ attributes_in lines k
  unfolding attributes_in replace_or_add
  attributes_in-replace_or_add_other [] k n = rw (key_is-rendered b'a' k refl, n) refl
  attributes_in-replace_or_add_other (line ∷ lines) k n =
      elim (Bool-cases (attribute_key_is line key)) [
        | inl e ↦
            rw
              (
                e,
                attributes_in,
                key_is-rendered line.type k (key_is-type line key e),
                key_is-key line key k e,
                n,
              )
              refl
        | inr e ↦ rw (e, attributes_in, attributes_in-replace_or_add_other lines k n) refl
      ]

  abbrev stored_value : Text
  stored_value = if flag then [] else value

  attributes_in-replace_or_add :
      (lines : List Line)
      → attributes_in (replace_or_add lines key (rendered key value flag)) key
        ≡ stored_value ∷ drop 1 (attributes_in lines key)
  unfolding attributes_in replace_or_add
  attributes_in-replace_or_add [] =
      rw
        (key_is-rendered b'a' key refl, text_eq_refl key, split_attribute-rendered key value flag h)
        refl
  attributes_in-replace_or_add (line ∷ lines) = elim (Bool-cases (attribute_key_is line key)) [
    | inl e ↦
        rw
          (
            e,
            attributes_in,
            key_is-rendered line.type key (key_is-type line key e),
            text_eq_refl key,
            split_attribute-rendered key value flag h,
          )
          refl
    | inr e ↦ rw (e, attributes_in, e, attributes_in-replace_or_add lines) refl
  ]

  attribute_in-replace_or_add :
      (lines : List Line)
      → attribute_in (replace_or_add lines key (rendered key value flag)) key ≡ some stored_value
  unfolding attribute_in replace_or_add
  attribute_in-replace_or_add [] =
      rw
        (key_is-rendered b'a' key refl, text_eq_refl key, split_attribute-rendered key value flag h)
        refl
  attribute_in-replace_or_add (line ∷ lines) = elim (Bool-cases (attribute_key_is line key)) [
    | inl e ↦
        rw
          (
            e,
            attribute_in,
            key_is-rendered line.type key (key_is-type line key e),
            text_eq_refl key,
            split_attribute-rendered key value flag h,
          )
          refl
    | inr e ↦ rw (e, attribute_in, e, attribute_in-replace_or_add lines) refl
  ]

-- setAttribute and setFlag, on either scope: the first value under the key becomes the new one, or
-- the empty text for a flag, the later values under it stay, the key's attribute is then the new
-- value, and every other key keeps all its values, where the key has no ':' in it.
pub set_attribute_lines-attributes :
    (key value : Text) (flag : Bool) (lines : List Line)
    → contains_char b':' key ≡ false
    → (attributes_in (set_attribute_lines lines key value flag) key
        ≡ (if flag then [] else value) ∷ drop 1 (attributes_in lines key))
      × (attribute_in (set_attribute_lines lines key value flag) key
          ≡ some (if flag then [] else value))
      × ((k : Text)
          → key ≢ k
          → attributes_in (set_attribute_lines lines key value flag) k ≡ attributes_in lines k)
unfolding set_attribute_lines
set_attribute_lines-attributes key value flag lines h = (
  attributes_in-replace_or_add key value flag h lines,
  attribute_in-replace_or_add key value flag h lines,
  λ k n. attributes_in-replace_or_add_other key value flag h lines k (text_eq-ne key k n),
)

length-keep_split :
    (key : Text) (lines : List Line)
    → length (keep (λ line. not (attribute_key_is line key)) lines)
        + length (attributes_in lines key)
      ≡ length lines
unfolding attributes_in
length-keep_split key [] = omega arith
length-keep_split key (line ∷ lines) = ground (arith, length-keep_split key lines)

attributes_in-keep :
    (key : Text) (lines : List Line)
    → attributes_in (keep (λ line. not (attribute_key_is line key)) lines) key ≡ []
unfolding attributes_in
attributes_in-keep key [] = refl
attributes_in-keep key (line ∷ lines) = elim (Bool-cases (attribute_key_is line key)) [
  | inl e ↦ rw (e) (attributes_in-keep key lines)
  | inr e ↦ rw (e, attributes_in, e) (attributes_in-keep key lines)
]

attributes_in-keep_other :
    (key k : Text) (lines : List Line)
    → text_eq key k ≡ false
    → attributes_in (keep (λ line. not (attribute_key_is line key)) lines) k ≡ attributes_in lines k
unfolding attributes_in
attributes_in-keep_other key k [] n = refl
attributes_in-keep_other key k (line ∷ lines) n = elim (Bool-cases (attribute_key_is line key)) [
  | inl e ↦ rw (e, key_is-key line key k e, n) (attributes_in-keep_other key k lines n)
  | inr e ↦ rw (e, attributes_in, attributes_in-keep_other key k lines n) refl
]

-- removeAttribute, on either scope: no value is left under the key, every other key keeps all its
-- values, and the count that is returned is the number of values there were.
pub remove_attribute_lines-attributes :
    (key : Text) (lines : List Line)
    → (attributes_in (remove_attribute_lines lines key).0 key ≡ [])
      × ((k : Text)
          → key ≢ k
          → attributes_in (remove_attribute_lines lines key).0 k ≡ attributes_in lines k)
      × ((remove_attribute_lines lines key).1 ≡ length (attributes_in lines key))
unfolding remove_attribute_lines
remove_attribute_lines-attributes key lines = (
  attributes_in-keep key lines,
  λ k n. attributes_in-keep_other key k lines (text_eq-ne key k n),
  omega (arith, length-keep_split key lines),
)
