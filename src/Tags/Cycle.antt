-- ===== src/Tags/Cycle.antt =====
-- naf/tags.c: adding a tag, and then fetching or removing it.
use timps.Prelude.{
  ℕ, ◌≤◌, ◌≡◌, ◌⊎◌, inl, inr, refl, sym, ◌∙◌, ap, true, false, Bool-cases, Option-cases, Option,
  none, some, List, [], ◌∷◌, ==_refl, length, take, take_all, bytes_eq_refl, bytes_eq_sound, arith,
}
use mathlib.Core.Path.{subst}
use timps.Tags.{
  Data, Tag, max_name, tag_size, owns, present, is_empty, ispresent, unlink, remove, fetch_from,
  fetch, add,
}

-- No owner has two tags of one name.
abbrev pub IsUnique : List Tag → Type 0
IsUnique [] = Unit
IsUnique (tag ∷ tags) = (present tags tag.owner tag.name ≡ false) × IsUnique tags

owns_self :
    (who : ℕ) (name : List ℕ) (type : ℕ) (content : Data)
    → owns who name (record { owner = who; name = name; type = type; content = content }) ≡ true
unfolding owns
owns_self who name type content = ground (arith, ==_refl who, bytes_eq_refl name)

-- Adding either changes nothing, or puts one tag in front, whose owner had none of that name.
pub add_cases :
    (malloc : ℕ → Option (List ℕ)) (tags : List Tag) (who : Option ℕ) (name : List ℕ) (type : ℕ)
    (content : Data)
    → (add malloc tags who name type content ≡ (false, tags))
      ⊎ ((m : ℕ) × (who ≡ some m)
          × (is_empty name ≡ false)
          × (present tags m name ≡ false)
          × (add malloc tags who name type content ≡ (
            true,
            record { owner = m; name = take max_name name; type = type; content = content } ∷ tags,
          )))
unfolding add ispresent
add_cases malloc tags none name type content = inl refl
add_cases malloc tags (some m) name type content = elim (Bool-cases (is_empty name)) [
  | inl nameless ↦ inl (ground (arith, nameless))
  | inr named ↦ elim (Bool-cases (present tags m name)) [
    | inl old ↦ inl (ground (arith, named, old))
    | inr new ↦ elim (Option-cases (malloc tag_size)) [
      | inl e ↦ inl (ground (arith, named, new, e))
      | inr (b, e) ↦ inr (m, refl, named, new, ground (arith, named, new, e))
    ]
  ]
]

-- A tag with a name of at most 64 bytes that was just added is present, is fetched with its type
-- and data, and removing it gives these back and the list as it was.
pub remove-add :
    (malloc : ℕ → Option (List ℕ)) (tags tags' : List Tag) (m : ℕ) (name : List ℕ) (type : ℕ)
    (content : Data)
    → length name ≤ 64
    → add malloc tags (some m) name type content ≡ (true, tags')
    → (ispresent tags' (some m) name ≡ some true)
      × (fetch tags' (some m) name ≡ some (type, content))
      × (remove tags' (some m) name ≡ (some (type, content), tags))
unfolding ispresent present fetch fetch_from remove unlink owns
remove-add malloc tags tags' m name type content short e =
    elim (add_cases malloc tags (some m) name type content) [
      | inl same ↦ absurd (ground (arith, e, same))
      | inr (m', em, named, new, e') ↦
          let cut : take max_name name ≡ name = take_all name 64 short in
          ground (arith, e, em, named, e', cut, ==_refl m, bytes_eq_refl name)
    ]

present-unlink :
    (tags : List Tag) (m : ℕ) (name : List ℕ) (m' : ℕ) (name' : List ℕ)
    → present tags m' name' ≡ false
    → present (unlink tags m name).1 m' name' ≡ false
unfolding present unlink
present-unlink [] m name m' name' h = refl
present-unlink (tag ∷ tags) m name m' name' h =
    ground (arith, present-unlink tags m name m' name' (ground (arith, h)))

owns-eq :
    (m : ℕ) (name : List ℕ) (tag : Tag)
    → owns m name tag ≡ true
    → (tag.owner ≡ m) × (tag.name ≡ name)
unfolding owns
owns-eq m name tag h = (ground (arith, h), bytes_eq_sound tag.name name (ground (arith, h)))

gone :
    (ts : List Tag) (m : ℕ) (name : List ℕ)
    → IsUnique ts
    → present (unlink ts m name).1 m name ≡ false
unfolding present unlink
gone [] m name u = refl
gone (tag ∷ ts) m name (fresh, u) = elim (Bool-cases (owns m name tag)) [
  | inl here ↦
      let (eo, en) = owns-eq m name tag here in
      rw here (ap (λ k. present ts k name) (sym eo) ∙ ap (present ts tag.owner) (sym en) ∙ fresh)
  | inr there ↦ rw (there, there) (gone ts m name u)
]

unlink-IsUnique :
    (ts : List Tag) (m : ℕ) (name : List ℕ) → IsUnique ts → IsUnique (unlink ts m name).1
unfolding unlink
unlink-IsUnique [] m name u = tt
unlink-IsUnique (tag ∷ ts) m name (fresh, u) = elim (Bool-cases (owns m name tag)) [
  | inl here ↦ rw here u
  | inr there ↦
      rw there (present-unlink ts m name tag.owner tag.name fresh, unlink-IsUnique ts m name u)
]

-- In a list where no owner has two tags of one name, a tag is not present after it was removed,
-- and the list is still such a list.
pub remove_once :
    (tags : List Tag) (m : ℕ) (name : List ℕ)
    → IsUnique tags
    → is_empty name ≡ false
    → (ispresent (remove tags (some m) name).1 (some m) name ≡ some false)
      × IsUnique (remove tags (some m) name).1
unfolding remove ispresent
remove_once tags m name u named = (
  ground (arith, named, gone tags m name u),
  subst IsUnique (ground (arith, named)) (unlink-IsUnique tags m name u),
)

-- Adding under a name of at most 64 bytes to a list where no owner has two tags of one name
-- leaves such a list.
pub add-IsUnique :
    (malloc : ℕ → Option (List ℕ)) (tags : List Tag) (who : Option ℕ) (name : List ℕ) (type : ℕ)
    (content : Data)
    → length name ≤ 64
    → IsUnique tags
    → IsUnique (add malloc tags who name type content).1
add-IsUnique malloc tags who name type content short u =
    elim (add_cases malloc tags who name type content) [
      | inl same ↦ subst IsUnique (sym (ap (λ r. r.1) same)) u
      | inr (m, _, _, new, e) ↦
          let cut : take max_name name ≡ name = take_all name 64 short in
          subst IsUnique (sym (ap (λ r. r.1) e)) (ap (present tags m) cut ∙ new, u)
    ]
