-- ===== src/Tags/Long.antt =====
-- naf/tags.c: names of more than 64 bytes, which naf_tag_add cuts and no other function does.
use timps.Prelude.{
  ℕ, ◌<◌, ◌≤◌, ◌≡◌, inl, inr, refl, ap, true, false, Bool-cases, Option, none, some, List, [], ◌∷◌,
  length, take, bytes_eq, bytes_eq_sound, arith, All, length-take,
}
use timps.Tags.{
  Data, Tag, max_name, tag_size, owns, present, is_empty, ispresent, fetch_from, fetch, add,
}

-- Every name fits into the array of its tag.
abbrev pub IsShort : List Tag → Type 0
IsShort tags = All (λ (tag : Tag). length tag.name ≤ 64) tags

differ : (xs ys : List ℕ) → length xs ≤ 64 → 64 < length ys → bytes_eq xs ys ≡ false
differ xs ys h l = elim (Bool-cases (bytes_eq xs ys)) [
  | inl e ↦ absurd (omega (arith, ap length (bytes_eq_sound xs ys e)))
  | inr e ↦ e
]

present_long :
    (tags : List Tag) (m : ℕ) (name : List ℕ)
    → IsShort tags
    → 64 < length name
    → present tags m name ≡ false
unfolding present owns
present_long [] m name u l = refl
present_long (tag ∷ tags) m name (here, u) l =
    ground (arith, differ tag.name name here l, present_long tags m name u l)

fetch_long :
    (tags : List Tag) (who : Option ℕ) (name : List ℕ)
    → IsShort tags
    → 64 < length name
    → fetch_from tags who name ≡ none
unfolding fetch_from
fetch_long [] who name u l = refl
fetch_long (tag ∷ tags) who name (here, u) l =
    ground (arith, differ tag.name name here l, fetch_long tags who name u l)

-- Adding under a name of more than 64 bytes succeeds, if the tag's memory is granted, in every
-- list whose names have at most 64 bytes, and leaves such a list, in which that name is not
-- present and is not fetched.
pub add_long :
    (malloc : ℕ → Option (List ℕ)) (tags : List Tag) (m : ℕ) (name : List ℕ) (type : ℕ)
    (content : Data) (block : List ℕ)
    → IsShort tags
    → 64 < length name
    → malloc tag_size ≡ some block
    → (tags' : List Tag) × (add malloc tags (some m) name type content ≡ (true, tags'))
      × IsShort tags'
      × (ispresent tags' (some m) name ≡ some false)
      × (fetch tags' (some m) name ≡ none)
unfolding add ispresent fetch
add_long malloc tags m name type content block u l e =
    let tag : Tag = record {
      owner = m;
      name = take max_name name;
      type = type;
      content = content;
    } in
    let named : is_empty name ≡ false = not_empty name l in
    let short : IsShort (tag ∷ tags) = (omega (arith, length-take 64 name), u) in
    (
      tag ∷ tags,
      ground (arith, named, present_long tags m name u l, e),
      short,
      ground (arith, named, present_long (tag ∷ tags) m name short l),
      ground (arith, named, fetch_long (tag ∷ tags) (some m) name short l),
    )
  where
    not_empty : (xs : List ℕ) → 64 < length xs → is_empty xs ≡ false
    not_empty [] h = absurd (omega arith)
    not_empty (x ∷ xs) h = refl
