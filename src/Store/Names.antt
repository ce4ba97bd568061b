-- ===== src/Store/Names.antt =====
-- What the file names of an entity's directory stand for (src/entity_store_persistent.cc).
use ucla_bathroom_ratings.Base.{
  ◌==◌, if◌then◌else◌, Bool-cases, All, Bytes, same, same_iff, same_self, ℕ, ◌<◌, ◌≡◌, refl, sym,
  ap, ◌∙◌, ◌≢◌, ◌⊎◌, inl, inr, false, Option, none, some, [], ◌∷◌, arith,
}
use ucla_bathroom_ratings.Base.Int.{same_int, pos, negsuc}
use ucla_bathroom_ratings.Base.Map.{lookup_name}
use ucla_bathroom_ratings.Base.Decimal.{to_decimal, int_to_string}
use ucla_bathroom_ratings.Store.Validation.{parse_id}
use ucla_bathroom_ratings.Store.Identifiers.{parse_id-int_to_string}
use ucla_bathroom_ratings.Store.Persistent.{Item, Directory, ids_in, has_id, regular, other}
use ucla_bathroom_ratings.Store.Memory.{is_found}

parse_decimal : (n : ℕ) → n < 2147483648 → parse_id (to_decimal n) ≡ some (pos n)
unfolding to_decimal int_to_string
parse_decimal n h = parse_id-int_to_string n h

some_pos : (a b : ℕ) → some (pos a) ≡ some (pos b) → a ≡ b
some_pos a b e = ground arith

decimal-injective :
    (a b : ℕ) → a < 2147483648 → b < 2147483648 → to_decimal a ≡ to_decimal b → a ≡ b
decimal-injective a b h k e =
    some_pos a b (sym (parse_decimal a h) ∙ ap parse_id e ∙ parse_decimal b k)

-- Two identifiers have the same file name exactly when they are equal.
pub same-decimal :
    (a b : ℕ) → a < 2147483648 → b < 2147483648 → same (to_decimal a) (to_decimal b) ≡ (a == b)
same-decimal a b h k = elim (Bool-cases (a == b)) [
  | inl equal ↦ let e : a ≡ b = ground arith in rw (equal, e) (same_self (to_decimal b))
  | inr distinct ↦ rw distinct (elim (Bool-cases (same (to_decimal a) (to_decimal b))) [
    | inr no_ ↦ no_
    | inl equal ↦
        let e = decimal-injective a b h k ((same_iff _ _).0 equal) in absurd (ground arith)
  ])
]

-- A file of an object: a regular file with the decimal form of an `int` for its name.
pub record IsObjectFile (name : Bytes) (item : Item) : Type 0 where
  pub id : ℕ
  pub id_small : id < 2147483648
  pub named : name ≡ to_decimal id
  pub text : Bytes
  pub is_file : item ≡ regular text

-- What may stand in the directory of an entity: files of objects, and what has no identifier for
-- its name.
abbrev pub IsEntry : Bytes × Item → Type 0
IsEntry (name, item) = (parse_id name ≡ none) ⊎ IsObjectFile name item

abbrev pub AllEntries : Directory → Type 0
AllEntries d = All IsEntry d

abbrev pub text_of : Option Item → Option Bytes
text_of (some (regular text)) = some text
text_of _ = none

-- The data of one identifier.
abbrev pub text_at : Directory → ℕ → Option Bytes
text_at d n = text_of (lookup_name (to_decimal n) d)

none-ne-some-id : {A : Type 0} (a : A) → none ≢ some a
none-ne-some-id a e = cc

some-ne-none : {A : Type 0} (a : A) → some a ≢ none
some-ne-none a e = cc

-- A name without an identifier is not the name of an object.
unnamed :
    (name : Bytes) (n : ℕ)
    → n < 2147483648
    → parse_id name ≡ none
    → same name (to_decimal n) ≡ false
unnamed name n h e = elim (Bool-cases (same name (to_decimal n))) [
  | inr distinct ↦ distinct
  | inl equal ↦
      absurd
        (none-ne-some-id (pos n) (sym e ∙ ap parse_id ((same_iff _ _).0 equal) ∙ parse_decimal n h))
]

text_at-cons :
    (name : Bytes) (item : Item) (d : Directory) (n : ℕ)
    → text_at ((name, item) ∷ d) n
      ≡ (if same name (to_decimal n) then text_of (some item) else text_at d n)
unfolding lookup_name
text_at-cons name item d n = elim (Bool-cases (same name (to_decimal n))) [
  | inl h ↦ rw h
  | inr h ↦ rw h
]

pub ids_in-unnamed :
    (name : Bytes) (item : Item) (d : Directory)
    → parse_id name ≡ none
    → ids_in ((name, item) ∷ d) ≡ ids_in d
unfolding ids_in
ids_in-unnamed name (regular text) d e = rw (e, ids_in)
ids_in-unnamed name other d e = refl

pub ids_in-object :
    (name : Bytes) (item : Item) (d : Directory) (f : IsObjectFile name item)
    → ids_in ((name, item) ∷ d) ≡ pos f.id ∷ ids_in d
unfolding ids_in
ids_in-object name item d f = rw (f.is_file, f.named) (rw (parse_decimal f.id f.id_small, ids_in))

-- `ids.count(n)` is whether there is data for `n`.
pub has_id-text_at :
    (d : Directory) (n : ℕ)
    → n < 2147483648
    → AllEntries d
    → has_id (pos n) (ids_in d) ≡ is_found (text_at d n)
unfolding has_id same_int
has_id-text_at [] n h es = unfold ids_in lookup_name in refl
has_id-text_at ((name, item) ∷ d) n h (inl unread, es) =
    rw (ids_in-unnamed name item d unread, text_at-cons name item d n, unnamed name n h unread)
      (has_id-text_at d n h es)
has_id-text_at ((name, item) ∷ d) n h (inr f, es) =
    let rest = has_id-text_at d n h es in
    rw
      (
        ids_in-object name item d f,
        text_at-cons name item d n,
        f.named,
        f.is_file,
        same-decimal f.id n f.id_small h,
      )
      (ground arith)

pub negative_free : (d : Directory) (k : ℕ) → AllEntries d → has_id (negsuc k) (ids_in d) ≡ false
unfolding has_id same_int
negative_free [] k es = unfold ids_in in refl
negative_free ((name, item) ∷ d) k (inl unread, es) =
    rw (ids_in-unnamed name item d unread) (negative_free d k es)
negative_free ((name, item) ∷ d) k (inr f, es) =
    rw (ids_in-object name item d f) (negative_free d k es)

-- Where there is no data, there is no file.
pub text_at-none :
    (d : Directory) (n : ℕ)
    → n < 2147483648
    → AllEntries d
    → text_at d n ≡ none
    → lookup_name (to_decimal n) d ≡ none
unfolding lookup_name
text_at-none [] n h es e = refl
text_at-none ((name, item) ∷ d) n h (inl unread, es) e =
    rw (unnamed name n h unread)
      (text_at-none d n h es (rw (text_at-cons name item d n, unnamed name n h unread) at e))
text_at-none ((name, item) ∷ d) n h (inr f, es) e = elim (Bool-cases (same name (to_decimal n))) [
  | inr differs ↦ rw differs (text_at-none d n h es (rw (text_at-cons name item d n, differs) at e))
  | inl equal ↦
      absurd (some-ne-none f.text (rw (text_at-cons name item d n, equal, f.is_file) at e))
]
