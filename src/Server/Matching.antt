-- ===== src/Server/Matching.antt =====
-- Which location `FindBestMatch` (src/request_dispatcher.cc) chooses.
use mathlib.Core.Path.{subst}
use ucla_bathroom_ratings.Base.{
  Bool-cases, length, All, Bytes, starts_with, at_zero-find, ℕ, ◌≤◌, ◌<◌, ◌≡◌, refl, sym, ap, ◌↔◌,
  ◌⊎◌, inl, inr, true, false, Option, none, some, List, [], ◌∷◌, ◌++◌, arith,
}
use ucla_bathroom_ratings.Server.Location.{LocationConfig}
use ucla_bathroom_ratings.Server.Dispatcher.{
  best_length, is_better, best_match_from, find_best_match,
}

-- The location's path is an initial part of the URL.
abbrev pub Matches : Bytes → LocationConfig → Type 0
Matches url l = starts_with l.path url ≡ true

abbrev pub AllShorter : Bytes → ℕ → List LocationConfig → Type 0
AllShorter url n ls = All (λ k. Matches url k → length k.path < n) ls

abbrev pub AllWithin : Bytes → ℕ → List LocationConfig → Type 0
AllWithin url n ls = All (λ k. Matches url k → length k.path ≤ n) ls

-- `l` is the first of the locations with the longest matching path, and that path is not empty.
pub record IsBest (url : Bytes) (ls : List LocationConfig) (l : LocationConfig) : Type 0 where
  pub before : List LocationConfig
  pub after : List LocationConfig
  pub splits : ls ≡ before ++ (l ∷ after)
  pub matches : Matches url l
  pub not_empty : 0 < length l.path
  pub shorter : AllShorter url (length l.path) before
  pub within : AllWithin url (length l.path) after

-- What the loop finds in `ls` if it is not what it came with.
record Improves (url : Bytes) (n : ℕ) (ls : List LocationConfig) (l : LocationConfig) : Type 0 where
  best : IsBest url ls l
  longer : n < length l.path

is_better-true :
    (url : Bytes) (l : LocationConfig) (best : Option LocationConfig)
    → is_better url l best ≡ true
    → Matches url l × (best_length best < length l.path)
unfolding is_better
is_better-true url l best h = ground (arith, at_zero-find l.path url)

is_better-false :
    (url : Bytes) (l : LocationConfig) (best : Option LocationConfig)
    → is_better url l best ≡ false
    → Matches url l
    → length l.path ≤ best_length best
unfolding is_better
is_better-false url l best h m = ground (arith, at_zero-find l.path url)

cons_worse :
    (url : Bytes) (n : ℕ) (ls : List LocationConfig) (k l : LocationConfig)
    → (Matches url k → length k.path ≤ n)
    → Improves url n ls l
    → Improves url n (k ∷ ls) l
cons_worse url n ls k l h i = record {
  best = record {
    before = k ∷ i.best.before;
    after = i.best.after;
    splits = ap (◌∷◌ k) i.best.splits;
    matches = i.best.matches;
    not_empty = i.best.not_empty;
    shorter = ((λ m. let le = h m in let lt = i.longer in omega arith), i.best.shorter);
    within = i.best.within;
  };
  longer = i.longer;
}

abbrev Outcome : Bytes → Option LocationConfig → List LocationConfig → LocationConfig → Type 0
Outcome url best ls r =
    ((best ≡ some r) × AllWithin url (length r.path) ls) ⊎ Improves url (best_length best) ls r

worse-Outcome :
    (url : Bytes) (best : Option LocationConfig) (k : LocationConfig) (ls : List LocationConfig)
    (r : LocationConfig)
    → (Matches url k → length k.path ≤ best_length best)
    → Outcome url best ls r
    → Outcome url best (k ∷ ls) r
worse-Outcome url best k ls r h (inl (e, w)) = inl (e, ((λ m. rw e at (h m)), w))
worse-Outcome url best k ls r h (inr i) = inr (cons_worse url _ ls k r h i)

better-Outcome :
    (url : Bytes) (best : Option LocationConfig) (k : LocationConfig) (ls : List LocationConfig)
    (r : LocationConfig)
    → Matches url k
    → best_length best < length k.path
    → Outcome url (some k) ls r
    → Outcome url best (k ∷ ls) r
better-Outcome url best k ls r m lt (inl (e, w)) =
    let same_ : k ≡ r = cc in
    inr (
      rw (← same_) (record {
        best = record {
          before = [];
          after = ls;
          splits = refl;
          matches = m;
          not_empty = omega arith;
          shorter = tt;
          within = subst (λ (x : LocationConfig). AllWithin url (length x.path) ls) (sym same_) w;
        };
        longer = lt;
      }))
better-Outcome url best k ls r m lt (inr i) =
    let j = cons_worse url (length k.path) ls k r (λ _. omega arith) i in
    let lt' = i.longer in inr (record { best = j.best; longer = omega arith })

best_match_from-some :
    (url : Bytes) (best : Option LocationConfig) (ls : List LocationConfig) (r : LocationConfig)
    → best_match_from url best ls ≡ some r
    → Outcome url best ls r
unfolding best_match_from
best_match_from-some url best [] r e = inl (e, tt)
best_match_from-some url best (k ∷ ls) r e = elim (Bool-cases (is_better url k best)) [
  | inl better ↦
      let (m, lt) = is_better-true url k best better in
      better-Outcome url best k ls r m lt (best_match_from-some url (some k) ls r (rw better at e))
  | inr worse ↦
      worse-Outcome url best k ls r (is_better-false url k best worse)
        (best_match_from-some url best ls r (rw worse at e))
]

best_match_from-none :
    (url : Bytes) (best : Option LocationConfig) (ls : List LocationConfig)
    → best_match_from url best ls ≡ none
    → (best ≡ none) × AllWithin url 0 ls
unfolding best_match_from
best_match_from-none url best [] e = (e, tt)
best_match_from-none url best (k ∷ ls) e = elim (Bool-cases (is_better url k best)) [
  | inl better ↦
      let (absurd_, w) = best_match_from-none url (some k) ls (rw better at e) in absurd (cc)
  | inr worse ↦
      let (same_, w) = best_match_from-none url best ls (rw worse at e) in
      (same_, ((λ m. rw same_ at (is_better-false url k best worse m)), w))
]

best_match_from-all :
    (url : Bytes) (ls : List LocationConfig)
    → AllWithin url 0 ls
    → best_match_from url none ls ≡ none
unfolding best_match_from
best_match_from-all url [] h = refl
best_match_from-all url (k ∷ ls) (h, hs) = elim (Bool-cases (is_better url k none)) [
  | inl better ↦
      let (m, lt) = is_better-true url k none better in let le = h m in absurd (omega arith)
  | inr worse ↦ rw worse (best_match_from-all url ls hs)
]

-- The location that `FindBestMatch` returns is listed; its path is an initial part of the URL and
-- is not empty; no other such path in the list is longer, and none before it is as long.
pub find_best_match-IsBest :
    (url : Bytes) (ls : List LocationConfig) (l : LocationConfig)
    → find_best_match url ls ≡ some l
    → IsBest url ls l
unfolding find_best_match
find_best_match-IsBest url ls l e = elim (best_match_from-some url none ls l e) [
  | inl (impossible, w) ↦ absurd (cc)
  | inr i ↦ i.best
]

-- `FindBestMatch` returns a null pointer exactly when no location with a path that is not empty
-- matches the URL.
pub find_best_match-none_iff :
    (url : Bytes) (ls : List LocationConfig) → (find_best_match url ls ≡ none) ↔ AllWithin url 0 ls
unfolding find_best_match
find_best_match-none_iff url ls =
    ((λ e. (best_match_from-none url none ls e).1), best_match_from-all url ls)
