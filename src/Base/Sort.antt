-- ===== src/Base/Sort.antt =====
-- `std::sort` on integers.
use ucla_bathroom_ratings.Base.{if◌then◌else◌, List, [], ◌∷◌}
use ucla_bathroom_ratings.Base.Int.{ℤ, less_int}

unfoldable pub insert_sorted : ℤ → List ℤ → List ℤ
insert_sorted x [] = x ∷ []
insert_sorted x (y ∷ ys) = if less_int y x then y ∷ insert_sorted x ys else x ∷ y ∷ ys

unfoldable pub sort : List ℤ → List ℤ
unfolding insert_sorted
sort [] = []
sort (x ∷ xs) = insert_sorted x (sort xs)
