-- ===== src/Answers/Keys.antt =====
-- Keys that end with a mark: the mark is found, taken off again, and no other is found.
use next_dbm.Base.{
  ◌≡◌, refl, Bool, true, false, not, ◌&&◌, ◌||◌, [], ◌∷◌, ◌++◌, Text, drop, length, ◌==◌, arith,
}
use next_dbm.Mysql.Defs.{starts_with, includes}
use next_dbm.Answers.Defs.{remove_first}

-- Without a dash.
abbrev pub is_word : Text → Bool
is_word [] = true
is_word (x ∷ t) = not (x == 45) && is_word t

-- A word is not found across a dash.
starts_with-append :
    (w k v : Text) → is_word w ≡ true → starts_with w (k ++ (45 ∷ v)) ≡ starts_with w k
starts_with-append [] [] v h = refl
starts_with-append [] (z ∷ k) v h = refl
starts_with-append (y ∷ w) [] v h = ground arith
starts_with-append (y ∷ w) (z ∷ k) v h = ground (arith, starts_with-append w k v)

includes-word : (w v : Text) → is_word v ≡ true → includes (45 ∷ w) v ≡ false
includes-word w [] h = refl
includes-word w (x ∷ v) h = ground (arith, includes-word w v)

-- A dash and a word are found within the text before the mark, or at the mark.
pub includes-append :
    (w k v : Text)
    → is_word w ≡ true
    → is_word v ≡ true
    → includes (45 ∷ w) (k ++ (45 ∷ v)) ≡ (includes (45 ∷ w) k || starts_with w v)
includes-append w [] v h g = ground (arith, includes-word w v g)
includes-append w (x ∷ k) v h g =
    ground (arith, starts_with-append w k v h, includes-append w k v h g)

starts_with_self : (w : Text) → starts_with w w ≡ true
starts_with_self [] = refl
starts_with_self (x ∷ w) = ground (arith, starts_with_self w)

drop_self : (w : Text) → drop (length w) w ≡ []
drop_self [] = refl
drop_self (x ∷ w) = drop_self w

-- The mark at the end is the one that `replace` takes out.
pub remove_first-append :
    (k v : Text)
    → is_word v ≡ true
    → includes (45 ∷ v) k ≡ false
    → remove_first (45 ∷ v) (k ++ (45 ∷ v)) ≡ k
unfolding remove_first
remove_first-append [] v h g = rw (starts_with_self v) (drop_self v)
remove_first-append (x ∷ k) v h g =
    ground (arith, starts_with-append v k v h, remove_first-append k v h)
