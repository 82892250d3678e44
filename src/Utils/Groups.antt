-- ===== src/Utils/Groups.antt =====
-- The groups that `groupBy` makes.
use next_dbm.Base.{
  ◌≡◌, refl, ap, ◌∙◌, sym, Bool, true, false, List, [], ◌∷◌, ◌++◌, Text, text_eq, text_eq_iff,
  if◌then◌else◌, Option, none, some, get_key, append_assoc, append-nil, arith, Bool-cases, inl, inr,
}
use next_dbm.Utils.Defs.{push_group, group_from, group_by}

module _ {A : Type 0} where
  abbrev pub members : Option (List A) → List A
  members none = []
  members (some group) = group

  abbrev pub chosen_by : (A → Text) → Text → List A → List A
  chosen_by fn key [] = []
  chosen_by fn key (x ∷ list) =
      let rest = chosen_by fn key list in if text_eq (fn x) key then x ∷ rest else rest

  members-push_group :
      (key k : Text) (x : A) (groups : List (Text × List A))
      → members (get_key key (push_group k x groups))
        ≡ members (get_key key groups) ++ (if text_eq k key then x ∷ [] else [])
  unfolding push_group
  members-push_group key k x [] = ground arith
  members-push_group key k x ((k', group) ∷ groups) = elim (Bool-cases (text_eq k' k)) [
    | inl e ↦
        let same : text_eq k key ≡ text_eq k' key =
          ap (λ w. text_eq w key) (sym ((text_eq_iff k' k).0 e)) in
        rw (e, same) (grown (text_eq k' key))
    | inr e ↦ elim (Bool-cases (text_eq k' key)) [
      | inl d ↦
          let other : text_eq k key ≡ false =
            ground (arith, e, d, text_eq_iff k' k, text_eq_iff k' key, text_eq_iff k key) in
          rw (e, d, other) (sym (append-nil group))
      | inr d ↦ rw (e, d) (members-push_group key k x groups)
    ]
  ]
    where
      grown :
          (b : Bool)
          → members (if b then some (group ++ (x ∷ [])) else get_key key groups)
            ≡ members (if b then some group else get_key key groups) ++ (if b then x ∷ [] else [])
      grown true = refl
      grown false = sym (append-nil (members (get_key key groups)))

  members-group_from :
      (fn : A → Text) (key : Text) (groups : List (Text × List A)) (list : List A)
      → members (get_key key (group_from fn groups list))
        ≡ members (get_key key groups) ++ chosen_by fn key list
  unfolding group_from
  members-group_from fn key groups [] = sym (append-nil (members (get_key key groups)))
  members-group_from fn key groups (x ∷ list) =
      members-group_from fn key (push_group (fn x) x groups) list
      ∙ ap (λ w. w ++ chosen_by fn key list) (members-push_group key (fn x) x groups)
      ∙ append_assoc (members (get_key key groups)) (if text_eq (fn x) key then x ∷ [] else [])
          (chosen_by fn key list)
      ∙ ap (members (get_key key groups) ++◌) (one_more (text_eq (fn x) key))
    where
      one_more :
          (b : Bool)
          → (if b then x ∷ [] else []) ++ chosen_by fn key list
            ≡ (if b then x ∷ chosen_by fn key list else chosen_by fn key list)
      one_more true = refl
      one_more false = refl

  -- The group of a key holds exactly the elements whose key it is, in the order of the list.
  pub members-group_by :
      (fn : A → Text) (key : Text) (list : List A)
      → members (get_key key (group_by list fn)) ≡ chosen_by fn key list
  members-group_by fn key list = members-group_from fn key [] list
