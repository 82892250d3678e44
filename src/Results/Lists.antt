-- ===== src/Results/Lists.antt =====
-- The list of results of one tab.
use next_dbm.Base.{
  ℕ, ◌≡◌, refl, ap, ◌∙◌, sym, true, false, List, [], ◌∷◌, ◌++◌, ◌==◌, ==_iff, ==_refl, subst,
  if◌then◌else◌, Option, none, some, arith, Bool-cases, inl, inr,
}
use next_dbm.Tabs.Defs.{QueryResult}
use next_dbm.Results.Defs.{TableAnswer, success_result, fail_result, put_result, editor_results}

unfoldable pub find_result : ℕ → List QueryResult → Option QueryResult
find_result k [] = none
find_result k (item ∷ results) =
    let rest = find_result k results in if item.key == k then some item else rest

abbrev pub Distinct : List QueryResult → Type 0
Distinct [] = Unit
Distinct (item ∷ results) = (find_result item.key results ≡ none) × Distinct results

find_result-put_result :
    (k : ℕ) (r : QueryResult) (results : List QueryResult)
    → find_result k (put_result r results) ≡ (if r.key == k then some r else find_result k results)
unfolding find_result put_result
find_result-put_result k r [] = refl
find_result-put_result k r (item ∷ results) = ground (arith, find_result-put_result k r results)

put_result-Distinct :
    (r : QueryResult) (results : List QueryResult)
    → Distinct results
    → Distinct (put_result r results)
unfolding find_result put_result
put_result-Distinct r [] d = (refl, tt)
put_result-Distinct r (item ∷ results) (new, d) = elim (Bool-cases (item.key == r.key)) [
  | inl e ↦
      let same : item.key ≡ r.key = (==_iff item.key r.key).0 e in
      rw e (ap (λ k. find_result k results) (sym same) ∙ new, d)
  | inr e ↦ rw e (
    ground (arith, e, new, find_result-put_result item.key r results),
    put_result-Distinct r results d,
  )
]

-- A query that succeeds, where the keys of the results are distinct: its result is the one found under its
-- key, every other key is found as before, and the keys stay distinct.
pub editor_results-find_result :
    (a : TableAnswer) (k : ℕ) (results : List QueryResult)
    → a.success ≡ true
    → Distinct results
    → (find_result k (editor_results a results)
        ≡ (if a.new_tab_index == k then some (success_result a) else find_result k results))
      × Distinct (editor_results a results)
unfolding editor_results success_result
editor_results-find_result a k results ok d = (
  rw ok (find_result-put_result k (success_result a) results),
  rw ok (put_result-Distinct (success_result a) results d),
)

find_result-append :
    (k : ℕ) (results : List QueryResult) (r found : QueryResult)
    → find_result k results ≡ some found
    → find_result k (results ++ (r ∷ [])) ≡ some found
unfolding find_result
find_result-append k [] r found h = cc
find_result-append k (item ∷ results) r found h =
    ground (arith, find_result-append k results r found)

find_result-last :
    (r : QueryResult) (results : List QueryResult)
    → (x : QueryResult) × (find_result r.key (results ++ (r ∷ [])) ≡ some x)
unfolding find_result
find_result-last r [] = (r, ap (λ b. if b then some r else none) (==_refl r.key))
find_result-last r (item ∷ results) = elim (Bool-cases (item.key == r.key)) [
  | inl e ↦ (item, rw e refl)
  | inr e ↦ let (x, h) = find_result-last r results in (x, rw e h)
]

repeated :
    (r found : QueryResult) (results : List QueryResult)
    → find_result r.key results ≡ some found
    → ¬ Distinct (results ++ (r ∷ []))
unfolding find_result
repeated r found [] h d = cc h
repeated r found (item ∷ results) h (new, d) = elim (Bool-cases (item.key == r.key)) [
  | inl e ↦
      let same : item.key ≡ r.key = (==_iff item.key r.key).0 e in
      let (x, last) = find_result-last r results in
      cc (ap (λ k. find_result k (results ++ (r ∷ []))) same, new, last)
  | inr e ↦
      repeated r found results
        (sym (ap (λ b. if b then some item else find_result r.key results) e) ∙ h) d
]

-- A query that fails under a key that has a result already: the old result stays the one that is found
-- under the key, and the keys are no longer distinct.
pub editor_results-fail :
    (a : TableAnswer) (results : List QueryResult) (found : QueryResult)
    → a.success ≡ false
    → find_result a.new_tab_index results ≡ some found
    → (find_result a.new_tab_index (editor_results a results) ≡ some found)
      × ¬ Distinct (editor_results a results)
unfolding editor_results fail_result
editor_results-fail a results found bad h =
    let pushed : editor_results a results ≡ results ++ (fail_result a ∷ []) =
      ap (λ b. if b then put_result (success_result a) results else results ++ (fail_result a ∷ []))
        bad in
    (
      ap (find_result a.new_tab_index) pushed
          ∙ find_result-append a.new_tab_index results (fail_result a) found h,
      λ d. repeated (fail_result a) found results h (subst Distinct pushed d),
    )
