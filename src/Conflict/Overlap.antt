-- ===== src/Conflict/Overlap.antt =====
-- Which files conflict in src/bridge/conflict.py.
use codearts_bridge.Prelude.{
  String, ◌≡◌, ◌↔◌, refl, sym, ap, ◌∙◌, inl, inr, Bool, true, ◌&&◌, ◌||◌, List, [], ◌∷◌, ◌==◌,
  eq_iff, eq_refl, arith, keep, mem, Bool-cases,
}
use codearts_bridge.Prelude.Sort.{sort, insert}
use codearts_bridge.Scheduler.Matcher.{distinct}
use codearts_bridge.Conflict.{by_text, is_some_file, overlapping, compare_files}

module _ (le : String → String → Bool) where
  mem-insert : (s x : String) (ys : List String) → mem s (insert le x ys) ≡ (s == x || mem s ys)
  unfolding mem insert
  mem-insert s x [] = ground arith
  mem-insert s x (y ∷ ys) = ground (arith, mem-insert s x ys)

  mem-sort : (s : String) (xs : List String) → mem s (sort le xs) ≡ mem s xs
  unfolding mem sort
  mem-sort s [] = refl
  mem-sort s (x ∷ xs) = mem-insert s x (sort le xs) ∙ ground (arith, mem-sort s xs)

mem-keep :
    (test : String → Bool) (s : String) (xs : List String)
    → mem s (keep test xs) ≡ (mem s xs && test s)
unfolding mem keep
mem-keep test s [] = refl
mem-keep test s (x ∷ xs) = elim (Bool-cases (s == x)) [
  | inl e ↦
      let same : test x ≡ test s = ap test (sym ((eq_iff s x).0 e)) in
      ground (arith, mem-keep test s xs)
  | inr e ↦ ground (arith, mem-keep test s xs)
]

mem-distinct : (s : String) (xs : List String) → mem s (distinct xs) ≡ mem s xs
unfolding mem distinct
mem-distinct s [] = refl
mem-distinct s (x ∷ xs) = elim (Bool-cases (s == x)) [
  | inl e ↦
      let same : mem x xs ≡ mem s xs = ap (λ t. mem t xs) (sym ((eq_iff s x).0 e)) in
      ground (arith, mem-distinct s xs)
  | inr e ↦ ground (arith, mem-distinct s xs)
]

mem-overlapping :
    (f : String) (task_files main_files : List String)
    → mem f (overlapping task_files main_files) ≡ (mem f task_files && mem f main_files)
unfolding overlapping
mem-overlapping f task_files main_files =
    mem-keep (λ g. mem g main_files) f (distinct task_files)
    ∙ ap (λ b. b && mem f main_files) (mem-distinct f task_files)

some_file :
    (files : List String) → (is_some_file files ≡ true) ↔ ((f : String) × (mem f files ≡ true))
unfolding mem
some_file [] = (λ h. cc, λ (f, h). cc)
some_file (f ∷ fs) = (λ h. let e = eq_refl f in (f, rw e refl), λ h. refl)

-- A file is reported exactly where both the task and main changed it, and there is a conflict exactly
-- where there is such a file.
pub compare_files_exact :
    (task_id : String) (task_files main_files : List String)
    → ((f : String)
        → mem f (compare_files task_id task_files main_files).conflicting_files
          ≡ (mem f task_files && mem f main_files))
      × (((compare_files task_id task_files main_files).conflict ≡ true)
          ↔ ((f : String) × ((mem f task_files && mem f main_files) ≡ true)))
unfolding compare_files
compare_files_exact task_id task_files main_files =
    let both = overlapping task_files main_files in
    (
      λ f. mem-sort by_text f both ∙ mem-overlapping f task_files main_files,
      (
        λ h.
            let (f, m) = (some_file both).0 h in
            (f, sym (mem-overlapping f task_files main_files) ∙ m),
        λ (f, m). (some_file both).1 (f, mem-overlapping f task_files main_files ∙ m),
      ),
    )
