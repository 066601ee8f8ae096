-- ===== src/Cli/Listing.antt =====
-- What `ls` and `stat` answer.
use ex2_services.Base.{
  ℕ, zero, suc, ◌≡◌, ◌∙◌, refl, ap, Bool, true, false, Option, none, some, List, [], ◌∷◌, ◌++◌, map,
  length, if◌then◌else◌,
}
use ex2_services.Cli.Files.{
  Volume, Listing, at_first, reading, Output, line, empty_line, next_entry, first_entry,
  prv_ls_command,
}

unfoldable pub more_output :
    Output → Option (List Output × Listing) → Option (List Output × Listing)
more_output text none = none
more_output text (some (texts, s)) = some (text ∷ texts, s)

module _ {W : Type 0} (fs : Volume W) where
  -- What follows a call of `ls`: the texts, and the statics behind the last.
  unfoldable pub ls_more :
      (Listing → W → Option (List Output × Listing))
      → Bool × Output × Listing × W
      → Option (List Output × Listing)
  ls_more later (more, text, s, w) =
      if more then more_output text (later s w) else some (text ∷ [], s)

  -- The calls of `ls` that the loop of `cli_app` makes until nothing is to follow; `none` where the
  -- fuel runs out.
  unfoldable pub ls_answers : ℕ → Listing → W → Option (List Output × Listing)
  unfolding ls_more
  ls_answers zero s w = none
  ls_answers (suc fuel) s w = ls_more (ls_answers fuel) (prv_ls_command fs s w)

  -- An open directory has these entries left, and then no error.
  unfoldable pub HasEntries : ℕ → List (List ℕ) → W → Type 0
  HasEntries dir [] w =
      let (entry, w₁) = fs.readdir dir (fs.clear_errno w) in (entry ≡ none) × (fs.errno w₁ ≡ 0)
  HasEntries dir (name ∷ names) w =
      let (entry, w₁) = fs.readdir dir (fs.clear_errno w) in
      (entry ≡ some name) × HasEntries dir names w₁

  entry_there :
      (dir : ℕ) (name : List ℕ) (w : W)
      → (fs.readdir dir (fs.clear_errno w)).0 ≡ some name
      → next_entry fs dir w ≡ (true, line name, reading dir, (fs.readdir dir (fs.clear_errno w)).1)
  unfolding next_entry
  entry_there dir name w this = rw (this, next_entry) refl

  no_entry :
      (dir : ℕ) (w : W)
      → let (entry, w₁) = fs.readdir dir (fs.clear_errno w) in
        entry ≡ none
        → fs.errno w₁ ≡ 0
        → next_entry fs dir w ≡ (false, empty_line, at_first, fs.closedir dir w₁)
  unfolding next_entry
  no_entry dir w end fine = rw (end, fine, next_entry) refl

  listed_from :
      (dir : ℕ) (names : List (List ℕ)) (w : W)
      → HasEntries dir names w
      → ls_more (ls_answers (length names)) (next_entry fs dir w)
        ≡ some (map line names ++ empty_line ∷ [], at_first)
  unfolding ls_answers HasEntries prv_ls_command more_output ls_more
  listed_from dir [] w (end, fine) = ap (ls_more (ls_answers 0)) (no_entry dir w end fine)
  listed_from dir (name ∷ names) w (this, rest) =
      ap (ls_more (ls_answers (suc (length names)))) (entry_there dir name w this)
      ∙ ap (more_output (line name)) (listed_from dir names _ rest)

  -- In a working directory that can be opened, `ls` ends after one call more than there are entries.
  -- It answers each entry, in order, and an empty line, and is ready for the next command.
  pub ls_lists :
      (name : List ℕ) (dir : ℕ) (names : List (List ℕ)) (w : W)
      → let (cwd, w₁) = fs.getcwd (fs.clear_errno w) in
        let (opened, w₂) = fs.opendir name w₁ in
        cwd ≡ some name
        → opened ≡ some dir
        → HasEntries dir names w₂
        → ls_answers (suc (length names)) at_first w
          ≡ some (map line names ++ empty_line ∷ [], at_first)
  unfolding ls_answers prv_ls_command first_entry
  ls_lists name dir names w here opened entries =
      let w₂ : W = (fs.opendir name (fs.getcwd (fs.clear_errno w)).1).1 in
      let first : first_entry fs w ≡ next_entry fs dir w₂ = rw (here, opened, first_entry) refl in
      ap (ls_more (ls_answers (length names))) first ∙ listed_from dir names w₂ entries
