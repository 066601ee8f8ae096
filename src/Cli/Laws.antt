-- ===== src/Cli/Laws.antt =====
-- What `echo` answers.
use ex2_services.Base.{
  ℕ, suc, ◌≡◌, refl, ap, ◌∙◌, Option, none, some, List, [], ◌∷◌, ◌++◌, map, length,
}
use ex2_services.Cli.{prv_echo_command, echo_parameter, answers, answer_more}

-- The command string has these parameters, the first of them with number `n`, and no more.
unfoldable pub Has : (ℕ → Option (List ℕ)) → ℕ → List (List ℕ) → Type 0
Has get_parameter n [] = get_parameter n ≡ none
Has get_parameter n (p ∷ ps) = (get_parameter n ≡ some p) × Has get_parameter (suc n) ps

abbrev pub spaced : List ℕ → List ℕ
spaced p = p ++ 32 ∷ []

answers-parameter :
    (fuel n : ℕ) (get_parameter : ℕ → Option (List ℕ)) (p : List ℕ)
    → get_parameter (suc n) ≡ some p
    → answers (suc fuel) get_parameter (suc n)
      ≡ answer_more (spaced p) (answers fuel get_parameter (suc (suc n)))
unfolding answers prv_echo_command echo_parameter
answers-parameter fuel n get_parameter p this = rw this refl

answers-end :
    (fuel n : ℕ) (get_parameter : ℕ → Option (List ℕ))
    → get_parameter (suc n) ≡ none
    → answers (suc fuel) get_parameter (suc n) ≡ some ((13 ∷ 10 ∷ []) ∷ [], 0)
unfolding answers prv_echo_command echo_parameter
answers-end fuel n get_parameter this = rw this refl

answers-first :
    (fuel : ℕ) (get_parameter : ℕ → Option (List ℕ))
    → answers (suc fuel) get_parameter 0 ≡ answer_more [] (answers fuel get_parameter 1)
unfolding answers prv_echo_command
answers-first fuel get_parameter = refl

answers_from :
    (get_parameter : ℕ → Option (List ℕ)) (n : ℕ) (ps : List (List ℕ))
    → Has get_parameter (suc n) ps
    → answers (suc (length ps)) get_parameter (suc n)
      ≡ some (map spaced ps ++ (13 ∷ 10 ∷ []) ∷ [], 0)
unfolding Has answer_more
answers_from get_parameter n [] has = answers-end 0 n get_parameter has
answers_from get_parameter n (p ∷ ps) (this, rest) =
    answers-parameter (suc (length ps)) n get_parameter p this
    ∙ ap (answer_more (spaced p)) (answers_from get_parameter (suc n) ps rest)

-- `echo` with any number of parameters ends after two calls more than these are. It answers nothing,
-- then each parameter with a space behind it, in order, then the end of the line; and it is ready
-- for the next command.
pub echo_answers :
    (get_parameter : ℕ → Option (List ℕ)) (ps : List (List ℕ))
    → Has get_parameter 1 ps
    → answers (suc (suc (length ps))) get_parameter 0
      ≡ some ([] ∷ (map spaced ps ++ (13 ∷ 10 ∷ []) ∷ []), 0)
unfolding answer_more
echo_answers get_parameter ps has =
    answers-first (suc (length ps)) get_parameter
    ∙ ap (answer_more []) (answers_from get_parameter 0 ps has)
