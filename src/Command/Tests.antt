-- ===== src/Command/Tests.antt =====
-- A command line of two words, and the theorems at it.
use package_compile_sys.Common.{ℕ, ◌≡◌, refl, List, [], ◌∷◌, none, some, arith}
use package_compile_sys.Common.Int.{pos, negsuc}
use package_compile_sys.Command.{
  split_line, argl_to_argv, dup_line, argl_dup2_argv, nul_at, strcat, join_args, argv_to_argl,
  dup_argl_cmd, cmd_length, agree, handle_in, cmd_handle,
}
use package_compile_sys.Autom.{resize}
use package_compile_sys.Command.Words.{Words, line_of}
use package_compile_sys.Command.Strings.{strings_at, split-Words}

abbrev ls : List ℕ
ls = 108 ∷ 115 ∷ []

abbrev dash_l : List ℕ
dash_l = 45 ∷ 108 ∷ []

ls-Words : Words ls (dash_l ∷ [])
ls-Words = ((refl, (refl, tt)), (refl, (refl, tt)))

argl_to_argv-ls :
    argl_to_argv (line_of ls (dash_l ∷ []) 0 (7 ∷ []))
    ≡ some (some (0 ∷ 3 ∷ [], 108 ∷ 115 ∷ 0 ∷ 45 ∷ 108 ∷ 0 ∷ 7 ∷ []))
unfolding argl_to_argv split_line
argl_to_argv-ls = refl

-- Of two blanks only the second is cut, and the first stays with the word.
argl_dup2_argv-blanks :
    argl_dup2_argv (108 ∷ 32 ∷ 32 ∷ 45 ∷ 0 ∷ []) ≡ some (some ((108 ∷ 32 ∷ []) ∷ (45 ∷ []) ∷ []))
unfolding argl_dup2_argv dup_line
argl_dup2_argv-blanks = refl

-- The copy of the command has the blank, and a byte of the next word.
dup_argl_cmd-ls : dup_argl_cmd (line_of ls (dash_l ∷ []) 0 []) ≡ some (108 ∷ 115 ∷ 32 ∷ 45 ∷ [])
unfolding dup_argl_cmd cmd_length
dup_argl_cmd-ls = refl

-- Over memory that happens to be zero the words are joined; over any other the first strcat runs out
-- of the block.
argv_to_argl-zeros :
    argv_to_argl (λ n. 0) (ls ∷ dash_l ∷ []) ≡ some (some (108 ∷ 115 ∷ 32 ∷ 45 ∷ 108 ∷ 0 ∷ 0 ∷ []))
unfolding argv_to_argl join_args strcat nul_at resize
argv_to_argl-zeros = refl

argv_to_argl-junk : argv_to_argl (λ n. 7) (ls ∷ dash_l ∷ []) ≡ none
unfolding argv_to_argl join_args strcat nul_at resize
argv_to_argl-junk = refl

-- A command is found by a prefix.
cmd_handle-prefix :
    cmd_handle ((108 ∷ 115 ∷ 117 ∷ [], pos 0) ∷ (ls, negsuc 0) ∷ []) (line_of ls [] 10 (7 ∷ []))
    ≡ some (pos 0)
unfolding cmd_handle argl_to_argv split_line handle_in agree
cmd_handle-prefix = refl

split-Words_example :
    (argv : List ℕ) × (line : List ℕ) × (argl_to_argv (line_of ls (dash_l ∷ []) 0 (7 ∷ []))
      ≡ some (some (argv, line)))
    × (strings_at line argv ≡ ls ∷ dash_l ∷ [])
    × (argl_dup2_argv (line_of ls (dash_l ∷ []) 0 (7 ∷ [])) ≡ some (some (ls ∷ dash_l ∷ [])))
split-Words_example = split-Words ls (dash_l ∷ []) 0 7 [] ls-Words refl (λ q. omega arith)
