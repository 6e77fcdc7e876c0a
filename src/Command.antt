-- ===== src/Command.antt =====
-- Command lines: argl_to_argv, argl_dup2_argv, argv_to_argl and dup_argl_cmd of app/lzUtils/common/misc.c, and the
-- table of commands of app/lzUtils/user_fifo/user_fifo.c. A line is the list of the bytes of its
-- buffer, the NUL and what stands behind it included; a read behind the last one has no result. The
-- arguments are not NULL, and allocations succeed.
pub mod Words
pub mod Strings
mod Tests
use package_compile_sys.Common.{
  ℕ, zero, suc, ◌+◌, List, [], ◌∷◌, ◌++◌, Option, none, some, Bool, true, false, ◌||◌, ◌==◌,
  if◌then◌else◌, take, ltb, length, set, write_at, ◌-◌,
}
use package_compile_sys.Autom.{resize}
use package_compile_sys.Common.Int.{ℤ, pos, negsuc, ltb_ℤ}

abbrev pub space : ℕ
space = 32

abbrev pub is_end : ℕ → Bool
is_end c = (c == 0) || (c == 10)

abbrev pub is_break : ℕ → Bool
is_break c = (c == space) || is_end c

-- The places of the arguments behind the first one, and the bytes as the loop leaves them.
abbrev pub Split : Type 0
Split = Option (List ℕ × List ℕ)

abbrev pub emit : ℕ → Split → Split
emit c split = elim split [ none ↦ none | some (starts, line) ↦ some (starts, c ∷ line) ]

abbrev pub start : ℕ → Split → Split
start n split = elim split [ none ↦ none | some (starts, line) ↦ some (n ∷ starts, line) ]

-- The rounds of the loop of argl_to_argv from `argl[i]` on. `held` is `argl[i]` where it is a break
-- whose following byte is looked at next; a space there makes `i` go on, whatever the break was.
unfoldable pub split_line : Option ℕ → List ℕ → ℕ → Split
split_line held [] i = none
split_line none (c ∷ rest) i = elim (is_break c) [
  | true ↦ split_line (some c) rest i
  | false ↦ emit c (split_line none rest (i + 1))
]
split_line (some c) (d ∷ rest) i = elim (d == space) [
  | true ↦ emit c (split_line (some d) rest (i + 1))
  | false ↦ elim (is_end c) [
    | true ↦ some ((i + 1) ∷ [], 0 ∷ d ∷ rest)
    | false ↦ start (i + 1) (
        emit 0 (elim (is_break d) [
          | true ↦ split_line (some d) rest (i + 1)
          | false ↦ emit d (split_line none rest (i + 1 + 1))
        ]))
  ]
]

abbrev pub but_last : List ℕ → List ℕ
but_last [] = []
but_last (x ∷ []) = []
but_last (x ∷ y ∷ xs) = x ∷ but_last (y ∷ xs)

-- The places of the arguments, whose last one gives way to the NULL, and the line; `some none` is
-- the return of NULL for an empty line.
unfoldable pub argl_to_argv : List ℕ → Option (Option (List ℕ × List ℕ))
argl_to_argv [] = none
argl_to_argv (c ∷ rest) = if c == 0 then some none else elim (split_line none (c ∷ rest) 0) [
  | none ↦ none
  | some (starts, line) ↦ some (some (0 ∷ but_last starts, line))
]

-- The bytes up to the NUL, what a `char *` stands for.
abbrev pub c_string : List ℕ → List ℕ
c_string [] = []
c_string (x ∷ xs) = if x == 0 then [] else x ∷ c_string xs

-- The rounds of argl_dup2_argv: `arg` is what stands between the start of the argument and `argl[i]`.
unfoldable pub dup_line : List ℕ → List ℕ → Option (List (List ℕ))
dup_line arg [] = none
dup_line arg (c ∷ rest) = elim (c == space) [
  | true ↦ elim rest [
    | [] ↦ none
    | d ∷ rest' ↦ elim (d == space) [
      | true ↦ dup_line (arg ++ c ∷ []) rest
      | false ↦ elim (dup_line [] rest) [ none ↦ none | some args ↦ some (arg ∷ args) ]
    ]
  ]
  | false ↦ elim (is_end c) [ true ↦ some (arg ∷ []) | false ↦ dup_line (arg ++ c ∷ []) rest ]
]

unfoldable pub argl_dup2_argv : List ℕ → Option (Option (List (List ℕ)))
argl_dup2_argv [] = none
argl_dup2_argv (c ∷ rest) =
    if c == 0
    then some none
    else elim (dup_line [] (c ∷ rest)) [ none ↦ none | some args ↦ some (some args) ]

-- The place of the first NUL.
unfoldable pub nul_at : List ℕ → Option ℕ
nul_at [] = none
nul_at (x ∷ xs) =
    if x == 0 then some 0 else elim (nul_at xs) [ none ↦ none | some i ↦ some (i + 1) ]

-- `strcat` into a block: behind its first NUL, wherever that is.
unfoldable pub strcat : List ℕ → List ℕ → Option (List ℕ)
strcat block text = elim (nul_at block) [
  | none ↦ none
  | some i ↦
      if ltb (i + length text) (length block)
      then some (write_at block i (text ++ 0 ∷ []))
      else none
]

-- The rounds of argv_to_argl: the block has `rt_idx` bytes in use, and `realloc` leaves any bytes
-- behind the old ones, of which `strcat` looks for a NUL.
unfoldable pub join_args : (ℕ → ℕ) → List (List ℕ) → List ℕ → ℕ → Option (List ℕ × ℕ)
join_args junk [] block rt_idx = some (block, rt_idx)
join_args junk (arg ∷ argv) block rt_idx =
    elim (strcat (resize junk (rt_idx + length arg + 2) block) arg) [
      | none ↦ none
      | some grown ↦
          join_args junk argv (set grown (rt_idx + length arg) space) (rt_idx + length arg + 1)
    ]

-- `some none` is the return of NULL for no argument.
unfoldable pub argv_to_argl : (ℕ → ℕ) → List (List ℕ) → Option (Option (List ℕ))
argv_to_argl junk [] = some none
argv_to_argl junk (arg ∷ argv) = elim (join_args junk (arg ∷ argv) [] 0) [
  | none ↦ none
  | some (block, rt_idx) ↦ some (some (set block (rt_idx - 1) 0))
]

-- How many bytes stand before the first break.
unfoldable pub cmd_length : List ℕ → Option ℕ
cmd_length [] = none
cmd_length (c ∷ rest) = elim (is_break c) [
  | true ↦ some 0
  | false ↦ elim (cmd_length rest) [ none ↦ none | some i ↦ some (i + 1) ]
]

-- `strndup(argl, i + 2)`: two bytes more than stand before the break.
unfoldable pub dup_argl_cmd : List ℕ → Option (List ℕ)
dup_argl_cmd argl = elim (cmd_length argl) [
  | none ↦ none
  | some i ↦ some (c_string (take (i + 2) argl))
]

-- `strncmp` over the length of the shorter one.
unfoldable pub agree : List ℕ → List ℕ → Bool
agree [] name = true
agree (x ∷ xs) [] = true
agree (x ∷ xs) (y ∷ ys) = let rest = agree xs ys in if x == y then rest else false

-- The table: each command with what its handler returns for the arguments.
unfoldable pub handle_in : List (List ℕ × ℤ) → List ℕ → ℤ
handle_in [] name = negsuc 2
handle_in ((cmd, ret) ∷ tbl) name =
    let rest = handle_in tbl name in
    if agree cmd name then (if ltb_ℤ ret (pos 0) then negsuc 1 else pos 0) else rest

unfoldable pub cmd_handle : List (List ℕ × ℤ) → List ℕ → Option ℤ
cmd_handle tbl buf = elim (argl_to_argv buf) [
  | none ↦ none
  | some none ↦ some (negsuc 0)
  | some (some (argv, line)) ↦ some (handle_in tbl (c_string line))
]
