-- ===== src/Fifo.antt =====
-- Messages over a named pipe: app/lzUtils/common/fd_op.h (un_write), un_fifo_ops/un_fifo_ops.c
-- (un_fifo_ops_write) and user_fifo/user_fifo.c. The kernel is a list of replies, one for each call
-- of write(2); a call that would wait for one more reply has no result. `vsnprintf` is what it
-- returns: the whole text, or none for a failure. The handle is not NULL and needs no lock.
pub mod Pieces
pub mod Frames
pub mod Codes
pub mod Open
mod Tests
use package_compile_sys.Common.{
  ℕ, zero, suc, ◌+◌, ◌-◌, List, [], ◌∷◌, ◌++◌, Option, none, some, Bool, true, false, ltb, leb,
  ◌==◌, if◌then◌else◌, length, take, drop, min,
}
use package_compile_sys.Common.Int.{ℤ, pos, negsuc, ltb_ℤ}

-- What write(2) does with the bytes it is given: how many it takes, 0 where it fails, and whether
-- `errno` is EINTR behind it.
pub record Reply : Type 0 where
  pub took : ℕ
  pub eintr : Bool

-- The count returned and the replies left. It is never negative.
unfoldable pub un_write : List Reply → List ℕ → ℕ → Option (ℕ × List Reply)
un_write [] buf count = none
un_write (reply ∷ replies) buf count =
    let count' = count + min reply.took (length buf - count) in
    let rest = un_write replies buf count' in
    if count' == length buf
    then some (count', replies)
    else (if reply.eintr then rest else some (count', replies))

-- `un_read` of `size` bytes, the same loop over what read(2) gives; the count is not negative either.
unfoldable pub un_read : List Reply → ℕ → ℕ → Option (ℕ × List Reply)
un_read [] size count = none
un_read (reply ∷ replies) size count =
    let count' = count + min reply.took (size - count) in
    let rest = un_read replies size count' in
    if count' == size
    then some (count', replies)
    else (if reply.eintr then rest else some (count', replies))

unfoldable pub fifo_read : List Reply → ℕ → Option (ℤ × List Reply)
fifo_read replies size = elim (un_read replies size 0) [
  | none ↦ none
  | some (count, left) ↦ some (if ltb_ℤ (pos count) (pos 0) then negsuc 0 else pos count, left)
]

abbrev pub pipe_buf : ℕ
pipe_buf = 4096

-- What a call of un_fifo_ops_write leaves: its result, the bytes in the pipe, the replies left.
pub record Sent : Type 0 where
  pub ret : ℤ
  pub pipe : List ℕ
  pub replies : List Reply

-- The count of a piece is not negative, so that neither `goto exit` is taken.
unfoldable pub fifo_write : ℕ → List Reply → List ℕ → List ℕ → Option Sent
fifo_write zero replies pipe buf = none
fifo_write (suc fuel) replies pipe buf =
    if ltb pipe_buf (length buf)
    then elim (un_write replies (take pipe_buf buf) 0) [
      | none ↦ none
      | some (count, left) ↦ fifo_write fuel left (pipe ++ take count buf) (drop pipe_buf buf)
    ]
    else elim (un_write replies buf 0) [
      | none ↦ none
      | some (count, left) ↦
          some record { ret = pos count; pipe = pipe ++ take count buf; replies = left }
    ]

-- `reopened` is what `un_fifo_ops_init` returns; the descriptor it opens is not stored.
unfoldable pub write_str : ℕ → ℤ → List Reply → List ℕ → List ℕ → Option Sent
write_str fuel reopened replies pipe contex = elim (fifo_write fuel replies pipe contex) [
  | none ↦ none
  | some first ↦
      if ltb_ℤ first.ret (pos 0)
      then (if ltb_ℤ reopened (pos 0)
          then some (record first { ret = negsuc 1 })
          else elim (fifo_write fuel first.replies first.pipe contex) [
            | none ↦ none
            | some second ↦
                some (record second { ret = if ltb_ℤ second.ret (pos 0) then negsuc 2 else pos 0 })
          ])
      else some (record first { ret = pos 0 })
]

abbrev pub prefix : ℕ
prefix = 94

abbrev pub suffix : ℕ
suffix = 10

-- A message on the pipe.
abbrev pub framed : List ℕ → List ℕ
framed text = prefix ∷ (text ++ suffix ∷ [])

-- `sizeof(buf) - FMT_PREFIX_LEN - FMT_SUBFFIX_LEN - 1`.
abbrev pub available_size : ℕ
available_size = 1021

unfoldable pub write_fmt : ℕ → ℤ → List Reply → List ℕ → Option (List ℕ) → Option Sent
write_fmt fuel reopened replies pipe none =
    some record { ret = negsuc 0; pipe = pipe; replies = replies }
write_fmt fuel reopened replies pipe (some text) =
    if length text == 0
    then some record { ret = negsuc 0; pipe = pipe; replies = replies }
    else (if leb available_size (length text)
        then some record { ret = negsuc 1; pipe = pipe; replies = replies }
        else elim (write_str fuel reopened replies pipe (framed text)) [
          | none ↦ none
          | some sent ↦
              some (record sent {
                ret = if ltb_ℤ sent.ret (pos (length text)) then negsuc 2 else pos 0;
              })
        ])

-- user_fifo_write_fmt_len: `vsnprintf` cuts the text to `len` bytes, its NUL included, and returns
-- the whole length.
unfoldable pub write_fmt_len : ℕ → ℤ → List Reply → List ℕ → ℕ → Option (List ℕ) → Option Sent
write_fmt_len fuel reopened replies pipe len none =
    some record { ret = negsuc 0; pipe = pipe; replies = replies }
write_fmt_len fuel reopened replies pipe len (some text) =
    if length text == 0
    then some record { ret = negsuc 0; pipe = pipe; replies = replies }
    else (if leb available_size (length text)
        then some record { ret = negsuc 1; pipe = pipe; replies = replies }
        else elim (write_str fuel reopened replies pipe
            (framed (take (min available_size len - 1) text))) [
              | none ↦ none
              | some sent ↦ some (record sent {
                ret = if ltb_ℤ sent.ret (pos (length text)) then negsuc 2 else pos 0;
              })
            ])

-- `memmem` of one char: what stands before its first place, and what stands behind it.
unfoldable pub split_at : ℕ → List ℕ → Option (List ℕ × List ℕ)
split_at c [] = none
split_at c (x ∷ xs) =
    if x == c
    then some ([], xs)
    else elim (split_at c xs) [ none ↦ none | some (before, behind) ↦ some (x ∷ before, behind) ]

-- The texts that one read of user_fifo_read_proc hands to the handler, in a buffer of the bytes read.
unfoldable pub messages : ℕ → List ℕ → List (List ℕ)
messages zero buf = []
messages (suc fuel) buf = elim (split_at prefix buf) [
  | none ↦ []
  | some (skipped, cmd) ↦ elim (split_at suffix cmd) [
    | none ↦ []
    | some (text, rest) ↦ text ∷ messages fuel rest
  ]
]
