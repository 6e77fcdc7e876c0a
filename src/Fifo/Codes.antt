-- ===== src/Fifo/Codes.antt =====
-- What user_fifo_write_str and user_fifo_write_fmt return.
use package_compile_sys.Common.{
  ℕ, zero, suc, ◌+◌, ◌≤◌, ◌<◌, ◌≡◌, refl, ◌∙◌, List, [], ◌∷◌, ◌++◌, Option, none, some, false,
  arith, ltb, length, length-append, lt→leb, ne→==, take, drop, Bool-cases, inl, inr, ◌⊎◌,
  Option-cases, lt→ltb,
}
use package_compile_sys.Common.Int.{ℤ, pos, negsuc, ltb_ℤ}
use package_compile_sys.Fifo.{
  Reply, Sent, un_write, pipe_buf, fifo_write, write_str, framed, suffix, available_size, write_fmt,
}
use package_compile_sys.Fifo.Pieces.{last-SentAll, write_str-ok, piece_sent}

-- A call that ends, ends with a result of the given kind.
abbrev Returns : Option Sent → (ℤ → Type 0) → Type 0
Returns result P = (result ≡ none) ⊎ ((sent : Sent) × (result ≡ some sent) × P sent.ret)

fifo_write-count :
    (fuel : ℕ) (replies : List Reply) (pipe buf : List ℕ)
    → Returns (fifo_write fuel replies pipe buf) (λ ret. ltb_ℤ ret (pos 0) ≡ false)
unfolding fifo_write
fifo_write-count zero replies pipe buf = inl refl
fifo_write-count (suc fuel) replies pipe buf = elim (Bool-cases (ltb pipe_buf (length buf))) [
  | inl long ↦ elim (Option-cases (un_write replies (take pipe_buf buf) 0)) [
    | inl gone ↦ inl (rw (long, gone) refl)
    | inr (got, e) ↦
        elim (fifo_write-count fuel got.1 (pipe ++ take got.0 buf) (drop pipe_buf buf)) [
          | inl gone ↦
              inl (piece_sent fuel replies got.1 pipe buf got.0 (ground (arith, long)) e ∙ gone)
          | inr (sent, run, count) ↦ inr (
            sent,
            piece_sent fuel replies got.1 pipe buf got.0 (ground (arith, long)) e ∙ run,
            count,
          )
        ]
  ]
  | inr short ↦ elim (Option-cases (un_write replies buf 0)) [
    | inl gone ↦ inl (rw (short, gone) refl)
    | inr (got, e) ↦ inr (
      record { ret = pos got.0; pipe = pipe ++ take got.0 buf; replies = got.1 },
      rw (short, e) refl,
      ground arith,
    )
  ]
]

-- Whatever the pipe takes of the message, nothing included, `user_fifo_write_str` returns 0 if it
-- ends: `un_write` has no negative result, so that no error of the pipe is seen.
write_str-zero :
    (fuel : ℕ) (reopened : ℤ) (replies : List Reply) (pipe contex : List ℕ)
    → (write_str fuel reopened replies pipe contex ≡ none)
      ⊎ ((sent : Sent) × (write_str fuel reopened replies pipe contex ≡ some sent)
          × (sent.ret ≡ pos 0))
unfolding write_str
write_str-zero fuel reopened replies pipe contex =
    elim (fifo_write-count fuel replies pipe contex) [
      | inl gone ↦ inl (rw (gone, write_str) refl)
      | inr (sent, run, count) ↦ inr (
        record sent { ret = pos 0 },
        write_str-ok fuel reopened replies pipe contex sent run count,
        refl,
      )
    ]

write_fmt-sent :
    (fuel : ℕ) (reopened : ℤ) (replies : List Reply) (pipe text : List ℕ) (sent : Sent)
    → 0 < length text
    → length text < available_size
    → write_str fuel reopened replies pipe (framed text) ≡ some sent
    → sent.ret ≡ pos 0
    → write_fmt fuel reopened replies pipe (some text) ≡ some (record sent { ret = negsuc 2 })
unfolding write_fmt
write_fmt-sent fuel reopened replies pipe text sent some_text fits run zero_ret =
    rw
      (
        ne→== (length text) 0 (λ q. omega (arith, q)),
        lt→leb available_size (length text) fits,
        run,
        zero_ret,
        lt→ltb 0 (length text + 0) (omega (arith, some_text)),
      )
      refl

-- `user_fifo_write_fmt` with a text of one to 1,020 chars, over a pipe that takes all, puts the
-- framed text on the pipe and returns -3, its code for a failed write: it compares the 0 that
-- `user_fifo_write_str` returns with the length of the text.
write_fmt_lem :
    (fuel : ℕ) (reopened : ℤ) (reply : Reply) (replies : List Reply) (pipe text : List ℕ)
    → 0 < length text
    → length text < available_size
    → pipe_buf ≤ reply.took
    → (sent : Sent) × (write_fmt (suc fuel) reopened (reply ∷ replies) pipe (some text) ≡ some sent)
      × (sent.pipe ≡ pipe ++ framed text)
      × (sent.ret ≡ negsuc 2)
write_fmt_lem fuel reopened reply replies pipe text some_text fits all =
    let (sent, run, same, count) =
      last-SentAll fuel reply replies pipe (framed text)
        (omega (arith, length-append text (suffix ∷ []), fits)) all in
    (
      record sent { ret = negsuc 2 },
      write_fmt-sent (suc fuel) reopened (reply ∷ replies) pipe text (record sent { ret = pos 0 })
          some_text fits
          (write_str-ok (suc fuel) reopened (reply ∷ replies) pipe (framed text) sent run count)
          refl,
      same,
      refl,
    )
