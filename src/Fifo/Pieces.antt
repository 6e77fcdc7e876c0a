-- ===== src/Fifo/Pieces.antt =====
-- The pieces of a long message.
use package_compile_sys.Common.{
  ℕ, zero, suc, ◌+◌, ◌*◌, ◌≤◌, ◌<◌, ◌≡◌, refl, ap, ◌∙◌, List, [], ◌∷◌, ◌++◌, Option, some, false,
  arith, ltb, length, take, drop, length-take, length-drop, Bool-cases, inl, inr, take_all,
  append_assoc, le→ltb, lt→ltb,
}
use package_compile_sys.Common.Int.{ℤ, pos, ltb_ℤ}
use package_compile_sys.Fifo.{Reply, Sent, un_write, pipe_buf, fifo_write, write_str}

-- So many replies, each of which takes a whole piece.
abbrev pub TakesAll : ℕ → List Reply → Type 0
TakesAll zero replies = Unit {0}
TakesAll (suc n) [] = n < 0
TakesAll (suc n) (reply ∷ replies) = (pipe_buf ≤ reply.took) × TakesAll n replies

un_write-all :
    (reply : Reply) (replies : List Reply) (buf : List ℕ)
    → length buf ≤ reply.took
    → un_write (reply ∷ replies) buf 0 ≡ some (length buf, replies)
unfolding un_write
un_write-all reply replies buf h = ground arith

un_write-short :
    (reply : Reply) (replies : List Reply) (buf : List ℕ)
    → reply.took < length buf
    → reply.eintr ≡ false
    → un_write (reply ∷ replies) buf 0 ≡ some (reply.took, replies)
unfolding un_write
un_write-short reply replies buf h e = ground arith

take-drop : (n : ℕ) (xs : List ℕ) → take n xs ++ drop n xs ≡ xs
take-drop zero xs = refl
take-drop (suc n) [] = refl
take-drop (suc n) (x ∷ xs) = ap (λ r. x ∷ r) (take-drop n xs)

take_size : (buf : List ℕ) → pipe_buf < length buf → length (take pipe_buf buf) ≡ pipe_buf
take_size buf long = length-take pipe_buf buf ∙ ground arith

pub piece_sent :
    (fuel : ℕ) (replies left : List Reply) (pipe buf : List ℕ) (count : ℕ)
    → pipe_buf < length buf
    → un_write replies (take pipe_buf buf) 0 ≡ some (count, left)
    → fifo_write (suc fuel) replies pipe buf
      ≡ fifo_write fuel left (pipe ++ take count buf) (drop pipe_buf buf)
unfolding fifo_write
piece_sent fuel replies left pipe buf count long e = rw (lt→ltb pipe_buf (length buf) long, e) refl

pub last_sent :
    (fuel : ℕ) (reply : Reply) (replies : List Reply) (pipe buf : List ℕ)
    → length buf ≤ pipe_buf
    → pipe_buf ≤ reply.took
    → fifo_write (suc fuel) (reply ∷ replies) pipe buf
      ≡ some
          record { ret = pos (length buf); pipe = pipe ++ take (length buf) buf; replies = replies }
unfolding fifo_write
last_sent fuel reply replies pipe buf short all =
    rw (le→ltb pipe_buf (length buf) short, un_write-all reply replies buf (omega arith)) refl

-- The whole message is on the pipe, and the result is a count.
abbrev pub SentAll : Option Sent → List ℕ → Type 0
SentAll result pipe =
    (sent : Sent) × (result ≡ some sent) × (sent.pipe ≡ pipe) × (ltb_ℤ sent.ret (pos 0) ≡ false)

pub last-SentAll :
    (fuel : ℕ) (reply : Reply) (replies : List Reply) (pipe buf : List ℕ)
    → length buf ≤ pipe_buf
    → pipe_buf ≤ reply.took
    → SentAll (fifo_write (suc fuel) (reply ∷ replies) pipe buf) (pipe ++ buf)
last-SentAll fuel reply replies pipe buf short all = (
  _,
  last_sent fuel reply replies pipe buf short all,
  ap (λ r. pipe ++ r) (take_all (length buf) buf (omega arith)),
  ground arith,
)

-- `un_fifo_ops_write` to a pipe that takes every piece puts the whole message on it, in order, and
-- returns a count; a round and a reply for each piece are enough.
fifo_write_lem :
    (fuel : ℕ) (replies : List Reply) (pipe buf : List ℕ)
    → TakesAll (suc fuel) replies
    → length buf ≤ fuel * pipe_buf + pipe_buf
    → SentAll (fifo_write (suc fuel) replies pipe buf) (pipe ++ buf)
fifo_write_lem fuel [] pipe buf all enough = absurd (omega arith)
fifo_write_lem zero (reply ∷ replies) pipe buf all enough =
    last-SentAll zero reply replies pipe buf (omega arith) all.0
fifo_write_lem (suc k) (reply ∷ replies) pipe buf all enough =
    elim (Bool-cases (ltb pipe_buf (length buf))) [
      | inl more ↦
          let long : pipe_buf < length buf = ground arith in
          let whole =
            un_write-all reply replies (take pipe_buf buf)
              (omega (arith, take_size buf long, all.0)) in
          let (sent, run, same, count) =
            fifo_write_lem k replies (pipe ++ take (length (take pipe_buf buf)) buf)
              (drop pipe_buf buf) all.1 (omega (arith, length-drop pipe_buf buf)) in
          (
            sent,
            piece_sent (suc k) (reply ∷ replies) replies pipe buf _ long whole ∙ run,
            same
                ∙ ap (λ n. (pipe ++ take n buf) ++ drop pipe_buf buf) (take_size buf long)
                ∙ append_assoc pipe (take pipe_buf buf) (drop pipe_buf buf)
                ∙ ap (λ r. pipe ++ r) (take-drop pipe_buf buf),
            count,
          )
      | inr last ↦ last-SentAll (suc k) reply replies pipe buf (ground arith) all.0
    ]

pub write_str-ok :
    (fuel : ℕ) (reopened : ℤ) (replies : List Reply) (pipe contex : List ℕ) (sent : Sent)
    → fifo_write fuel replies pipe contex ≡ some sent
    → ltb_ℤ sent.ret (pos 0) ≡ false
    → write_str fuel reopened replies pipe contex ≡ some (record sent { ret = pos 0 })
unfolding write_str
write_str-ok fuel reopened replies pipe contex sent run count = rw (run, write_str, count) refl

-- A piece in the middle that the pipe takes in part is not written again: what is left of it is
-- missing from the message, and `user_fifo_write_str` returns 0. The pipe takes every other piece,
-- and a round for each piece and two more are enough.
short_piece_lost :
    (fuel : ℕ) (reopened : ℤ) (reply : Reply) (replies : List Reply) (pipe buf : List ℕ)
    → pipe_buf < length buf
    → reply.took < pipe_buf
    → reply.eintr ≡ false
    → TakesAll (suc fuel) replies
    → length buf ≤ fuel * pipe_buf + pipe_buf
    → (sent : Sent) × (write_str (suc (suc fuel)) reopened (reply ∷ replies) pipe buf ≡ some sent)
      × (sent.ret ≡ pos 0)
      × (sent.pipe ≡ (pipe ++ take reply.took buf) ++ drop pipe_buf buf)
short_piece_lost fuel reopened reply replies pipe buf long short quiet all enough =
    let part =
      un_write-short reply replies (take pipe_buf buf) (omega (arith, take_size buf long, short))
        quiet in
    let (sent, run, same, count) =
      fifo_write_lem fuel replies (pipe ++ take reply.took buf) (drop pipe_buf buf) all
        (omega (arith, length-drop pipe_buf buf)) in
    (
      record sent { ret = pos 0 },
      write_str-ok (suc (suc fuel)) reopened (reply ∷ replies) pipe buf sent
          (piece_sent (suc fuel) (reply ∷ replies) replies pipe buf reply.took long part ∙ run)
          count,
      refl,
      same,
    )
