-- ===== src/Lfs/Refine.antt =====
-- device/lfs/lflgetc.c, lflputc.c, lflseek.c, lflread.c, lflwrite.c and lflcontrol.c as the
-- operations of a sequence of bytes.
use ece564_project.Prelude.{
  ℕ, suc, ◌+◌, ◌-◌, ◌≤◌, ◌<◌, ◌≡◌, refl, false, if◌then◌else◌, sym, ap, subst, ◌∙◌, ◌&&◌, ltb, leb,
  Bool-cases, inl, inr, Option, some, List, [], ◌∷◌, length, fun_ext, arith,
}
use ece564_project.Prelude.Int.{pos}
use ece564_project.Prelude.Ring.{nth}
use ece564_project.Lfs.Disk.{Lfs}
use ece564_project.Lfs.File.{Lflcblk, lftruncate}
use ece564_project.Lfs.Position.{lflgetc, lflputc, lflseek}
use ece564_project.Lfs.Stream.{truncated, lflcontrol, lflwrite, lflread}
use ece564_project.Lfs.Contents.{
  Contents, Request, Reply, write_at, overwrite, available, fill_from, answer, answers, replied_ok,
  replied_got, replied_count, replied_read, call, added, added_all, with_reply, then_call, calls,
  length-write_at,
}
use ece564_project.Lfs.Cut.{truncate_step}
use ece564_project.Lfs.Models.{Models, sought, sought-Models}
use ece564_project.Lfs.Bytewise.{put_step, get_end, get_step, lflseek-Models}
use ece564_project.Lfs.Repeated.{write_bytes-Models, between, result, read_bytes-Models}

-- The call on the disk returns what the sequence of bytes does, and leaves a file that stands for it.
abbrev Answered : Option (Lfs × Lflcblk × Reply) → Contents × Reply → Type 0
Answered o a =
    (l : Lfs) × (f : Lflcblk) × (ys : List ℕ) × (o ≡ some (l, f, a.1)) × Models f l a.0 ys

put-Answered :
    (fuel ch : ℕ) (f : Lflcblk) (l : Lfs) (c : Contents) (ys : List ℕ)
    → Models f l c ys
    → c.at < 8192
    → Answered (replied_ok (lflputc (suc fuel) ch f l)) (answer (Request.put ch) c)
unfolding answer
put-Answered fuel ch f l c ys m h =
    let (l1, f1, ys1, runs, m1) = put_step fuel ch f l c ys m h in
    (l1, f1, ys1, ap replied_ok runs, m1)

get-Answered :
    (fuel : ℕ) (f : Lflcblk) (l : Lfs) (c : Contents) (ys : List ℕ)
    → Models f l c ys
    → Answered (replied_got (lflgetc (suc fuel) f l)) (answer Request.get c)
unfolding answer
get-Answered fuel f l c ys m = elim (Bool-cases (leb (length c.bytes) c.at)) [
  | inl e ↦ rw e (l, f, ys, ap replied_got (get_end (suc fuel) f l c ys m e), m)
  | inr e ↦
      let (l1, f1, ys1, runs, m1) = get_step fuel f l c ys m e in
      rw e (l1, f1, ys1, ap replied_got runs, m1)
]

seek-Answered :
    (offset : ℕ) (f : Lflcblk) (l : Lfs) (c : Contents) (ys : List ℕ)
    → Models f l c ys
    → Answered
        (some (l, (lflseek offset f l).0, Reply.ok (lflseek offset f l).1))
        (answer (Request.seek offset) c)
unfolding answer
seek-Answered offset f l c ys m =
    subst (λ p. Answered (some (l, p.0, Reply.ok p.1)) (answer (Request.seek offset) c))
      (sym (lflseek-Models offset f l c ys m))
      (elim (Bool-cases (ltb (length c.bytes) offset)) [
        | inl e ↦ rw e (l, f, ys, refl, m)
        | inr e ↦
            rw e (l, sought offset f, ys, refl, sought-Models offset f l c ys m (ground arith))
      ])

write-Answered :
    (fuel : ℕ) (xs : List ℕ) (f : Lflcblk) (l : Lfs) (c : Contents) (ys : List ℕ)
    → Models f l c ys
    → length c.bytes + length xs ≤ 8192
    → Answered
        (replied_count (lflwrite (suc fuel) (nth xs) (pos (length xs)) f l))
        (answer (Request.write xs) c)
unfolding answer lflwrite
write-Answered fuel xs f l c ys m h =
    let (l1, f1, ys1, runs, m1) =
      write_bytes-Models fuel 0 xs (nth xs) f l c ys (c.at + length xs) (length xs) m h
        (λ j. ap (nth xs) (omega arith)) refl (omega arith) in
    (l1, f1, ys1, ap replied_count runs, m1)

from_start :
    (k at : ℕ) (bytes : List ℕ) (buff : ℕ → ℕ) (j : ℕ)
    → between 0 k at bytes buff j ≡ fill_from k at bytes buff j
from_start k at bytes buff j =
    let inside : (leb 0 j && ltb j (0 + k)) ≡ ltb j k = ground arith in
    let place : at + (j - 0) ≡ at + j = omega arith in rw (inside, place) refl

read-Answered :
    (fuel n : ℕ) (buff : ℕ → ℕ) (f : Lflcblk) (l : Lfs) (c : Contents) (ys : List ℕ)
    → Models f l c ys
    → Answered (replied_read (lflread (suc fuel) buff (pos n) f l)) (answer (Request.read n buff) c)
unfolding answer lflread
read-Answered fuel n buff f l c ys m =
    let k : ℕ = available n c in
    let (l1, f1, ys1, b, runs, cells, m1) = read_bytes-Models fuel n 0 buff f l c ys k m refl in
    let none_before : 0 + k ≡ k = omega arith in
    (
      l1,
      f1,
      ys1,
      ap replied_read runs
          ∙ ap (λ z. some (l1, f1, Reply.filled (result z n) b)) none_before
          ∙ ap (λ t. some (l1, f1, Reply.filled (result k n) t))
              (fun_ext (λ j. cells j ∙ from_start k c.at c.bytes buff j)),
      m1,
    )

truncate-Answered :
    (fuel : ℕ) (junk : ℕ → ℕ → ℕ) (f : Lflcblk) (l : Lfs) (c : Contents) (ys : List ℕ)
    → Models f l c ys
    → Answered
        (replied_ok (lflcontrol (suc (suc fuel)) junk 2 f l))
        (answer (Request.truncate junk) c)
unfolding answer lflcontrol
truncate-Answered fuel junk f l c ys m =
    let (l1, f1, ys1, runs, m1) = truncate_step fuel junk f l c ys m in
    (
      l1,
      f1,
      ys1,
      ap
            (λ b.
              replied_ok (
                if b then truncated (lftruncate (suc (suc fuel)) junk f l) else some (l, f, false)))
            m.used
          ∙ ap (λ o. replied_ok (truncated o)) runs,
      m1,
    )

call-Answered :
    (fuel : ℕ) (r : Request) (f : Lflcblk) (l : Lfs) (c : Contents) (ys : List ℕ)
    → Models f l c ys
    → length c.bytes + added r ≤ 8192
    → Answered (call (suc (suc fuel)) r f l) (answer r c)
unfolding call
call-Answered fuel (Request.put ch) f l c ys m h =
    let near = m.near in put-Answered (suc fuel) ch f l c ys m (omega arith)
call-Answered fuel Request.get f l c ys m h = get-Answered (suc fuel) f l c ys m
call-Answered fuel (Request.seek offset) f l c ys m h = seek-Answered offset f l c ys m
call-Answered fuel (Request.write xs) f l c ys m h = write-Answered (suc fuel) xs f l c ys m h
call-Answered fuel (Request.read n buff) f l c ys m h = read-Answered (suc fuel) n buff f l c ys m
call-Answered fuel (Request.truncate junk) f l c ys m h = truncate-Answered fuel junk f l c ys m

length-overwrite :
    (at : ℕ) (xs bytes : List ℕ)
    → at ≤ length bytes
    → length (overwrite at xs bytes) ≤ length bytes + length xs
length-overwrite at [] bytes h = omega arith
length-overwrite at (x ∷ xs) bytes h =
    let len = length-write_at at x bytes h in
    let rest = length-overwrite (at + 1) xs (write_at at x bytes) (ground arith) in ground arith

answer-length :
    (r : Request) (c : Contents)
    → c.at ≤ length c.bytes
    → length (answer r c).0.bytes ≤ length c.bytes + added r
unfolding answer
answer-length (Request.put ch) c h = let len = length-write_at c.at ch c.bytes h in ground arith
answer-length Request.get c h = ground arith
answer-length (Request.seek offset) c h = ground arith
answer-length (Request.write xs) c h = length-overwrite c.at xs c.bytes h
answer-length (Request.read n buff) c h = omega arith
answer-length (Request.truncate junk) c h = omega arith

-- An open file of at most one index block stands for a sequence of bytes and a position in it, with
-- a free data block for each of its sixteen places that has none, or it has no block, and an index
-- block and sixteen data blocks are free. A sequence of calls of lflputc, lflgetc, lflseek,
-- lflwrite, lflread and lflcontrol, for truncation, returns if the bytes that are there and those
-- that are written are at most 8192, and every call returns what the same operation on the sequence
-- of bytes does: bytes are written from the position on, over those that are there and behind the
-- last, or read from the position on until the end, a position behind the end is refused, and
-- truncation leaves no byte.
pub calls-answers :
    (fuel : ℕ) (rs : List Request) (f : Lflcblk) (l : Lfs) (c : Contents) (ys : List ℕ)
    → Models f l c ys
    → length c.bytes + added_all rs ≤ 8192
    → calls (suc (suc fuel)) rs f l ≡ some (answers rs c)
unfolding calls answers
calls-answers fuel [] f l c ys m h = refl
calls-answers fuel (r ∷ rs) f l c ys m h =
    let near = m.near in
    let (l1, f1, ys1, runs, m1) = call-Answered fuel r f l c ys m (omega arith) in
    let longer = answer-length r c near in
    ap (then_call (calls (suc (suc fuel)) rs)) runs
    ∙ ap (with_reply (answer r c).1)
        (calls-answers fuel rs f1 l1 (answer r c).0 ys1 m1 (omega arith))
