-- ===== src/Lfs/Contents.antt =====
-- The file that lflgetc.c, lflputc.c and lflseek.c stand for: its bytes and a position in them.
use ece564_project.Prelude.{
  ℕ, zero, suc, ◌+◌, ◌%◌, ◌-◌, ◌&&◌, ◌≤◌, ◌<◌, ◌≡◌, refl, Bool, true, false, ltb, leb, ◌==◌,
  if◌then◌else◌, Option, none, some, List, [], ◌∷◌, length, arith,
}
use ece564_project.Prelude.Int.{ℤ, pos}
use ece564_project.Prelude.Ring.{nth}
use ece564_project.Lfs.Disk.{Lfs}
use ece564_project.Lfs.File.{Lflcblk}
use ece564_project.Lfs.Position.{Got, lflgetc, lflputc, lflseek}
use ece564_project.Lfs.Stream.{no_more, WriteResult, lflcontrol, lflwrite, ReadResult, lflread}

pub record Contents : Type 0 where
  pub bytes : List ℕ
  pub at : ℕ

-- One of the calls, and what it returns. `read` is given a buffer and the number of its bytes, and
-- `truncate` what the stack holds behind the pointer of a block that is freed.
pub data Request : Type 0 where
  put : ℕ → Request
  get : Request
  seek : ℕ → Request
  write : List ℕ → Request
  read : ℕ → (ℕ → ℕ) → Request
  truncate : (ℕ → ℕ → ℕ) → Request

pub data Reply : Type 0 where
  ok : Bool → Reply
  got : Got → Reply
  count : ℤ → Reply
  filled : ℤ → (ℕ → ℕ) → Reply

-- The byte at the position, or behind the last.
abbrev pub write_at : ℕ → ℕ → List ℕ → List ℕ
write_at zero ch [] = ch ∷ []
write_at zero ch (x ∷ xs) = ch ∷ xs
write_at (suc n) ch [] = []
write_at (suc n) ch (x ∷ xs) = x ∷ write_at n ch xs

-- Bytes from the position on.
abbrev pub overwrite : ℕ → List ℕ → List ℕ → List ℕ
overwrite at [] bytes = bytes
overwrite at (x ∷ xs) bytes = overwrite (at + 1) xs (write_at at x bytes)

-- How many of `n` bytes there are from the position on.
abbrev pub available : ℕ → Contents → ℕ
available n c = if leb n (length c.bytes - c.at) then n else length c.bytes - c.at

-- The buffer with `k` bytes of the file from `at` on.
abbrev pub fill_from : ℕ → ℕ → List ℕ → (ℕ → ℕ) → ℕ → ℕ
fill_from k at bytes buff j = if ltb j k then nth bytes (at + j) % 256 else buff j

unfoldable pub answer : Request → Contents → Contents × Reply
answer (Request.put ch) c =
    (record { bytes = write_at c.at ch c.bytes; at = c.at + 1 }, Reply.ok true)
answer Request.get c =
    if leb (length c.bytes) c.at
    then (c, Reply.got Got.at_end)
    else (record c { at = c.at + 1 }, Reply.got (Got.byte (nth c.bytes c.at % 256)))
answer (Request.seek offset) c =
    if ltb (length c.bytes) offset
    then (c, Reply.ok false)
    else (record c { at = offset }, Reply.ok true)
answer (Request.write xs) c = (
  record { bytes = overwrite c.at xs c.bytes; at = c.at + length xs },
  Reply.count (pos (length xs)),
)
answer (Request.read n buff) c =
    let k : ℕ = available n c in
    (
      record c { at = c.at + k },
      Reply.filled (if (k == 0) && ltb 0 n then no_more else pos k) (fill_from k c.at c.bytes buff),
    )
answer (Request.truncate junk) c = (record { bytes = []; at = 0 }, Reply.ok true)

unfoldable pub answers : List Request → Contents → List Reply
answers [] c = []
answers (r ∷ rs) c = let (c', reply) = answer r c in reply ∷ answers rs c'

abbrev pub replied_ok : Option (Lfs × Lflcblk × Bool) → Option (Lfs × Lflcblk × Reply)
replied_ok none = none
replied_ok (some (l, f, b)) = some (l, f, Reply.ok b)

abbrev pub replied_got : Option (Lfs × Lflcblk × Got) → Option (Lfs × Lflcblk × Reply)
replied_got none = none
replied_got (some (l, f, g)) = some (l, f, Reply.got g)

abbrev pub replied_count : Option WriteResult → Option (Lfs × Lflcblk × Reply)
replied_count none = none
replied_count (some (l, f, n)) = some (l, f, Reply.count n)

abbrev pub replied_read : Option ReadResult → Option (Lfs × Lflcblk × Reply)
replied_read none = none
replied_read (some (l, f, b, n)) = some (l, f, Reply.filled n b)

-- The call on the disk.
unfoldable pub call : ℕ → Request → Lflcblk → Lfs → Option (Lfs × Lflcblk × Reply)
call fuel (Request.put ch) f l = replied_ok (lflputc fuel ch f l)
call fuel Request.get f l = replied_got (lflgetc fuel f l)
call fuel (Request.seek offset) f l = let (f', b) = lflseek offset f l in some (l, f', Reply.ok b)
call fuel (Request.write xs) f l = replied_count (lflwrite fuel (nth xs) (pos (length xs)) f l)
call fuel (Request.read n buff) f l = replied_read (lflread fuel buff (pos n) f l)
call fuel (Request.truncate junk) f l = replied_ok (lflcontrol fuel junk 2 f l)

-- The bytes by which a call may make the file longer.
abbrev pub added : Request → ℕ
added (Request.put ch) = 1
added Request.get = 0
added (Request.seek offset) = 0
added (Request.write xs) = length xs
added (Request.read n buff) = 0
added (Request.truncate junk) = 0

abbrev pub added_all : List Request → ℕ
added_all [] = 0
added_all (r ∷ rs) = added r + added_all rs

abbrev pub with_reply : Reply → Option (List Reply) → Option (List Reply)
with_reply r none = none
with_reply r (some rs) = some (r ∷ rs)

abbrev pub then_call :
    (Lflcblk → Lfs → Option (List Reply)) → Option (Lfs × Lflcblk × Reply) → Option (List Reply)
then_call rest none = none
then_call rest (some (l, f, r)) = with_reply r (rest f l)

-- What a sequence of calls returns.
unfoldable pub calls : ℕ → List Request → Lflcblk → Lfs → Option (List Reply)
calls fuel [] f l = some []
calls fuel (r ∷ rs) f l = then_call (calls fuel rs) (call fuel r f l)

pub length-write_at :
    (n ch : ℕ) (xs : List ℕ)
    → n ≤ length xs
    → length (write_at n ch xs) ≡ (if leb (length xs) n then length xs + 1 else length xs)
length-write_at zero ch [] h = refl
length-write_at zero ch (x ∷ xs) h = ground arith
length-write_at (suc n) ch [] h = absurd (omega arith)
length-write_at (suc n) ch (x ∷ xs) h =
    let rest = length-write_at n ch xs (omega arith) in ground arith

pub nth-write_at :
    (n ch : ℕ) (xs : List ℕ) (q : ℕ)
    → n ≤ length xs
    → q < length (write_at n ch xs)
    → nth (write_at n ch xs) q ≡ (if q == n then ch else nth xs q)
nth-write_at zero ch [] zero h k = refl
nth-write_at zero ch [] (suc q) h k = absurd (omega arith)
nth-write_at zero ch (x ∷ xs) zero h k = refl
nth-write_at zero ch (x ∷ xs) (suc q) h k =
    let away : (suc q == 0) ≡ false = ground arith in rw away refl
nth-write_at (suc n) ch [] q h k = absurd (omega arith)
nth-write_at (suc n) ch (x ∷ xs) zero h k =
    let away : (0 == suc n) ≡ false = ground arith in rw away refl
nth-write_at (suc n) ch (x ∷ xs) (suc q) h k =
    let rest = nth-write_at n ch xs q (omega arith) (omega arith) in
    let same : (suc q == suc n) ≡ (q == n) = ground arith in rw same rest
