-- ===== src/Paging/Vmalloc/Scan.antt =====
-- system/vmalloc.c, the search for unused pages in a row.
use ece564_project.Prelude.{
  ℕ, zero, suc, ◌+◌, ◌-◌, ◌*◌, ◌≤◌, ◌<◌, ◌≡◌, true, false, arith, ltb, ◌==◌, Bool-cases, inl, inr,
  ◌∙◌, sym, ltb→lt, ltb→ge, true≢false,
}
use ece564_project.Paging.Memory.{Mem, page_dir_addr_start, page_size}
use ece564_project.Paging.Vmalloc.Tables.{unused}
use ece564_project.Paging.Vmalloc.Absent.{scan}

abbrev pub area_page : ℕ → ℕ
area_page p = page_dir_addr_start + page_size * p

-- The pages from `p` on, `n` of them, are unused, and no earlier page begins such a run.
pub record IsUnusedRun (n p : ℕ) (m : Mem) : Type 0 where
  pub wanted : 0 < n
  pub in_area : p + n ≤ 1024
  pub free : (q : ℕ) → p ≤ q → q < p + n → unused m (area_page q) ≡ true
  pub first : (q : ℕ) → ((r : ℕ) → q ≤ r → r < q + n → unused m (area_page r) ≡ true) → p ≤ q

pub extend_run :
    (q seen : ℕ) (m : Mem)
    → unused m (area_page q) ≡ true
    → ((r : ℕ) → q - seen ≤ r → r < q → unused m (area_page r) ≡ true)
    → (r : ℕ) → q - seen ≤ r
    → r < q + 1
    → unused m (area_page r) ≡ true
extend_run q seen m u free r h h' = elim (Bool-cases (r == q)) [
  | inl e ↦ let same : r ≡ q = ground arith in rw same u
  | inr e ↦ free r h (ground arith)
]

pub used_before :
    (q seen need p : ℕ) (m : Mem)
    → IsUnusedRun need p m
    → q - seen ≤ p
    → seen < need
    → unused m (area_page q) ≡ false
    → q < p
used_before q seen need p m run b c used = elim (Bool-cases (ltb q p)) [
  | inl h ↦ ltb→lt q p h
  | inr h ↦ absurd (true≢false (sym (run.free q (ltb→ge q p h) (omega arith)) ∙ used))
]

-- The search stands at page `q`; the `seen` pages before it are unused.
pub scan-first :
    (rounds q seen need p : ℕ) (m : Mem)
    → IsUnusedRun need p m
    → seen ≤ q
    → q - seen ≤ p
    → seen < need
    → ((r : ℕ) → q - seen ≤ r → r < q → unused m (area_page r) ≡ true)
    → p + need ≤ q + rounds
    → scan rounds (area_page q) need q (need - seen) m ≡ (p + need, 0)
unfolding scan
scan-first zero q seen need p m run a b c free d = absurd (omega arith)
scan-first (suc rounds) q seen need p m run a b c free d =
    let next : area_page q + page_size ≡ area_page (q + 1) = omega arith in
    elim (Bool-cases (unused m (area_page q))) [
      | inl u ↦ elim (Bool-cases (seen + 1 == need)) [
        | inl e ↦
            let start =
              run.first (q - seen) (λ r h h'. extend_run q seen m u free r h (ground arith)) in
            let done : (need - seen - 1 == 0) ≡ true = ground arith in rw (u, done) (ground arith)
        | inr e ↦
            let left : need - seen - 1 ≡ need - (seen + 1) = omega arith in
            let wanted : (need - (seen + 1) == 0) ≡ false = ground arith in
            rw (u, left, wanted, next)
              (scan-first rounds (q + 1) (seen + 1) need p m run (omega arith) (omega arith)
                (ground arith) (λ r h h'. extend_run q seen m u free r (omega arith) h')
                (omega arith))
      ]
      | inr u ↦
          let w = run.wanted in
          let wanted : (need == 0) ≡ false = ground arith in
          let none_seen : need - 0 ≡ need = omega arith in
          let before : q < p = used_before q seen need p m run b c u in
          rw (u, wanted, next)
            (rw none_seen at (
              scan-first rounds (q + 1) 0 need p m run (omega arith) (omega arith) w
                (λ r h h'. absurd (omega arith)) (omega arith)))
    ]
