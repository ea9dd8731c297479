-- ===== src/Lfs/Empty.antt =====
-- The file system that device/lfs/lfscreate.c leaves on the disk.
use ece564_project.Prelude.{
  ℕ, suc, ◌+◌, ◌-◌, ◌*◌, ◌/◌, ◌%◌, ◌^◌, ◌≤◌, ◌<◌, ◌≡◌, refl, sym, ap, subst, ◌∙◌, true, false, ltb,
  some, arith,
}
use ece564_project.Prelude.Int.{pos, ltb_ℤ}
use ece564_project.Lfs.Disk.{lf_inull, Lfiblk, Lfs, lfibclear, lfscheck}
use ece564_project.Lfs.Create.{
  new_dir, make_iblocks, make_dblocks, lfscreate, count_iblocks, count_dblocks, lfsckfmt,
}
use ece564_project.Lfs.Chains.{Linked}
use ece564_project.Lfs.Blocks.{Free}
use ece564_project.Lfs.Formatted.{
  upto, length-upto, has-upto_above, make_dblocks_frame, make_dblocks-Free, make_iblocks_frame,
  make_iblocks-Linked, count_iblocks-length, count_dblocks-length,
}

-- The sectors of a disk of `dsiz` bytes, and those of them that `lfiblks` index blocks take.
abbrev pub sectors_of : ℕ → ℕ
sectors_of dsiz = dsiz / 512

abbrev pub ibsectors_of : ℕ → ℕ
ibsectors_of lfiblks = (lfiblks + 6) / 7

-- `n` index blocks and `m` data blocks, the first of them `d`, are free, and there is no file.
pub record Empty (disk_id n m d : ℕ) (old l : Lfs) : Type 0 where
  pub selected : l.lf_dskdev ≡ pos disk_id
  pub present : l.lf_dirpresent ≡ old.lf_dirpresent
  pub made : l.disk.directory ≡ new_dir d
  pub index_free : Linked l.disk.iblocks 0 (upto n 0) lf_inull
  pub data_free : Free l.disk.dblocks d (upto m d)

pub lfscreate-Empty :
    (disk_id lfiblks dsiz : ℕ) (junk : Lfiblk) (l : Lfs)
    → ltb_ℤ l.lf_dskdev (pos 0) ≡ true
    → 0 < lfiblks
    → ibsectors_of lfiblks ≤ sectors_of dsiz / 2
    → ibsectors_of lfiblks + 2 ≤ sectors_of dsiz
    → dsiz < 2 ^ 32
    → (l' : Lfs) × (lfscreate false disk_id lfiblks dsiz junk l ≡ (l', true))
      × Empty disk_id
          (ibsectors_of lfiblks * 7)
          (sectors_of dsiz - ibsectors_of lfiblks - 1)
          (ibsectors_of lfiblks + 1)
          l
          l'
unfolding lfscreate
lfscreate-Empty disk_id lfiblks dsiz junk l unset some_blocks half room small =
    let k : ℕ = ibsectors_of lfiblks in
    let d : ℕ = k + 1 in
    let m : ℕ = sectors_of dsiz - k - 1 in
    let l1 : Lfs = record l { lf_dskdev = pos disk_id } in
    let l2 : Lfs = record l1 { disk = record l1.disk { directory = new_dir d } } in
    let ib : Lfiblk = lfibclear 0 junk in
    let l3 : Lfs = make_iblocks (k * 7 - 1) 0 ib l2 in
    let l4 : Lfs = make_dblocks (m - 1) d l3 in
    let fits : ltb (sectors_of dsiz / 2) k ≡ false = ground arith in
    let number : ((sectors_of dsiz + 2 ^ 32 - k - 1) % 2 ^ 32 + 2 ^ 32 - 1) % 2 ^ 32 ≡ m - 1 =
      omega arith in
    let index_frame = make_iblocks_frame (k * 7 - 1) 0 ib l2 in
    let data_frame = make_dblocks_frame (m - 1) d l3 in
    let index_number : suc (k * 7 - 1) ≡ k * 7 = omega arith in
    let data_number : suc (m - 1) ≡ m = omega arith in
    (
      l4,
      rw (unset, fits, number) refl,
      record {
        selected =
            ap (λ (s : Lfs). s.lf_dskdev) data_frame ∙ ap (λ (s : Lfs). s.lf_dskdev) index_frame;
        present =
            ap (λ (s : Lfs). s.lf_dirpresent) data_frame
            ∙ ap (λ (s : Lfs). s.lf_dirpresent) index_frame;
        made =
            ap (λ (s : Lfs). s.disk.directory) data_frame
            ∙ ap (λ (s : Lfs). s.disk.directory) index_frame;
        index_free =
            subst (λ t. Linked t 0 (upto (k * 7) 0) lf_inull)
              (sym (ap (λ (s : Lfs). s.disk.iblocks) data_frame))
              (subst (λ z. Linked l3.disk.iblocks 0 (upto z 0) lf_inull) index_number
                (make_iblocks-Linked (k * 7 - 1) 0 ib l2));
        data_free =
            subst (λ z. Free l4.disk.dblocks d (upto z d)) data_number
              (make_dblocks-Free (m - 1) d l3 (omega arith));
      },
    )

pub new_dir_checked : (d : ℕ) → lfscheck (new_dir d) ≡ true
unfolding lfscheck
new_dir_checked d = refl

Empty-lfsckfmt :
    (fuel disk_id n m d : ℕ) (old l : Lfs)
    → Empty disk_id n m d old l
    → n ≤ 4294967295
    → d + m ≤ 4294967295
    → n < fuel
    → m < fuel
    → lfsckfmt fuel l ≡ some (n, m)
unfolding lfsckfmt
Empty-lfsckfmt fuel disk_id n m d old l e few small f g =
    let check : lfscheck l.disk.directory ≡ true =
      ap (λ dir. lfscheck dir) e.made ∙ new_dir_checked d in
    let len_n = length-upto n 0 in
    let len_m = length-upto m d in
    let index : count_iblocks fuel l.disk.directory.lfd_ifree l ≡ some n =
      ap (λ dir. count_iblocks fuel dir.lfd_ifree l) e.made
      ∙ count_iblocks-length fuel 0 (upto n 0) l e.index_free
          (has-upto_above n 0 lf_inull (omega arith)) (omega arith)
      ∙ ap some len_n in
    let sectors : count_dblocks fuel l.disk.directory.lfd_dfree l ≡ some m =
      ap (λ dir. count_dblocks fuel dir.lfd_dfree l) e.made
      ∙ count_dblocks-length fuel d (upto m d) l e.data_free (has-upto_above m d lf_inull small)
          (omega arith)
      ∙ ap some len_m in
    rw (check, index, sectors) refl

-- On a disk of `dsiz` bytes, while no disk is selected, lfscreate for at least one index block, whose
-- sectors are at most half of those of the disk and leave one for data: it is OK, and lfsckfmt finds a
-- file system with the index blocks of these sectors, seven in each, and one data block for each
-- sector that is left behind them and the directory.
pub lfscreate-lfsckfmt :
    (disk_id lfiblks dsiz : ℕ) (junk : Lfiblk) (l : Lfs) (fuel : ℕ)
    → ltb_ℤ l.lf_dskdev (pos 0) ≡ true
    → 0 < lfiblks
    → (lfiblks + 6) / 7 ≤ dsiz / 512 / 2
    → (lfiblks + 6) / 7 + 2 ≤ dsiz / 512
    → dsiz < 2 ^ 32
    → (lfiblks + 6) / 7 * 7 + dsiz / 512 ≤ fuel
    → (l' : Lfs) × (lfscreate false disk_id lfiblks dsiz junk l ≡ (l', true))
      × (lfsckfmt fuel l' ≡ some ((lfiblks + 6) / 7 * 7, dsiz / 512 - (lfiblks + 6) / 7 - 1))
lfscreate-lfsckfmt disk_id lfiblks dsiz junk l fuel unset some_blocks half room small enough =
    let (l', runs, e) =
      lfscreate-Empty disk_id lfiblks dsiz junk l unset some_blocks half room small in
    let k : ℕ = ibsectors_of lfiblks in
    (
      l',
      runs,
      Empty-lfsckfmt fuel disk_id (k * 7) (sectors_of dsiz - k - 1) (k + 1) l l' e (omega arith)
          (omega arith) (omega arith) (omega arith),
    )
