-- ===== src/Convert/Reading.antt =====
-- Which lines a scan of a text gives.
use fwknop_go.Base.{
  ◌≡◌, refl, ap, ◌∙◌, true, false, List, [], ◌∷◌, ◌++◌, Bytes, All, Lacks, length, leb, split,
  split_at_sep, trim_space, map,
}
use fwknop_go.Convert.Lines.{is_skipped, max_line, taken, without_last_empty, scan_lines}

-- Each line with its newline.
abbrev pub unlines : List Bytes → Bytes
unlines [] = []
unlines (l ∷ ls) = l ++ (b'\n' ∷ unlines ls)

-- A line that a scan gives back.
pub record IsLine (l : Bytes) : Type 0 where
  pub counts : is_skipped l ≡ false
  pub one_line : Lacks b'\n' l
  pub fits : leb (length l) max_line ≡ true
  pub trimmed : trim_space l ≡ l

without_last_empty-line :
    (l : Bytes) (ls : List Bytes)
    → is_skipped l ≡ false
    → without_last_empty (l ∷ ls) ≡ l ∷ without_last_empty ls
unfolding is_skipped
without_last_empty-line [] ls h = absurd (cc)
without_last_empty-line (c ∷ l) ls h = refl

split-unlines :
    (ls : List Bytes) → All IsLine ls → without_last_empty (split b'\n' (unlines ls)) ≡ ls
unfolding split
split-unlines [] h = refl
split-unlines (l ∷ ls) (hl, hs) =
    ap without_last_empty (split_at_sep b'\n' l (unlines ls) hl.one_line)
    ∙ without_last_empty-line l (split b'\n' (unlines ls)) hl.counts
    ∙ ap (◌∷◌ l) (split-unlines ls hs)

taken_all : (ls : List Bytes) → All IsLine ls → taken ls ≡ ls
taken_all [] h = refl
taken_all (l ∷ ls) (hl, hs) = rw hl.fits (ap (◌∷◌ l) (taken_all ls hs))

trimmed_all : (ls : List Bytes) → All IsLine ls → map trim_space ls ≡ ls
trimmed_all [] h = refl
trimmed_all (l ∷ ls) (hl, hs) = cc (hl.trimmed, trimmed_all ls hs)

-- Lines that are trimmed, that are no comments and that the buffer holds are read back.
pub scan_lines-unlines : (ls : List Bytes) → All IsLine ls → scan_lines (unlines ls) ≡ ls
unfolding scan_lines
scan_lines-unlines ls h =
    ap (λ x. map trim_space (taken x)) (split-unlines ls h)
    ∙ ap (map trim_space) (taken_all ls h)
    ∙ trimmed_all ls h
