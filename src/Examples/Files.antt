-- ===== src/Examples/Files.antt =====
-- A unit file of four lines, and a line without its newline.
use afb_app_manager.Base.{List, [], ◌∷◌, ◌++◌, Bytes, codes, ◌≡◌, refl, arith, length}
use afb_app_manager.Request.Receive.Lines.{has_newline, unlines, AreLines}
use afb_app_manager.UnitFile.{normalize, normalize_unit_file_cmtchrs, stored}
use afb_app_manager.UnitFile.ByLine.{normalize_unit_file-unlines, normalize_unit_file_unended}

abbrev lines : List Bytes
lines = codes "# comment" ∷ codes "[Unit]" ∷ codes "  A=1 \\" ∷ codes " 2" ∷ []

lines-AreLines : AreLines lines
unfolding has_newline
lines-AreLines = (refl, (refl, (refl, (refl, tt))))

normalize_unit_file-unlines_example :
    normalize_unit_file_cmtchrs (unlines lines) (codes ";#")
    ≡ codes "[Unit]" ++ b'\n' ∷ codes "A=1  2" ++ b'\n' ∷ []
normalize_unit_file-unlines_example = normalize_unit_file-unlines (codes ";#") lines lines-AreLines

normalize_unit_file_unended_example :
    (normalize_unit_file_cmtchrs (codes "ab") (codes ";#") ≡ b'a' ∷ b'b' ∷ 0 ∷ [])
    × (stored (codes "ab") (codes ";#") ≡ b'a' ∷ b'b' ∷ 0 ∷ 0 ∷ [])
    × (length (stored (codes "ab") (codes ";#")) ≡ 4)
normalize_unit_file_unended_example =
    normalize_unit_file_unended (codes ";#") b'a' (codes "b") refl refl (unfold has_newline in refl)
      (omega arith)

-- A blank line, an indentation of both kinds of blanks, a comment behind one, and blanks inside a line.
blanks : normalize_unit_file_cmtchrs (codes "\n \t a b\n\t; c\nd\n") (codes ";#") ≡ codes "a b\nd\n"
unfolding normalize
blanks = refl
