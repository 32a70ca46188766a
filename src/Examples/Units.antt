-- ===== src/Examples/Units.antt =====
-- A corpus of two units.
use afb_app_manager.Base.{
  true, is_some, false, equal, ◌≡◌, refl, some, none, [], ◌∷◌, codes, pos, ◌++◌,
}
use afb_app_manager.Request.Receive.Lines.{unlines, has_newline}
use afb_app_manager.UnitProcess.{
  matches, skip_blanks, offset_from, dedup_slashes, dedup_from, pack_lines, pack_line, body_of,
  continues, lines_of, is_prefix,
}
use afb_app_manager.UnitProcess.Splits.{corpus_split_total}
use afb_app_manager.UnitProcess.Corpus.{
  corpus_split, scope_user, type_service, process_one_unit, word_of,
}
use afb_app_manager.UnitProcess.Rendered.{
  UnitText, IsWellWritten, unit_of, render_all, corpus_split-render_all,
}

abbrev first : UnitText
first = record {
  before = codes "# units" ∷ [];
  lines =
      codes "%systemd-unit user" ∷ codes "%systemd-unit service a.service" ∷ codes "[Unit]" ∷ [];
}

abbrev second : UnitText
second = record { before = []; lines = [] }

first-IsWellWritten : IsWellWritten first
unfolding has_newline matches skip_blanks
first-IsWellWritten = record {
  before_begin = ((refl, refl), tt);
  before_end = ((refl, refl), tt);
  lines_begin = ((refl, refl), ((refl, refl), ((refl, refl), tt)));
  lines_end = ((refl, refl), ((refl, refl), ((refl, refl), tt)));
}

second-IsWellWritten : IsWellWritten second
second-IsWellWritten = record {
  before_begin = tt;
  before_end = tt;
  lines_begin = tt;
  lines_end = tt;
}

corpus_split-render_all_example :
    corpus_split [] (render_all (first ∷ second ∷ []) (unlines []))
    ≡ some (pos 2, unit_of first ∷ unit_of second ∷ [], [])
corpus_split-render_all_example =
    corpus_split-render_all (first ∷ second ∷ []) []
      (first-IsWellWritten, (second-IsWellWritten, tt)) tt tt

first_unit : unit_of first ≡ record {
  scope = scope_user;
  type = type_service;
  name = some (codes "a.service");
  name_length = 9;
  content = codes "[Unit]" ++ b'\n' ∷ [];
  content_length = 7;
  wanted_by = none;
  wanted_by_length = 0;
}
unfolding process_one_unit offset_from matches skip_blanks word_of pack_lines pack_line body_of
    continues lines_of equal
first_unit = refl

slashes : dedup_slashes (codes "http:///a//b file:////c") ≡ codes "http://a/b file:///c"
unfolding dedup_from is_prefix
slashes = refl

corpus_split_total_example :
    is_some (corpus_split (false ∷ []) (render_all (first ∷ []) (codes "%begin "))) ≡ true
corpus_split_total_example =
    corpus_split_total (false ∷ []) (render_all (first ∷ []) (codes "%begin "))

-- Blanks before the end of a line, a row of blanks for one space, a mismatch, no blank, and a text that ends.
matched :
    (matches (b'a' ∷ b'\n' ∷ []) (codes "a \t\nb") ≡ some (codes "b"))
    × (matches (codes "%begin ") (codes "%begin  \tx") ≡ some (codes "x"))
    × (matches (codes "%begin ") (codes "%end x") ≡ none)
    × (matches (codes "%begin ") (codes "%beginx") ≡ none)
    × (matches (b'a' ∷ b'\n' ∷ []) (codes "a") ≡ some [])
unfolding matches skip_blanks
matched = (refl, refl, refl, refl, refl)
