-- ===== src/Parser/Tests.antt =====
-- Runs of the cursor of td/utils/Parser.h.
use tdutils.Base.{none, not, refl, some, [], ◌∷◌, ◌≡◌}
use tdutils.Base.Text.{codes}
use tdutils.Parser.{
  advance, best_till, empty, find_char, Parser, peek_char, read_all, read_till, read_till_nofail,
  read_till_nofail_any, read_while, read_word, skip, skip_nofail, skip_till_not, skip_whitespaces,
  split_at, start, try_skip,
}
use tdutils.Parser.Reads.{is_in, read_till_nofail_any-read_while}

abbrev config_line : Parser
config_line = start (codes " key = value\nnext")

reads_word :
    read_word config_line ≡ (codes "key", record { text = codes " = value\nnext"; status = none })
unfolding start codes read_word read_till_nofail_any best_till find_char split_at skip_whitespaces
    skip_till_not
reads_word = refl

reads_till :
    read_till b'=' config_line
    ≡ (codes " key ", record { text = codes "= value\nnext"; status = none })
unfolding start codes read_till read_till_nofail find_char split_at empty peek_char
reads_till = refl

fails_behind_the_end :
    (skip b'x' (skip b'a' (start (codes "a")))).status ≡ some (codes "Skip [char:x] failed")
unfolding start codes skip try_skip
fails_behind_the_end = refl

skips_and_advances :
    (skip_nofail b'k' (codes "key") ≡ codes "ey")
    × (advance 2 (codes "key") ≡ some (codes "y"))
    × (read_all (codes "key") ≡ (codes "key", []))
unfolding codes skip_nofail advance read_all
skips_and_advances = (refl, refl, refl)

line_ok : config_line.status ≡ none
unfolding start
line_ok = refl

read_till_nofail_any-read_while_example :
    (
      (read_till_nofail_any (b'=' ∷ b'\n' ∷ []) config_line).0,
      (read_till_nofail_any (b'=' ∷ b'\n' ∷ []) config_line).1.text,
    )
    ≡ read_while (λ d. not (is_in (b'=' ∷ b'\n' ∷ []) d)) config_line.text
read_till_nofail_any-read_while_example =
    read_till_nofail_any-read_while (b'=' ∷ b'\n' ∷ []) config_line line_ok
