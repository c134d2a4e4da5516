-- ===== src/Mdnsbridge/Glob/Tests.antt =====
-- plugins/mdnsbridge/selector.go: tests of the matcher, and the theorems at concrete inputs.
use bramble_gate.Prelude.{◌≡◌, refl, Bool, true, false, some, arith, codes, to_lower}
use bramble_gate.Mdnsbridge.Glob.{all_stars, glob, glob_match}
use bramble_gate.Mdnsbridge.Glob.Laws.{is_match, NoStar}
use bramble_gate.Mdnsbridge.Glob.Loop.{glob-is_match}
use bramble_gate.Mdnsbridge.Glob.Total.{glob-returns}

program : Unit {0}
unfolding glob_match glob all_stars to_lower is_match
program = tt

glob_service : glob_match (codes "_*._TCP") (codes "_airplay._tcp") ≡ some true
unfolding program
glob_service = refl

glob_back : glob (codes "*ab") (codes "aab") ≡ some true
unfolding program
glob_back = refl

glob_short : glob (codes "a?") (codes "a") ≡ some false
unfolding program
glob_short = refl

-- A star in the text is taken for the pattern's.
glob_star_text : glob (codes "*") (codes "*a") ≡ some false
unfolding program
glob_star_text = refl

is_match_star_text : is_match (codes "*") (codes "*a") ≡ true
unfolding program
is_match_star_text = refl

text-NoStar : NoStar (codes "aab")
text-NoStar = (ground arith, (ground arith, (ground arith, tt)))

glob-is_match_example :
    glob (codes "*ab") (codes "aab") ≡ some (is_match (codes "*ab") (codes "aab"))
glob-is_match_example = glob-is_match (codes "*ab") (codes "aab") text-NoStar

glob-returns_example : (b : Bool) × (glob (codes "*a*") (codes "*b*") ≡ some b)
glob-returns_example = glob-returns (codes "*a*") (codes "*b*")
