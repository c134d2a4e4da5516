-- ===== src/Mdnssd/Response/Tests.antt =====
-- mdnssd/response.go: tests.
use bramble_gate.Prelude.{◌≡◌, refl, [], ◌∷◌, codes, insert, cut, string_discrete}
use bramble_gate.Mdnssd.Response.{parse_txt}

txt_last_wins :
    parse_txt (codes "a=1" ∷ codes "flag" ∷ codes "a=2" ∷ []) [] ≡ (codes "a", codes "2") ∷ []
unfolding parse_txt insert cut string_discrete
txt_last_wins = refl
