-- ===== src/Mdnssd/Response/Laws.antt =====
-- mdnssd/response.go: every lifetime read from a message is a whole number of seconds.
use bramble_gate.Prelude.{ℕ, ◌*◌, ◌%◌, ◌≡◌, List, [], ◌∷◌, All, GoString, arith}
use bramble_gate.Dns.{Msg}
use bramble_gate.Mdnssd.Response.{
  Wire, Body, ptr, srv, txt, a, aaaa, other, PtrRecord, ParsedAnswers, second, add_answer,
  parse_records, parse_answers,
}

abbrev pub AllWhole : List PtrRecord → Type 0
AllWhole ptrs = All (λ p. p.ttl % second ≡ 0) ptrs

add_answer-AllWhole :
    (name : GoString) (seconds : ℕ) (body : Body) (out : ParsedAnswers)
    → AllWhole out.ptr
    → AllWhole (add_answer name (seconds * second) body out).ptr
unfolding add_answer
add_answer-AllWhole name seconds (ptr target) out h = (omega arith, h)
add_answer-AllWhole name seconds (srv target port) out h = h
add_answer-AllWhole name seconds (txt segments) out h = h
add_answer-AllWhole name seconds (a ip) out h = h
add_answer-AllWhole name seconds (aaaa ip) out h = h
add_answer-AllWhole name seconds other out h = h

module _ {Rr : Type 0} (wire : Wire Rr) where
  records_whole : (rrs : List Rr) → AllWhole (parse_records wire rrs).ptr
  unfolding parse_records
  records_whole [] = tt
  records_whole (rr ∷ rrs) =
      add_answer-AllWhole (wire.dns.rr_name rr) (wire.dns.rr_ttl rr) (wire.body rr) _
        (records_whole rrs)

  pub parse_answers-AllWhole : (msg : Msg Rr) → AllWhole (parse_answers wire msg).ptr
  unfolding parse_answers
  parse_answers-AllWhole msg = records_whole _
